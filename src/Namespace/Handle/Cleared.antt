-- ===== src/Namespace/Handle/Cleared.antt =====
-- What `destroy` leaves once the child of a capsule in namespaces has ended.
use zeptocapsule.Common.{
  ℕ, Bool, false, Option, none, some, List, [], ◌∷◌, ◌++◌, ◌≡◌, refl, if_intro,
}
use zeptocapsule.Common.Result.{Result, ok, err, by_result}
use zeptocapsule.Common.Program.{Every, Every->>=}
use zeptocapsule.Text.{Str, codes}
use zeptocapsule.Capsule.{CapsuleSpec, ResourceViolation}
use zeptocapsule.Capsule.Backend.{KernelError}
use zeptocapsule.Capsule.Report.{CapsuleReport}
use zeptocapsule.Egress.Types.{EgressDecision}
use zeptocapsule.Egress.Veth.{VethSetup}
use zeptocapsule.Egress.Start.{EgressRuntime}
use zeptocapsule.Namespace.System.{diag, reading}
use zeptocapsule.Namespace.Cgroup.{Cgroup, counter, positive, destroy}
use zeptocapsule.Namespace.Clone.{NamespaceSpawn}
use zeptocapsule.Namespace.Clone.Seen.{Setup, gone, going}
use zeptocapsule.Namespace.Clone.Ends.{started, streams}
use zeptocapsule.Namespace.Handle.{other, exited, signaled, I32, hosted, M, Ended, free, running}
use zeptocapsule.Namespace.Handle.Destroy.{exit_of, drop_group, violation_of, take_egress, clear}
use zeptocapsule.Namespace.Handle.Seen.{Seen, see, fresh}

-- the child goes on, and the watchdog runs or does not
abbrev pub up : Str → Setup → List Str → Bool → Seen
up staged s groups watchdog = record fresh {
  clone = started staged s;
  groups = groups;
  watchdog = watchdog;
}

-- the child has ended
abbrev pub gone_at : Str → Setup → List Str → List (ℕ × ℕ) → Ended → Seen
gone_at staged s groups signals e = record fresh {
  clone = record (started staged s) { child = gone s };
  groups = groups;
  signals = signals;
  ended = some e;
}

abbrev pub certificates : Option (EgressRuntime VethSetup) → List Str
certificates none = []
certificates (some e) = e.ca_cert_path ∷ []

-- Of what `do_clone` has made, the caller's streams are left.
abbrev pub cleared :
    Str → Setup → Option (EgressRuntime VethSetup) → zeptocapsule.Namespace.Clone.Seen.Seen
cleared staged s egress = record {
  open_fds = streams;
  copies = staged ∷ [];
  removed = certificates egress ++ staged ∷ [];
  unreadable = false;
  child = gone s;
}

-- the gate is taken down, once
abbrev pub GateTaken : Option (EgressRuntime VethSetup) → Seen → Type 0
GateTaken none v = (v.shut ≡ 0) × (v.torn ≡ [])
GateTaken (some e) v = (v.shut ≡ 1) × (v.torn ≡ e.device ∷ [])

-- the code or the signal by which the child ended
abbrev pub Exits : Ended → (code signal : Option I32) → Type 0
Exits (exited n) code signal = (code ≡ some n) × (signal ≡ none)
Exits (signaled n) code signal = (code ≡ none) × (signal ≡ some n)
Exits other code signal = (code ≡ none) × (signal ≡ none)

exit_of-Exits : (e : Ended) → Exits e (exit_of (some e)).0 (exit_of (some e)).1
unfolding exit_of
exit_of-Exits (exited n) = (refl, refl)
exit_of-Exits (signaled n) = (refl, refl)
exit_of-Exits other = (refl, refl)

-- The report of a capsule of which nothing is left but the caller's streams.
abbrev pub Cleared :
    CapsuleSpec
    → Option (EgressRuntime VethSetup)
    → NamespaceSpawn
    → Setup
    → Seen
    → CapsuleReport
    → Type 0
Cleared spec egress sp s v report =
    (v.clone ≡ cleared sp.staged_init s egress)
    × ((groups : List Str) × (v.groups ≡ sp.cgroup.path ∷ groups))
    × ((e : Ended) × (v.ended ≡ some e) × Exits e report.exit_code report.exit_signal)
    × GateTaken egress v
    × (report.egress_log ≡ v.drained)
    × (v.watchdog ≡ false)

abbrev Stays : {A : Type 0} → Seen → Seen → Result KernelError A → Type 0
Stays v u (ok a) = u ≡ v
Stays v u (err e) = ⊥

violation_of-Stays :
    (killed_by : Option ResourceViolation) (group : Option Cgroup) (v : Seen)
    → Every see v (violation_of killed_by group) (Stays v)
unfolding see zeptocapsule.Namespace.Clone.Seen.see
violation_of-Stays (some k) group v = refl
violation_of-Stays none none v = refl
violation_of-Stays none (some group) v = λ events.
    if_intro (λ (p : M (Option ResourceViolation)). Every see v p (Stays v))
      (positive (counter (codes "oom_kill") events)) (λ _. refl) (λ _ _. refl)

abbrev pub Tried : Seen → Cgroup → Seen → Result KernelError (Unit {0}) → Type 0
Tried v group u (ok t) = (groups : List Str) × (u ≡ record v { groups = group.path ∷ groups })
Tried v group u (err e) = ⊥

pub drop_group-Tried :
    (group : Cgroup) (v : Seen) → Every see v (drop_group (some group)) (Tried v group)
unfolding see hosted zeptocapsule.Namespace.Clone.Seen.see destroy
drop_group-Tried group v =
    by_result _ (λ t. (v.groups, refl))
      (λ e _. by_result _ (λ t. (_, refl)) (λ e _. by_result _ (λ t. (_, refl)) (λ e _. (_, refl))))

module _ (spec : CapsuleSpec) (egress : Option (EgressRuntime VethSetup))
    (sp : NamespaceSpawn) where
  abbrev pub Clean : Setup → Seen → Result KernelError CapsuleReport → Type 0
  Clean s v (ok report) = Cleared spec egress sp s v report
  Clean s v (err e) = ⊥

  -- once the diagnostics are read
  abbrev read_at : Setup → List Str → List (ℕ × ℕ) → Ended → Seen
  read_at s groups signals e = record fresh {
    clone = record (started sp.staged_init s) { open_fds = streams; child = gone s };
    groups = groups;
    signals = signals;
    ended = some e;
  }

  -- once the group is dropped and the copy of the init is removed
  abbrev before_gate : Setup → List Str → List (ℕ × ℕ) → Ended → Seen
  before_gate s groups signals e = record fresh {
    clone = cleared sp.staged_init s none;
    groups = sp.cgroup.path ∷ groups;
    signals = signals;
    ended = some e;
  }

  abbrev Taken :
      Setup
      → List Str
      → Ended
      → Option (EgressRuntime VethSetup)
      → Seen
      → Result KernelError (List EgressDecision)
      → Type 0
  Taken s groups e egress v (ok log) =
      (v.clone ≡ cleared sp.staged_init s egress)
      × (v.groups ≡ sp.cgroup.path ∷ groups)
      × (v.ended ≡ some e)
      × GateTaken egress v
      × (log ≡ v.drained)
      × (v.watchdog ≡ false)
  Taken s groups e egress v (err x) = ⊥

  take_egress-Taken :
      (s : Setup) (groups : List Str) (signals : List (ℕ × ℕ)) (e : Ended)
      (egress : Option (EgressRuntime VethSetup))
      → Every see (before_gate s groups signals e) (take_egress egress) (Taken s groups e egress)
  unfolding take_egress see zeptocapsule.Namespace.Clone.Seen.see
  take_egress-Taken s groups signals e none = (refl, refl, refl, (refl, refl), refl, refl)
  take_egress-Taken s groups signals e (some g) =
      λ log _ _ _. (refl, refl, refl, (refl, refl), refl, refl)

  pub clear-Cleared :
      (s : Setup) (groups : List Str) (signals : List (ℕ × ℕ)) (e : Ended) (b : Bool)
      → sp.diag_read ≡ reading diag
      → Every see
          (gone_at sp.staged_init s groups signals e)
          (clear (record (running (free spec egress) sp) { timeout_cancel = b }) (some e))
          (Clean s)
  unfolding clear see zeptocapsule.Namespace.Clone.Seen.see take_egress
  clear-Cleared s groups signals e b fd =
      let read = read_at s groups signals e in
      rw fd (λ text _ peak.
        Every->>= see read (violation_of none (some sp.cgroup)) _ (Stays read) (Clean s)
          (violation_of-Stays none (some sp.cgroup) read)
          (λ v killed_by same. rw same (
            Every->>= see read (drop_group (some sp.cgroup)) _ (Tried read sp.cgroup) (Clean s)
              (drop_group-Tried sp.cgroup read)
              (λ v t q. rw q.1 (λ _.
                Every->>= see _ (take_egress egress) _ (Taken s (q.0) e egress) (Clean s)
                  (take_egress-Taken s (q.0) signals e egress)
                  (λ v log d. (d.0, (q.0, d.1), (e, d.2, exit_of-Exits e), d.3, d.4, d.5))
                  (λ v x d. absurd d)))
              (λ v x q. absurd q)))
          (λ v x q. absurd q))
