-- ===== src/Process/Started.antt =====
-- What a spawn of the process backend starts.
use zeptocapsule.Common.{
  ℕ, suc, ltb, Bool, true, false, Option, none, some, Option-cases, List, [], ◌∷◌, ◌≡◌, refl, ◌∙◌,
  inl, inr, if_intro, if◌then◌else◌,
}
use zeptocapsule.Common.Result.{Result, ok, err, by_result}
use zeptocapsule.Common.Program.{Every, Every->>=, on_error, ask, ret, ◌>>=◌, ◌>>◌}
use zeptocapsule.Text.{Str, codes}
use zeptocapsule.Capsule.Backend.{KernelError}
use zeptocapsule.Capsule.{RLimits, ResourceLimits, SecurityProfile, dev, standard, hardened, from}
use zeptocapsule.Firecracker.Handle.{or_insert_all}
use zeptocapsule.Process.{
  Child, ProcessCapsule, Sys, Ans, M, start, drop_child, start_watchdog, take_streams, pid_or,
  captured, install_timeout_watchdog, egress_env, set_all, limits_of, spawn,
}
use zeptocapsule.Process.Merged.{lookup, or, IsMap, lookup-merged}

-- the commands that were started or not, each with its words, the variables that are set for it and its
-- limits; the children that were started, and those that were dropped; the watchdogs, by their seconds
pub record Seen : Type 0 where
  pub starts : List (List Str × List (Str × Str) × Option RLimits)
  pub children : ℕ
  pub dropped : ℕ
  pub watchdogs : List ℕ

abbrev pub counted : Result Str Child → ℕ → ℕ
counted (ok c) n = suc n
counted (err e) n = n

unfoldable pub see : (e : Sys) → Ans e → Seen → Seen
see (start words env limits) r v = record v {
  starts = (words, env, limits) ∷ v.starts;
  children = counted r v.children;
}
see drop_child r v = record v { dropped = suc v.dropped }
see (start_watchdog secs) r v = record v { watchdogs = secs ∷ v.watchdogs }
see e r v = v

abbrev pub nothing : Seen
nothing = record { starts = []; children = 0; dropped = 0; watchdogs = [] }

-- The process backend limits a Dev worker only.
abbrev pub IsLimited : SecurityProfile → ResourceLimits → Option RLimits → Type 0
IsLimited dev l limits = limits ≡ some (from l)
IsLimited standard l limits = limits ≡ none
IsLimited hardened l limits = limits ≡ none

-- The value of a name is the caller's, or else the gate's, as where the gate's are added to the caller's.
abbrev pub IsMerged : Str → (own gate set : List (Str × Str)) → Type 0
IsMerged j own gate set =
    (lookup j set ≡ or (lookup j own) (lookup j gate))
    × (lookup j set ≡ lookup j (or_insert_all own gate))

module _ (h : ProcessCapsule) (binary : Str) (args : List Str) (env : List (Str × Str))
    (j : Str) where
  -- One command was started, or failed to, as the spec has it.
  abbrev pub Starts : Seen → Type 0
  Starts v =
      (set : List (Str × Str)) × (limits : Option RLimits) × (v.starts
        ≡ (binary ∷ args, set, limits) ∷ [])
      × IsMerged j env (egress_env h.egress) set
      × IsLimited h.spec.security h.spec.limits limits

  abbrev pub StartEnds : Option (Option ℕ) → Seen → Result KernelError (ProcessCapsule × ℕ) → Type 0
  StartEnds (some c) v (ok x) = ⊥
  StartEnds (some c) v (err x) = v ≡ nothing
  StartEnds none v (ok (h', pid)) =
      Starts v
      × (v.children ≡ 1)
      × (v.dropped ≡ 0)
      × (v.watchdogs
          ≡ (if ltb 0 h.spec.limits.timeout_sec then h.spec.limits.timeout_sec ∷ [] else []))
      × (h'.child ≡ some (some pid))
      × (h'.timeout_cancel ≡ ltb 0 h.spec.limits.timeout_sec)
      × (h'.egress ≡ h.egress)
  StartEnds none v (err x) = Starts v × (v.dropped ≡ v.children) × (v.watchdogs ≡ [])

-- A child without its id or a stream is dropped.
abbrev Taken : Seen → Seen → Result KernelError ℕ → Type 0
Taken v w (ok pid) = w ≡ v
Taken v w (err x) = w ≡ record v { dropped = suc v.dropped }

abbrev dropping : M ℕ → M ℕ
dropping p = on_error (ask drop_child) p

captured-Taken :
    (what binary : Str) (b : Bool) (v : Seen) (next : M ℕ)
    → Every see v (dropping next) (Taken v)
    → Every see v (dropping (captured what binary b >> next)) (Taken v)
unfolding see
captured-Taken what binary true v next good = good
captured-Taken what binary false v next good = λ _. refl

pid_or-Taken :
    (binary : Str) (o : Option ℕ) (v : Seen) (next : ℕ → M ℕ)
    → ((pid : ℕ) → Every see v (dropping (next pid)) (Taken v))
    → Every see v (dropping (pid_or binary o >>= next)) (Taken v)
unfolding see
pid_or-Taken binary (some pid) v next good = good pid
pid_or-Taken binary none v next good = λ _. refl

take_streams-Taken :
    (binary : Str) (c : Child) (v : Seen) → Every see v (take_streams binary c) (Taken v)
unfolding take_streams
take_streams-Taken binary c v = pid_or-Taken binary c.pid v _ (λ pid.
    captured-Taken (codes "stdin") binary c.stdin v _ (
      captured-Taken (codes "stdout") binary c.stdout v _
        (captured-Taken (codes "stderr") binary c.stderr v (ret pid) refl)))

limits_of-IsLimited :
    (h : ProcessCapsule) (security : SecurityProfile)
    → IsLimited security h.spec.limits (limits_of h.spec security)
limits_of-IsLimited h dev = refl
limits_of-IsLimited h standard = refl
limits_of-IsLimited h hardened = refl

-- The watchdog runs if there is a timeout.
watched-StartEnds :
    (h : ProcessCapsule) (binary : Str) (args : List Str) (env : List (Str × Str)) (j : Str)
    (v : Seen) (pid : ℕ)
    → Starts h binary args env j v
    → v.children ≡ 1
    → v.dropped ≡ 0
    → v.watchdogs ≡ []
    → Every see v
        (install_timeout_watchdog h.spec.limits.timeout_sec
          >> ret (
            record h { child = some (some pid); timeout_cancel = ltb 0 h.spec.limits.timeout_sec },
            pid,
          ))
        (StartEnds h binary args env j none)
unfolding see
watched-StartEnds h binary args env j v pid good one kept idle =
    let secs = h.spec.limits.timeout_sec in
    let returned : M (ProcessCapsule × ℕ) =
      ret (record h { child = some (some pid); timeout_cancel = ltb 0 secs }, pid) in
    if_intro
      (λ (p : M (Unit {0})). Every see v (p >> returned) (StartEnds h binary args env j none))
      (ltb 0 secs) (λ positive _. (good, one, kept, rw (positive, idle) refl, refl, refl, refl))
      (λ zero_secs. (good, one, kept, rw (zero_secs, idle) refl, refl, refl, refl))

-- However the system answers: `spawn` of a capsule that has a child fails, and has started nothing.
-- Otherwise one command is started, with the words that are given and, for Dev, the limits of the spec.
-- Of two environments with no name twice, the value that it sets for a name is the caller's, or else the
-- gate's, as where the gate's are added to the caller's. Where a child is returned, it is the handle's, none
-- was dropped, and the watchdog runs if there is a timeout; where `spawn` fails, no watchdog does, and a
-- child that was started was dropped.
pub spawn-StartEnds :
    (h : ProcessCapsule) (binary : Str) (args : List Str) (env : List (Str × Str)) (j : Str)
    → IsMap env
    → IsMap (egress_env h.egress)
    → Every see nothing (spawn h binary args env) (StartEnds h binary args env j h.child)
unfolding spawn see
spawn-StartEnds h binary args env j own_map gate_map = elim (Option-cases h.child) [
  | inr (c, e) ↦ rw e refl
  | inl e ↦
      let gate = egress_env h.egress in
      let set = set_all (set_all [] gate) env in
      let limits = limits_of h.spec h.spec.security in
      let (same, value) = lookup-merged j env gate own_map gate_map in
      let failed : Seen = record nothing { starts = (binary ∷ args, set, limits) ∷ [] } in
      let begun : Seen = record failed { children = 1 } in
      let good : Starts h binary args env j begun =
        (set, limits, refl, (same ∙ value, same), limits_of-IsLimited h h.spec.security) in
      let failing : Starts h binary args env j failed = good in
      rw e (
        by_result _
          (λ c.
            Every->>= see begun (take_streams binary c) _ (Taken begun)
              (StartEnds h binary args env j none) (take_streams-Taken binary c begun)
              (λ v pid q.
                rw q (watched-StartEnds h binary args env j begun pid good refl refl refl))
              (λ v x q. rw q (good, refl, refl)))
          (λ x. (failing, refl, refl)))
]
