-- ===== src/Namespace/Clone/Ends.antt =====
-- How a run of `do_clone` ends.
use zeptocapsule.Namespace.Clone.Configured.{configure_child-Configured, Configured, Sets}
use zeptocapsule.Namespace.Clone.Seen.{
  start, nothing, gone, waiting, going, absent, Seen, see, Setup,
}
use zeptocapsule.Common.Program.{Every->>=, Every-on_error, on_error, Every}
use zeptocapsule.Namespace.Cgroup.{Cgroup}
use zeptocapsule.Common.{
  none, by_option, some, by_bool, true, false, Option, List, [], ◌∷◌, ◌≡◌, refl, ◌⊎◌, inl, inr, ℕ,
}
use zeptocapsule.Common.Result.{Result, ok, err, by_result}
use zeptocapsule.Text.{Str}
use zeptocapsule.Namespace.Clone.{
  drop_guard, init_path, stage_init_binary, resolve_init_binary, sync, NamespaceSpawn,
  configure_child, diag, stderr, stdout, reading, abandon, clone_staged, stdin, VethSetup, writing,
  Fd, CapsuleSpec, NetnsError, do_clone,
}

-- the ends that the host keeps, in the order of the pipes
abbrev pub streams : List Fd
streams = writing stdin ∷ reading stdout ∷ reading stderr ∷ []

abbrev pub kept : List Fd
kept = writing stdin ∷ reading stdout ∷ reading stderr ∷ reading diag ∷ []

-- No child is left: none was cloned, or it was let go on, killed and waited for.
abbrev pub NoChild : Seen → Type 0
NoChild v = (v.child ≡ absent) ⊎ ((s : Setup) × (v.child ≡ gone s) × (v.open_fds ≡ streams))

abbrev pub started : Str → Setup → Seen
started staged s = record {
  open_fds = kept;
  copies = staged ∷ [];
  removed = [];
  unreadable = false;
  child = going s;
}

abbrev Started : CapsuleSpec → Option VethSetup → Str → Seen → Result Str NamespaceSpawn → Type 0
Started spec veth staged v (ok spawn) =
    (s : Setup) × (v ≡ started staged s)
    × (spawn.staged_init ≡ staged)
    × (spawn.diag_read ≡ reading diag)
    × Configured spec veth spawn.child_pid s (ok spawn.cgroup)
Started spec veth staged v (err x) = (v.copies ≡ staged ∷ []) × (v.removed ≡ []) × NoChild v

abbrev pub staged_at : Str → Seen
staged_at staged = record {
  open_fds = [];
  copies = staged ∷ [];
  removed = [];
  unreadable = false;
  child = absent;
}

-- once the child is cloned
abbrev cloned_at : Str → Seen
cloned_at staged = record {
  open_fds = writing stdin ∷ reading stdout ∷ reading stderr ∷ writing sync ∷ reading diag ∷ [];
  copies = staged ∷ [];
  removed = [];
  unreadable = false;
  child = waiting nothing;
}

-- what holds behind the setup of the child, its error included
abbrev Ready : CapsuleSpec → Option VethSetup → Str → ℕ → Seen → Result Str Cgroup → Type 0
Ready spec veth staged pid v (ok group) =
    Sets (cloned_at staged) (Configured spec veth pid) v (ok group)
Ready spec veth staged pid v (err x) = (v.copies ≡ staged ∷ []) × (v.removed ≡ []) × NoChild v

module _ (error : NetnsError → Str) (spec : CapsuleSpec) (veth : Option VethSetup)
    (staged : Str) where
  configure-Ready :
      (pid : ℕ)
      → Every see
          (cloned_at staged)
          (on_error (abandon pid) (configure_child error spec veth pid))
          (Ready spec veth staged pid)
  unfolding abandon see
  configure-Ready pid =
      Every-on_error see _ (abandon pid) _ (Sets (cloned_at staged) (Configured spec veth pid))
        (Ready spec veth staged pid)
        (configure_child-Configured (cloned_at staged) error spec veth pid) (λ v a q. q)
        (λ v x q. rw q.1 (λ _ _ _ _ _. (refl, refl, inr (q.0, refl, refl))))

  clone_staged-Started :
      (binary : Str) (args : List Str) (env : List (Str × Str))
      → Every see
          (staged_at staged)
          (clone_staged error spec binary args env veth staged)
          (Started spec veth staged)
  unfolding clone_staged see
  clone_staged-Started binary args env =
      by_result _
        (λ t.
          by_result _
            (λ t.
              by_result _
                (λ t.
                  by_result _
                    (λ t.
                      by_result _
                        (λ t.
                          by_result _
                            (λ t.
                              by_result _
                                (λ pid _ _ _ _ _.
                                  Every->>= see _ _ _ (Ready spec veth staged pid)
                                    (Started spec veth staged) (configure-Ready pid)
                                    (λ v group q. rw q.1 (λ _ _. (q.0, refl, refl, refl, q.2)))
                                    (λ v x q. q))
                                (λ x. (refl, refl, inl refl)))
                            (λ x. (refl, refl, inl refl)))
                        (λ x. (refl, refl, inl refl)))
                    (λ x. (refl, refl, inl refl)))
                (λ x. (refl, refl, inl refl)))
            (λ x. (refl, refl, inl refl)))
        (λ x. (refl, refl, inl refl))

-- A copy of the init binary that was made was tried to be removed, unless its mode could not be set.
abbrev pub CopyRemoved : Seen → Type 0
CopyRemoved v = (v.removed ≡ v.copies) ⊎ (v.unreadable ≡ true)

abbrev pub Ends : CapsuleSpec → Option VethSetup → Seen → Result Str NamespaceSpawn → Type 0
Ends spec veth v (ok spawn) =
    (s : Setup) × (v ≡ started spawn.staged_init s)
    × (spawn.diag_read ≡ reading diag)
    × Configured spec veth spawn.child_pid s (ok spawn.cgroup)
Ends spec veth v (err x) = CopyRemoved v × NoChild v

init_path-start : (o : Option Str) → Every see start (init_path o) (λ v r. v ≡ start)
unfolding see
init_path-start (some path) = refl
init_path-start none =
    by_option _ (by_result _ (λ path. by_bool _ refl refl) (λ x. refl))
      (λ path. by_bool _ refl refl)

resolve_init_binary-start :
    (spec : CapsuleSpec) → Every see start (resolve_init_binary spec) (λ v r. v ≡ start)
unfolding resolve_init_binary see
resolve_init_binary-start spec =
    Every->>= see _ _ _ (λ v r. v ≡ start) (λ v r. v ≡ start) (init_path-start spec.init_binary)
      (λ v path same. rw same (by_bool _ refl refl)) (λ v x same. same)

abbrev Staged : Seen → Result Str Str → Type 0
Staged v (ok path) = v ≡ staged_at path
Staged v (err x) = CopyRemoved v × NoChild v

stage_init_binary-Staged : (src : Str) → Every see start (stage_init_binary src) Staged
unfolding stage_init_binary see
stage_init_binary-Staged src = λ id n dir.
    by_result _ (λ _. by_result _ (λ _. refl) (λ x. (inr refl, inl refl)))
      (λ x. (inl refl, inl refl))

-- However the system answers: `do_clone` returns a child that goes on, whose maps are written, whose
-- interface is moved and whose group is made if required, with the host's ends open and no other, of which the read end of the diagnostics is in the result; or
-- it returns an error, no child is left, and a copy of the init binary is removed unless its mode could not be set.
pub do_clone-Ends :
    (error : NetnsError → Str) (spec : CapsuleSpec) (binary : Str) (args : List Str)
    (env : List (Str × Str)) (veth : Option VethSetup)
    → Every see start (do_clone error spec binary args env veth) (Ends spec veth)
unfolding do_clone drop_guard see
do_clone-Ends error spec binary args env veth =
    Every->>= see _ _ _ (λ v r. v ≡ start) (Ends spec veth) (resolve_init_binary-start spec)
      (λ v init same. rw same (
        Every->>= see _ _ _ Staged (Ends spec veth) (stage_init_binary-Staged init)
          (λ v path at. rw at (
            Every-on_error see _ (drop_guard path) _ (Started spec veth path) (Ends spec veth)
              (clone_staged-Started error spec veth path binary args env)
              (λ v spawn q. (q.0, rw q.2 q.1, q.3, q.4))
              (λ v x q. λ removed. (inl (rw (q.0, q.1) refl), q.2))))
          (λ v x q. q)))
      (λ v x same. rw same (inl refl, inl refl))
