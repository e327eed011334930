-- ===== src/Namespace/Clone/Configured.antt =====
-- What is set up for a cloned child before it is let go on.
use zeptocapsule.Common.{
  append-nil, append_assoc, sym, if_intro, ℕ, Bool, true, false, Option, none, some, List, [], ◌∷◌,
  ◌++◌, ◌≡◌, refl,
}
use zeptocapsule.Common.Result.{Result, ok, err, by_result}
use zeptocapsule.Common.Program.{
  attempt, Every, Valued, Every-attempt, Every_mono, Lands, Lands->>=,
}
use zeptocapsule.Text.{Str, codes, decimal}
use zeptocapsule.Text.Path.{join}
use zeptocapsule.Namespace.System.{M}
use zeptocapsule.Capsule.{CapsuleSpec, ResourceLimits}
use zeptocapsule.Egress.Veth.{NetnsError, VethSetup, move_guest_into_netns}
use zeptocapsule.Namespace.Cgroup.{
  cgroup_root, memory_text, cpu_text, pids_text, Cgroup, write_limit, apply_limits, add_pid, create,
}
use zeptocapsule.Namespace.Clone.{
  configure_child, cgroup_required, start_cgroup, enter_netns, entered, write_uid_gid_maps,
  proc_file, id_map,
}
use zeptocapsule.Namespace.Clone.Seen.{Setup, Seen, waiting, nothing, written, moved_of, see}

abbrev pub at : Seen → Setup → Seen
at w s = record w { child = waiting s }

abbrev pub map_files : ℕ → ℕ → ℕ → List (Str × Str)
map_files pid uid gid =
    (proc_file pid (codes "uid_map"), id_map uid)
    ∷ (proc_file pid (codes "setgroups"), codes "deny\n")
    ∷ (proc_file pid (codes "gid_map"), id_map gid)
    ∷ []

-- Only the child's setup changes, and the result says more of it.
abbrev pub Sets :
    {A : Type 0} → Seen → (Setup → Result Str A → Type 0) → Seen → Result Str A → Type 0
Sets w = Lands (at w)

abbrev Mapped : ℕ → Setup → Result Str (Unit {0}) → Type 0
Mapped pid s (ok t) =
    (uid : ℕ) × (gid : ℕ) × (s ≡ record { files = map_files pid uid gid; moved = false })
Mapped pid s (err x) = Unit

maps-Mapped :
    (w : Seen) (pid : ℕ) → Every see (at w nothing) (write_uid_gid_maps pid) (Sets w (Mapped pid))
unfolding write_uid_gid_maps see
maps-Mapped w pid = λ uid gid.
    by_result _
      (λ t.
        by_result _ (λ t. by_result _ (λ t. (_, refl, (uid, gid, refl))) (λ x. (_, refl, tt)))
          (λ x. (_, refl, tt)))
      (λ x. (nothing, refl, tt))

abbrev pub has_veth : Option VethSetup → Bool
has_veth none = false
has_veth (some setup) = true

abbrev Moved : Setup → Option VethSetup → Setup → Result Str (Unit {0}) → Type 0
Moved before veth s (ok t) = s ≡ record before { moved = has_veth veth }
Moved before veth s (err x) = Unit

entered-Moved :
    (error : NetnsError → Str) (w : Seen) (files : List (Str × Str)) (setup : VethSetup)
    (r : Result NetnsError (Unit {0}))
    → (let before : Setup = record { files = files; moved = false } in
        Every see (at w (moved_of r before)) (entered error r) (Sets w (Moved before (some setup))))
entered-Moved error w files setup (ok t) = (_, refl, refl)
entered-Moved error w files setup (err e) = (_, refl, tt)

netns-Moved :
    (error : NetnsError → Str) (w : Seen) (files : List (Str × Str)) (veth : Option VethSetup)
    (pid : ℕ)
    → (let before : Setup = record { files = files; moved = false } in
        Every see (at w before) (enter_netns error veth pid) (Sets w (Moved before veth)))
unfolding enter_netns see
netns-Moved error w files none pid = (_, refl, refl)
netns-Moved error w files (some setup) pid =
    λ env. entered-Moved error w files setup (move_guest_into_netns setup pid env).result

-- The files are those given, and possibly more, and the interface is where it was.
abbrev pub Grown : Setup → Setup → Type 0
Grown before s =
    (more : List (Str × Str)) × (s.files ≡ before.files ++ more) × (s.moved ≡ before.moved)

abbrev Grows : {A : Type 0} → Setup → Setup → Result Str A → Type 0
Grows before s r = Grown before s

-- a file written once more
Grown-written :
    (before s : Setup) (path contents : Str)
    → Grown before s
    → Grown before (written path contents s)
Grown-written before s path contents g = (
  g.0 ++ (path, contents) ∷ [],
  rw g.1 (append_assoc before.files g.0 ((path, contents) ∷ [])),
  g.2,
)

-- the control group of a capsule: one that was made where it is required
abbrev pub Grouped : CapsuleSpec → Setup → Setup → Result Str Cgroup → Type 0
Grouped spec before s (ok group) =
    Grown before s
    × (cgroup_required spec ≡ true
        → (n : ℕ) × (group ≡ record { path = join cgroup_root (codes "capsule-" ++ decimal n) }))
Grouped spec before s (err x) = Unit

abbrev pub ready : Option VethSetup → (pid uid gid : ℕ) → Setup
ready veth pid uid gid = record { files = map_files pid uid gid; moved = has_veth veth }

-- the files of the child's namespace are written, its interface is moved, and its group is made if it is required
abbrev pub Configured : CapsuleSpec → Option VethSetup → ℕ → Setup → Result Str Cgroup → Type 0
Configured spec veth pid s (ok group) =
    (uid : ℕ) × (gid : ℕ) × Grouped spec (ready veth pid uid gid) s (ok group)
Configured spec veth pid s (err x) = Unit

module _ (w : Seen) where
  write_limit-Grows :
      (before s : Setup) (group : Cgroup) (file : Str) (text : Option Str)
      → Grown before s
      → Every see (at w s) (write_limit group file text) (Sets w (Grows before))
  unfolding write_limit see
  write_limit-Grows before s group file none g = (s, refl, g)
  write_limit-Grows before s group file (some text) g =
      by_result _ (λ t. (_, refl, Grown-written before s _ text g)) (λ x. (s, refl, g))

  add_pid-Grows :
      (before : Setup) (group : Cgroup) (pid : ℕ)
      → Every see (at w before) (add_pid group pid) (Sets w (Grows before))
  unfolding add_pid see
  add_pid-Grows before group pid =
      by_result _ (λ t. (_, refl, (_, refl, refl)))
        (λ x. (before, refl, ([], sym (append-nil before.files), refl)))

  apply_limits-Grows :
      (before s : Setup) (group : Cgroup) (limits : ResourceLimits)
      → Grown before s
      → Every see (at w s) (apply_limits group limits) (Sets w (Grows before))
  unfolding apply_limits
  apply_limits-Grows before s group limits g =
      Lands->>= see (at w) s _ _ (Grows before) (Grows before)
        (write_limit-Grows before s group _ (memory_text limits.memory_mib) g)
        (λ t a g.
          Lands->>= see (at w) t _ _ (Grows before) (Grows before)
            (write_limit-Grows before t group _ (cpu_text limits.cpu_quota) g)
            (λ t a g. write_limit-Grows before t group _ (pids_text limits.max_pids) g)
            (λ t x g. g))
        (λ t x g. g)

  -- a program whose result is taken as a value
  Sets-attempt :
      {A : Type 0} (s : Setup) (m : M A) (before : Setup)
      → Every see (at w s) m (Sets w (Grows before))
      → Every see (at w s) (attempt m) (Sets w (Grows before))
  Sets-attempt s m before h =
      Every_mono see (at w s) (attempt m) (Valued see (Sets w (Grows before)))
        (Sets w (Grows before)) (Every-attempt see (at w s) m (Sets w (Grows before)) h)
        (λ v r.
          by_result (λ r. Valued see (Sets w (Grows before)) v r → Sets w (Grows before) v r)
            (λ r q. q) (λ x q. absurd q) r)

  start_cgroup-Grouped :
      (spec : CapsuleSpec) (before : Setup) (pid : ℕ)
      → Every see (at w before) (start_cgroup spec pid) (Sets w (Grouped spec before))
  unfolding start_cgroup create see
  start_cgroup-Grouped spec before pid = λ n.
      by_result _
        (λ t.
          Lands->>= see (at w) before _ _ (Grows before) (Grouped spec before)
            (Sets-attempt before _ before (add_pid-Grows before _ pid))
            (λ s a g.
              Lands->>= see (at w) s _ _ (Grows before) (Grouped spec before)
                (Sets-attempt s _ before (apply_limits-Grows before s _ spec.limits g))
                (λ s a g. (s, refl, (g, λ _. (n, refl)))) (λ s x g. tt))
            (λ s x g. tt))
        (λ x.
          if_intro (λ m. Every see (at w before) m (Sets w (Grouped spec before)))
            (cgroup_required spec) (λ _. (before, refl, tt))
            (λ no. (before, refl, (([], sym (append-nil before.files), refl), λ yes'. cc))))

  pub configure_child-Configured :
      (error : NetnsError → Str) (spec : CapsuleSpec) (veth : Option VethSetup) (pid : ℕ)
      → Every see
          (at w nothing)
          (configure_child error spec veth pid)
          (Sets w (Configured spec veth pid))
  unfolding configure_child
  configure_child-Configured error spec veth pid =
      Lands->>= see (at w) nothing _ _ (Mapped pid) (Configured spec veth pid) (maps-Mapped w pid)
        (λ t a m. rw m.2 (
          Lands->>= see (at w) _ _ _
            (Moved (record { files = map_files pid m.0 m.1; moved = false }) veth)
            (Configured spec veth pid) (netns-Moved error w _ veth pid)
            (λ u a n. rw n (
              Every_mono see _ _ (Sets w (Grouped spec (ready veth pid m.0 m.1)))
                (Sets w (Configured spec veth pid))
                (start_cgroup-Grouped spec (ready veth pid m.0 m.1) pid)
                (λ v r.
                  by_result
                    (λ r.
                      Sets w (Grouped spec (ready veth pid m.0 m.1)) v r
                      → Sets w (Configured spec veth pid) v r)
                    (λ g q. (q.0, q.1, (m.0, m.1, q.2))) (λ x q. (q.0, q.1, tt)) r)))
            (λ u x n. tt)))
        (λ t x m. tt)
