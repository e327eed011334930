-- ===== src/Namespace/Handle/Reaped.antt =====
-- How the child of a capsule in namespaces is waited for, and what a failure leaves.
use zeptocapsule.Common.{ℕ, false, Option, none, some, List, [], ◌∷◌, ◌≡◌, refl, ◌+◌}
use zeptocapsule.Common.Result.{Result, ok, err, by_result}
use zeptocapsule.Common.Program.{Every, Every->>=, Every-on_error, ret, on_error, ◌>>=◌, ◌>>◌}
use zeptocapsule.Text.{Str}
use zeptocapsule.Capsule.Backend.{
  KernelError, spawn_failed, transport, cleanup_failed, invalid_state, not_supported,
}
use zeptocapsule.Egress.Veth.{VethSetup}
use zeptocapsule.Egress.Start.{EgressRuntime}
use zeptocapsule.Namespace.Clone.{NamespaceSpawn}
use zeptocapsule.Namespace.Clone.Seen.{Setup}
use zeptocapsule.Namespace.Clone.Ends.{NoChild, CopyRemoved}
use zeptocapsule.Namespace.Handle.{poll_child, Ended}
use zeptocapsule.Namespace.Handle.Destroy.{drop_proxy, drop_group, reap, or_killed}
use zeptocapsule.Namespace.Handle.Seen.{Seen, see}
use zeptocapsule.Namespace.Handle.Cleared.{up, gone_at, Tried, drop_group-Tried}

-- The gate is as it was: the log was not drained, the proxy runs, and the device is up.
abbrev pub GateKept : Seen → Type 0
GateKept v = (v.drained ≡ []) × (v.shut ≡ 0) × (v.torn ≡ [])

abbrev pub proxies : Option (EgressRuntime VethSetup) → ℕ
proxies none = 0
proxies (some e) = 1

-- The end of a spawn that failed, or of a child that could not be waited for.
abbrev pub Failed : Option (EgressRuntime VethSetup) → Seen → KernelError → Type 0
Failed egress v (spawn_failed e) = CopyRemoved v.clone × NoChild v.clone × GateKept v
Failed egress v (cleanup_failed e) =
    (v.clone.removed ≡ []) × (v.drained ≡ []) × (v.torn ≡ []) × (v.shut ≡ proxies egress)
Failed egress v e = ⊥

module _ (sp : NamespaceSpawn) where
  -- of a child that goes on
  unfoldable pub Reaped : ℕ → Setup → List Str → Seen → Result KernelError (Option Ended) → Type 0
  Reaped shut s groups v (ok ended) =
      (e : Ended) × (signals : List (ℕ × ℕ)) × (ended ≡ some e)
      × (v ≡ gone_at sp.staged_init s groups signals e)
  Reaped shut s groups v (err (cleanup_failed x)) =
      (v.clone.removed ≡ []) × (v.drained ≡ []) × (v.torn ≡ []) × (v.shut ≡ shut)
  Reaped shut s groups v (err x) = ⊥

  or_killed-Reaped :
      (s : Setup) (groups : List Str) (status : Option Ended)
      → Every see
          (see (poll_child sp.child_pid) (ok status) (up sp.staged_init s groups false))
          (or_killed sp.child_pid status >>= λ e. ret (some e))
          (Reaped 0 s groups)
  unfolding see Reaped
  or_killed-Reaped s groups (some e) = (e, [], refl, refl)
  or_killed-Reaped s groups none =
      by_result _ (λ sent. by_result _ (λ e. (e, _, refl, refl)) (λ x. (refl, refl, refl, refl)))
        (λ unsent. by_result _ (λ e. (e, _, refl, refl)) (λ x. (refl, refl, refl, refl)))

  reap-Reaped :
      (s : Setup) (groups : List Str)
      → Every see (up sp.staged_init s groups false) (reap (some sp.child_pid)) (Reaped 0 s groups)
  unfolding see Reaped
  reap-Reaped s groups =
      by_result _ (λ status. or_killed-Reaped s groups status) (λ e. (refl, refl, refl, refl))

  abbrev shut_by : Option (EgressRuntime VethSetup) → ℕ → ℕ
  shut_by none n = n
  shut_by (some e) n = n + 1

  abbrev Dropped :
      Option (EgressRuntime VethSetup) → Seen → Seen → Result KernelError (Unit {0}) → Type 0
  Dropped egress v u (ok t) =
      (groups : List Str) × (u ≡ record v { groups = groups; shut = shut_by egress v.shut })
  Dropped egress v u (err x) = ⊥

  drop_proxy-Dropped :
      (egress : Option (EgressRuntime VethSetup)) (v : Seen) (groups : List Str)
      → Every see (record v { groups = groups }) (drop_proxy egress) (Dropped egress v)
  unfolding see
  drop_proxy-Dropped none v groups = (groups, refl)
  drop_proxy-Dropped (some e) v groups = λ t. (groups, refl)

  drop-Dropped :
      (egress : Option (EgressRuntime VethSetup)) (v : Seen)
      → Every see v (drop_group (some sp.cgroup) >> drop_proxy egress) (Dropped egress v)
  drop-Dropped egress v =
      Every->>= see v (drop_group (some sp.cgroup)) _ (Tried v sp.cgroup) (Dropped egress v)
        (drop_group-Tried sp.cgroup v)
        (λ u t (groups, at). rw at (drop_proxy-Dropped egress v (sp.cgroup.path ∷ groups)))
        (λ u x d. absurd d)

  shut-Reaped :
      (egress : Option (EgressRuntime VethSetup)) (s : Setup) (groups : List Str) (v u : Seen)
      (x : KernelError)
      → Dropped egress v u (ok tt)
      → Reaped 0 s groups v (err x)
      → Reaped (proxies egress) s groups u (err x)
  unfolding Reaped
  shut-Reaped none s groups v u (cleanup_failed e) at q = rw at.1 q
  shut-Reaped (some g) s groups v u (cleanup_failed e) at (a, b, c, d) =
      rw at.1 (a, b, c, rw d refl)
  shut-Reaped egress s groups v u (spawn_failed e) at q = absurd q
  shut-Reaped egress s groups v u (transport e) at q = absurd q
  shut-Reaped egress s groups v u (invalid_state e) at q = absurd q
  shut-Reaped egress s groups v u (not_supported e) at q = absurd q

  pub guarded-Reaped :
      (egress : Option (EgressRuntime VethSetup)) (s : Setup) (groups : List Str)
      → Every see
          (up sp.staged_init s groups false)
          (on_error (drop_group (some sp.cgroup) >> drop_proxy egress) (reap (some sp.child_pid)))
          (Reaped (proxies egress) s groups)
  unfolding Reaped
  guarded-Reaped egress s groups =
      Every-on_error see _ (drop_group (some sp.cgroup) >> drop_proxy egress)
        (reap (some sp.child_pid)) (Reaped 0 s groups) (Reaped (proxies egress) s groups)
        (reap-Reaped s groups) (λ v a q. q)
        (λ v x q.
          Every->>= see v (drop_group (some sp.cgroup) >> drop_proxy egress) _ (Dropped egress v)
            (Reaped (proxies egress) s groups) (drop-Dropped egress v)
            (λ u t at. shut-Reaped egress s groups v u x at q) (λ u y d. absurd d))

  pub Reaped-Failed :
      (egress : Option (EgressRuntime VethSetup)) (s : Setup) (groups : List Str) (v : Seen)
      (x : KernelError)
      → Reaped (proxies egress) s groups v (err x)
      → Failed egress v x
  unfolding Reaped
  Reaped-Failed egress s groups v (cleanup_failed e) q = q
  Reaped-Failed egress s groups v (spawn_failed e) q = absurd q
  Reaped-Failed egress s groups v (transport e) q = absurd q
  Reaped-Failed egress s groups v (invalid_state e) q = absurd q
  Reaped-Failed egress s groups v (not_supported e) q = absurd q
