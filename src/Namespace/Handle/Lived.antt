-- ===== src/Namespace/Handle/Lived.antt =====
-- The life of a capsule in namespaces, from `spawn` to `destroy`.
use zeptocapsule.Common.{ℕ, Bool, false, Option, List, ◌≡◌}
use zeptocapsule.Common.Result.{Result, ok, err}
use zeptocapsule.Text.{Str}
use zeptocapsule.Capsule.{CapsuleSpec}
use zeptocapsule.Capsule.Backend.{KernelError}
use zeptocapsule.Capsule.Report.{CapsuleReport}
use zeptocapsule.Egress.Veth.{VethSetup}
use zeptocapsule.Egress.Start.{EgressRuntime}
use zeptocapsule.Namespace.System.{diag, reading}
use zeptocapsule.Namespace.Clone.{NamespaceSpawn}
use zeptocapsule.Namespace.Clone.Configured.{Configured}
use zeptocapsule.Namespace.Clone.Seen.{Setup, start, gone, going}
use zeptocapsule.Namespace.Clone.Ends.{Ends}
use zeptocapsule.Namespace.Handle.{NamespaceCapsule, free, running, veth_of}
use zeptocapsule.Namespace.Handle.Seen.{Seen}
use zeptocapsule.Namespace.Handle.Cleared.{up, Cleared}
use zeptocapsule.Namespace.Handle.Reaped.{Failed, Reaped}

module _ (spec : CapsuleSpec) (egress : Option (EgressRuntime VethSetup)) where
  abbrev held : NamespaceSpawn → Bool → NamespaceCapsule
  held sp b = record (running (free spec egress) sp) { timeout_cancel = b }

  -- what is left of a life that ended in a report
  abbrev pub Over : Seen → Result KernelError CapsuleReport → Type 0
  Over v (ok report) =
      (sp : NamespaceSpawn) × (s : Setup) × Configured spec (veth_of egress) sp.child_pid s
        (ok sp.cgroup)
      × Cleared spec egress sp s v report
  Over v (err x) = Failed egress v x

  abbrev Cloned : Seen → Result KernelError NamespaceSpawn → Type 0
  Cloned v (ok sp) =
      (s : Setup) × (groups : List Str) × (v ≡ up sp.staged_init s groups false)
      × (sp.diag_read ≡ reading diag)
      × Configured spec (veth_of egress) sp.child_pid s (ok sp.cgroup)
  Cloned v (err x) = Failed egress v x

  abbrev Spawned : Seen → Result KernelError (NamespaceCapsule × ℕ) → Type 0
  Spawned v (ok r) =
      (sp : NamespaceSpawn) × (s : Setup) × (groups : List Str) × (b : Bool) × (v
        ≡ up sp.staged_init s groups b)
      × (r ≡ (held sp b, sp.child_pid))
      × (sp.diag_read ≡ reading diag)
      × Configured spec (veth_of egress) sp.child_pid s (ok sp.cgroup)
  Spawned v (err x) = Failed egress v x
