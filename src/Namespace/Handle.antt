-- ===== src/Namespace/Handle.antt =====
-- src/namespace.rs: the handle of a capsule in namespaces, and what it does.
pub mod Destroy
pub mod Seen
pub mod Cleared
pub mod Reaped
pub mod Lived
use zeptocapsule.Common.{
  ℕ, Bool, true, false, Option, none, some, List, [], ◌∷◌, ◌++◌, if◌then◌else◌, ltb,
}
use zeptocapsule.Common.Result.{Result, ok, err}
use zeptocapsule.Common.Program.{Program, ret, raise, call, ask, on_error, ◌>>=◌, ◌>>◌}
use zeptocapsule.Text.{Str, codes, decimal}
use zeptocapsule.Text.Path.{join}
use zeptocapsule.Capsule.{
  CapsuleSpec, ResourceViolation, memory, Signal, terminate, kill, namespace,
}
use zeptocapsule.Capsule.Backend.{KernelError, spawn_failed, cleanup_failed, invalid_state}
use zeptocapsule.Capsule.Report.{CapsuleReport}
use zeptocapsule.Egress.Types.{EgressPolicy, EgressDecision}
use zeptocapsule.Egress.Veth.{NetnsError, VethSetup}
use zeptocapsule.Egress.Start.{EgressRuntime, gated}
use zeptocapsule.Firecracker.Handle.{or_insert_all}
use zeptocapsule.Guest.Control.{I32}
use zeptocapsule.Guest.Config.{not_empty}
use zeptocapsule.Namespace.System.{Fd, read_to_string, remove_file, close}
use zeptocapsule.Namespace.Cgroup.{Cgroup, counter, positive, detect_violation, peak_memory_mib}
use zeptocapsule.Namespace.Clone.{NamespaceSpawn, do_clone}

-- how a child ended, if it did not just stop
pub data Ended : Type 0 where
  exited signaled : I32 → Ended
  other : Ended

-- `host` are the calls of `do_clone` and of the group. `poll_child` and `wait_child` are `waitpid`,
-- which answers none for a child that is alive, and which waits. `read_diag` answers the text that
-- was read, which is empty where nothing was.
pub data Sys : Type 0 where
  host : zeptocapsule.Namespace.System.Sys → Sys
  start_watchdog : (pid secs : ℕ) → Sys
  stop_watchdog : Sys
  send_signal : (pid number : ℕ) → Sys
  poll_child wait_child : ℕ → Sys
  read_diag : Fd → Sys
  drain_audit_log shutdown_proxy : Sys
  teardown_veth : VethSetup → Sys

abbrev pub Ans : Sys → Type 0
Ans (host e) = zeptocapsule.Namespace.System.Ans e
Ans (start_watchdog pid secs) = Unit {0}
Ans stop_watchdog = Unit {0}
Ans (send_signal pid number) = Result Str (Unit {0})
Ans (poll_child pid) = Result Str (Option Ended)
Ans (wait_child pid) = Result Str Ended
Ans (read_diag fd) = Result Str Str
Ans drain_audit_log = List EgressDecision
Ans shutdown_proxy = Unit {0}
Ans (teardown_veth setup) = Unit {0}

abbrev pub M : Type 0 → Type 0
M A = Program Sys Ans KernelError A

-- a program over the calls of the host, for its result
unfoldable pub hosted : {A : Type 0} → zeptocapsule.Namespace.System.M A → M (Result Str A)
hosted (ret a) = ret (ok a)
hosted (raise x) = ret (err x)
hosted (call e go) = call (host e) (λ r. hosted (go r))

-- The lock of the state is never poisoned here; the stack of the child and the start time are not
-- modelled.
pub record NamespaceCapsule : Type 0 where
  pub spec : CapsuleSpec
  pub child_pid : Option ℕ
  pub cgroup : Option Cgroup
  pub killed_by : Option ResourceViolation
  pub staged_init : Option Str
  pub diag_read : Option Fd
  pub timeout_cancel : Bool
  pub egress : Option (EgressRuntime VethSetup)

abbrev pub free : CapsuleSpec → Option (EgressRuntime VethSetup) → NamespaceCapsule
free spec egress = record {
  spec = spec;
  child_pid = none;
  cgroup = none;
  killed_by = none;
  staged_init = none;
  diag_read = none;
  timeout_cancel = false;
  egress = egress;
}

-- `start` is `start_ns_egress`
unfoldable pub new :
    {E : Type 0} {A : E → Type 0}
    → (EgressPolicy → Program E A KernelError (EgressRuntime VethSetup))
    → CapsuleSpec
    → Program E A KernelError NamespaceCapsule
new start spec = gated start spec.egress >>= λ egress. ret (free spec egress)

abbrev pub egress_env : Option (EgressRuntime VethSetup) → List (Str × Str)
egress_env none = []
egress_env (some e) = e.env

abbrev pub veth_of : Option (EgressRuntime VethSetup) → Option VethSetup
veth_of none = none
veth_of (some e) = some e.device

abbrev pub install_timeout_watchdog : (pid secs : ℕ) → M (Unit {0})
install_timeout_watchdog pid secs = if ltb 0 secs then ask (start_watchdog pid secs) else ret tt

abbrev pub cloned_or : Result Str NamespaceSpawn → M NamespaceSpawn
cloned_or (ok spawn) = ret spawn
cloned_or (err e) = raise (spawn_failed e)

abbrev pub running : NamespaceCapsule → NamespaceSpawn → NamespaceCapsule
running h s = record h {
  child_pid = some s.child_pid;
  cgroup = some s.cgroup;
  staged_init = some s.staged_init;
  diag_read = some s.diag_read;
  timeout_cancel = if ltb 0 h.spec.limits.timeout_sec then true else h.timeout_cancel;
}

-- the id of the child, and the handle
abbrev pub watched : NamespaceCapsule → NamespaceSpawn → M (NamespaceCapsule × ℕ)
watched h s = do
  install_timeout_watchdog s.child_pid h.spec.limits.timeout_sec
  ret (running h s, s.child_pid)

-- `error` prints a NetnsError
unfoldable pub spawn :
    (NetnsError → Str)
    → NamespaceCapsule
    → Str
    → List Str
    → List (Str × Str)
    → M (NamespaceCapsule × ℕ)
spawn error h binary args env = elim h.child_pid [
  | some pid ↦ raise (invalid_state (codes "capsule already has a running child"))
  | none ↦
      hosted (
        do_clone error h.spec binary args (or_insert_all env (egress_env h.egress))
          (veth_of h.egress))
      >>= cloned_or
      >>= watched h
]

unfoldable pub signal_number : Signal → ℕ
signal_number terminate = 15
signal_number kill = 9

abbrev pub sent_or : ℕ → Result Str (Unit {0}) → M (Unit {0})
sent_or pid (ok t) = ret tt
sent_or pid (err e) =
    raise (cleanup_failed (codes "kill " ++ decimal pid ++ codes " failed: " ++ e))

unfoldable pub kill_child : NamespaceCapsule → Signal → M (Unit {0})
kill_child h signal = elim h.child_pid [
  | none ↦ raise (invalid_state (codes "capsule has no child to kill"))
  | some pid ↦ ask (send_signal pid (signal_number signal)) >>= sent_or pid
]
