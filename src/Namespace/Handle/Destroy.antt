-- ===== src/Namespace/Handle/Destroy.antt =====
-- src/namespace.rs: the end of a capsule in namespaces.
use zeptocapsule.Common.{ℕ, Bool, true, false, Option, none, some, List, [], ◌++◌, if◌then◌else◌}
use zeptocapsule.Common.Result.{Result, ok, err}
use zeptocapsule.Common.Program.{ret, raise, ask, on_error, ◌>>=◌, ◌>>◌}
use zeptocapsule.Text.{Str, codes, decimal}
use zeptocapsule.Text.Path.{join}
use zeptocapsule.Capsule.{ResourceViolation, memory, namespace}
use zeptocapsule.Capsule.Backend.{cleanup_failed}
use zeptocapsule.Capsule.Report.{CapsuleReport}
use zeptocapsule.Egress.Types.{EgressDecision}
use zeptocapsule.Egress.Veth.{VethSetup}
use zeptocapsule.Egress.Start.{EgressRuntime}
use zeptocapsule.Guest.Control.{I32}
use zeptocapsule.Guest.Config.{not_empty}
use zeptocapsule.Namespace.System.{Fd, read_to_string, remove_file, close}
use zeptocapsule.Namespace.Cgroup.{Cgroup, counter, positive, detect_violation, peak_memory_mib}
use zeptocapsule.Namespace.Handle.{
  M, Ended, exited, signaled, other, host, stop_watchdog, send_signal, poll_child, wait_child,
  read_diag, drain_audit_log, shutdown_proxy, teardown_veth, hosted, NamespaceCapsule,
}

abbrev pub stopped : Bool → M (Unit {0})
stopped false = ret tt
stopped true = ask stop_watchdog

abbrev pub waited : {A : Type 0} → ℕ → Result Str A → M A
waited pid (ok a) = ret a
waited pid (err e) = raise (cleanup_failed (codes "waitpid " ++ decimal pid ++ codes ": " ++ e))

-- A child that is alive is killed and waited for.
abbrev pub or_killed : ℕ → Option Ended → M Ended
or_killed pid (some s) = ret s
or_killed pid none = ask (send_signal pid 9) >> ask (wait_child pid) >>= waited pid

abbrev pub reap : Option ℕ → M (Option Ended)
reap none = ret none
reap (some pid) = do
  answer ← ask (poll_child pid)
  status ← waited pid answer
  ended ← or_killed pid status
  ret (some ended)

unfoldable pub exit_of : Option Ended → Option I32 × Option I32
exit_of none = (none, none)
exit_of (some (exited code)) = (some code, none)
exit_of (some (signaled signal)) = (none, some signal)
exit_of (some other) = (none, none)

abbrev pub text_or_nothing : Result Str Str → Option Str
text_or_nothing (ok text) = not_empty text
text_or_nothing (err e) = none

abbrev pub take_diag : Option Fd → M (Option Str)
take_diag none = ret none
take_diag (some fd) = do
  answer ← ask (read_diag fd)
  ask (host (close fd))
  ret (text_or_nothing answer)

abbrev pub peak_of : Option Cgroup → M (Option ℕ)
peak_of none = ret none
peak_of (some group) = do
  contents ← ask (host (read_to_string (join group.path (codes "memory.peak"))))
  ret (peak_memory_mib contents)

-- The second file is not read where the first tells of a violation.
abbrev pub violation_of : Option ResourceViolation → Option Cgroup → M (Option ResourceViolation)
violation_of (some v) group = ret (some v)
violation_of none none = ret none
violation_of none (some group) = do
  memory_events ← ask (host (read_to_string (join group.path (codes "memory.events"))))
  if positive (counter (codes "oom_kill") memory_events)
      then ret (some memory)
      else ask (host (read_to_string (join group.path (codes "pids.events")))) >>= λ pids_events.
          ret (detect_violation memory_events pids_events)

-- the group is dropped
abbrev pub drop_group : Option Cgroup → M (Unit {0})
drop_group none = ret tt
drop_group (some group) = hosted (zeptocapsule.Namespace.Cgroup.destroy 3 group) >> ret tt

abbrev pub remove_staged : Option Str → M (Unit {0})
remove_staged none = ret tt
remove_staged (some path) = ask (host (remove_file path)) >> ret tt

unfoldable pub take_egress : Option (EgressRuntime VethSetup) → M (List EgressDecision)
take_egress none = ret []
take_egress (some e) = do
  log ← ask drain_audit_log
  ask shutdown_proxy
  ask (host (remove_file e.ca_cert_path))
  ask (teardown_veth e.device)
  ret log

-- `destroy` once the child has ended
unfoldable pub clear : NamespaceCapsule → Option Ended → M CapsuleReport
clear h ended = do
  init_error ← take_diag h.diag_read
  peak ← peak_of h.cgroup
  killed_by ← violation_of h.killed_by h.cgroup
  drop_group h.cgroup
  remove_staged h.staged_init
  log ← take_egress h.egress
  ret (record {
    exit_code = (exit_of ended).0;
    exit_signal = (exit_of ended).1;
    killed_by = killed_by;
    peak_memory_mib = peak;
    init_error = init_error;
    actual_isolation = some namespace;
    actual_security = some h.spec.security;
    egress_log = log;
  })

-- A handle of the proxy that is dropped shuts it down.
abbrev pub drop_proxy : Option (EgressRuntime VethSetup) → M (Unit {0})
drop_proxy none = ret tt
drop_proxy (some e) = ask shutdown_proxy

-- The handle is dropped where the child cannot be waited for: the group and the proxy with it.
unfoldable pub destroy : NamespaceCapsule → M CapsuleReport
destroy h = do
  stopped h.timeout_cancel
  ended ← on_error (drop_group h.cgroup >> drop_proxy h.egress) (reap h.child_pid)
  clear h ended
