-- ===== src/Firecracker/Destroy.antt =====
-- src/firecracker.rs: the checks of the host, and a signal to a capsule and its end.
use zeptocapsule.Common.{ℕ, Bool, true, false, Option, none, some, List, [], ◌++◌, if◌then◌else◌}
use zeptocapsule.Common.Result.{Result, ok, err}
use zeptocapsule.Common.Program.{ret, raise, ask, attempt, ◌>>=◌, ◌>>◌}
use zeptocapsule.Text.{Str, codes}
use zeptocapsule.Text.Path.{join}
use zeptocapsule.Capsule.{FirecrackerConfig, Signal, terminate, kill, firecracker}
use zeptocapsule.Capsule.Backend.{KernelError, transport, invalid_state, not_supported}
use zeptocapsule.Capsule.Report.{CapsuleReport}
use zeptocapsule.Egress.Types.{EgressDecision}
use zeptocapsule.Guest.Control.{ControlStatus, exited, signaled, unknown, I32, control_message}
use zeptocapsule.Firecracker.System.{
  M, exists, read_to_string, dup_control, write_control, kill_vm, drain_audit_log, shutdown_proxy,
  teardown_tap, remove_file, remove_dir_all, sleep_ms,
}
use zeptocapsule.Firecracker.Images.{or_fail, image_path, export_to_host}
use zeptocapsule.Firecracker.Handle.{
  FcEgressRuntime, FirecrackerCapsule, serial_log_path, stopped, closed_control, put_down,
}

abbrev required : Str → KernelError → M (Unit {0})
required path e = ask (exists path) >>= λ there. if there then ret tt else raise e

unfoldable pub validate_prerequisites : FirecrackerConfig → M (Unit {0})
validate_prerequisites config = do
  required config.firecracker_bin
      (not_supported (codes "firecracker binary not found: " ++ config.firecracker_bin))
  required config.kernel_path
      (not_supported (codes "kernel image not found: " ++ config.kernel_path))
  required config.rootfs_path
      (not_supported (codes "rootfs image not found: " ++ config.rootfs_path))
  required (codes "/dev/kvm")
      (not_supported (codes "/dev/kvm not available — KVM required for Firecracker"))

unfoldable pub kill_fc_process : Option ℕ → M (Unit {0})
kill_fc_process none = ret tt
kill_fc_process (some pid) = do
  killed ← ask kill_vm
  or_fail transport (codes "kill firecracker") killed

-- The message goes through a copy of the descriptor. The answer of `write_control` has the text of
-- its error.
abbrev pub send_control : Bool → Str → M (Result KernelError (Unit {0}))
send_control false message =
    ret (err (invalid_state (codes "firecracker control channel is not connected")))
send_control true message = do
  duplicated ← ask dup_control
  or_fail transport (codes "dup control fd for kill") duplicated
  written ← ask (write_control message)
  ret (elim written [ ok t ↦ ok t | err e ↦ err (transport e) ])

abbrev pub escalate : Option ℕ → Signal → Result KernelError (Unit {0}) → M (Unit {0})
escalate process terminate (err e) = kill_fc_process process
escalate process terminate (ok t) = ask (sleep_ms 5000)
escalate process kill r = ask (sleep_ms 500) >> kill_fc_process process

unfoldable pub kill_capsule : FirecrackerCapsule → Signal → M (Unit {0})
kill_capsule h signal =
    send_control h.control_write_fd (control_message signal) >>= escalate h.fc_process signal

unfoldable pub exit_of : Option ControlStatus → Option I32 × Option I32
exit_of none = (none, none)
exit_of (some (exited code)) = (some code, none)
exit_of (some (signaled signal)) = (none, some signal)
exit_of (some unknown) = (none, none)

abbrev pub if_there : Str → M (Unit {0}) → M (Unit {0})
if_there path act = ask (exists path) >>= λ there. if there then act else ret tt

-- An export that fails is a warning.
unfoldable pub export_workspace : Option Str → Str → M (Unit {0})
export_workspace none state_dir = ret tt
export_workspace (some host) state_dir =
    let image = image_path state_dir in
    if_there image
      (attempt (export_to_host image host (join state_dir (codes "ws_export_mount"))) >> ret tt)

-- The read of the log; the hint that is extracted from it is only logged.
abbrev pub read_serial : Str → M (Unit {0})
read_serial state_dir =
    let log = serial_log_path state_dir in if_there log (ask (read_to_string log) >> ret tt)

abbrev pub remove_state_dir : Str → M (Unit {0})
remove_state_dir state_dir = if_there state_dir (ask (remove_dir_all state_dir) >> ret tt)

unfoldable pub take_egress : Option FcEgressRuntime → M (List EgressDecision)
take_egress none = ret []
take_egress (some e) = do
  log ← ask drain_audit_log
  ask shutdown_proxy
  ask (remove_file e.ca_cert_path)
  ask (teardown_tap e.tap)
  ret log

-- what is reported of a capsule, with the log of its egress
abbrev pub report_of : FirecrackerCapsule → List EgressDecision → CapsuleReport
report_of h log = record {
  exit_code = (exit_of h.control_status).0;
  exit_signal = (exit_of h.control_status).1;
  killed_by = h.killed_by;
  peak_memory_mib = none;
  init_error = none;
  actual_isolation = some firecracker;
  actual_security = some h.spec.security;
  egress_log = log;
}

-- `destroy` from the export on
abbrev pub clear : FirecrackerCapsule → M CapsuleReport
clear h = do
  export_workspace h.spec.workspace.host_path h.state_dir
  read_serial h.state_dir
  remove_state_dir h.state_dir
  log ← take_egress h.egress
  ret (report_of h log)

unfoldable pub destroy : FirecrackerCapsule → M CapsuleReport
destroy h = do
  stopped h.timeout_cancel
  closed_control h.control_write_fd
  put_down h.fc_process
  clear h
