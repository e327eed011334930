-- ===== src/Firecracker/System.antt =====
-- The calls of the system that the Firecracker backend makes on the host, and their answers.
use zeptocapsule.Common.{ℕ, Bool, Option, List}
use zeptocapsule.Common.Result.{Result}
use zeptocapsule.Common.Program.{Program}
use zeptocapsule.Text.{Str}
use zeptocapsule.Text.Utf8.{Bytes}
use zeptocapsule.Egress.Types.{EgressDecision}
use zeptocapsule.Egress.Tap.{TapSetup}
use zeptocapsule.Capsule.Backend.{KernelError}

abbrev pub Io : Type 0 → Type 0
Io A = Result Str A

-- what a command that was started has come to
pub record Output : Type 0 where
  pub success : Bool
  pub stderr : Str

-- A request on a socket: whether it is connected and written; the bytes that come back, and the text of
-- the error by which a read behind them fails.
pub record Exchange : Type 0 where
  pub connected : Io (Unit {0})
  pub written : Io (Unit {0})
  pub sent : Bytes
  pub closed : Str

-- a request for a port of the guest, and the line that answers it, as text
pub record VsockReply : Type 0 where
  pub connected : Io (Unit {0})
  pub written : Io (Unit {0})
  pub line : Io Str

pub data Sys : Type 0 where
  exists is_file is_there : Str → Sys
  env_var : Str → Sys
  current_exe search_path : Sys
  copy : (from to : Str) → Sys
  chmod : Str → ℕ → Sys
  write_file : Str → Bytes → Sys
  create_dir_all remove_file remove_dir_all read_to_string create_file : Str → Sys
  set_len : Str → ℕ → Sys
  command : List Str → Sys
  start_firecracker : List Str → Sys
  api_exchange : (socket request : Str) → Sys
  vsock_exchange : (socket request : Str) → Sys
  deadline_passed : Sys
  sleep_ms : ℕ → Sys
  set_read_timeout : Option ℕ → Sys
  read_control_line : Sys
  set_nonblocking from_std : ℕ → Sys
  dup_control : Sys
  close_control_read close_control_write : Sys
  start_reader stop_timer : Sys
  start_timer : ℕ → Sys
  write_control : Str → Sys
  kill_vm wait_vm : Sys
  drain_audit_log shutdown_proxy : Sys
  teardown_tap : TapSetup → Sys

abbrev pub Ans : Sys → Type 0
Ans (exists path) = Bool
Ans (is_file path) = Bool
Ans (is_there path) = Bool
Ans (env_var name) = Option Str
Ans current_exe = Io Str
-- the directories of PATH, if it is set
Ans search_path = Option (List Str)
Ans (copy from to) = Io (Unit {0})
Ans (chmod path mode) = Io (Unit {0})
Ans (write_file path bytes) = Io (Unit {0})
Ans (create_dir_all path) = Io (Unit {0})
Ans (remove_file path) = Io (Unit {0})
Ans (remove_dir_all path) = Io (Unit {0})
Ans (read_to_string path) = Io Str
Ans (create_file path) = Io (Unit {0})
Ans (set_len path n) = Io (Unit {0})
Ans (command args) = Io Output
Ans (start_firecracker args) = Io ℕ
Ans (api_exchange socket request) = Exchange
Ans (vsock_exchange socket request) = VsockReply
Ans deadline_passed = Bool
Ans (sleep_ms n) = Unit {0}
Ans (set_read_timeout secs) = Io (Unit {0})
-- the bytes up to a line's end or the stream's
Ans read_control_line = Io Bytes
Ans (set_nonblocking port) = Io (Unit {0})
Ans (from_std port) = Io (Unit {0})
Ans dup_control = Io (Unit {0})
Ans close_control_read = Unit {0}
Ans close_control_write = Unit {0}
Ans start_reader = Unit {0}
Ans stop_timer = Unit {0}
Ans (start_timer secs) = Unit {0}
Ans (write_control text) = Io (Unit {0})
Ans kill_vm = Io (Unit {0})
Ans wait_vm = Io (Unit {0})
Ans drain_audit_log = List EgressDecision
Ans shutdown_proxy = Unit {0}
Ans (teardown_tap setup) = Unit {0}

abbrev pub M : Type 0 → Type 0
M A = Program Sys Ans KernelError A
