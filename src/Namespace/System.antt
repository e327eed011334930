-- ===== src/Namespace/System.antt =====
-- The calls of the system that src/namespace.rs and src/cgroup.rs make on the host, and their answers.
use zeptocapsule.Common.{ℕ, Bool, Option, List}
use zeptocapsule.Common.Result.{Result}
use zeptocapsule.Common.Program.{Program}
use zeptocapsule.Text.{Str}
use zeptocapsule.Egress.Veth.{NetnsError, VethSetup}

-- the pipes of a capsule, and their two ends, by which a descriptor is named here
pub data Pipe : Type 0 where
  stdin stdout stderr sync diag : Pipe

pub data Fd : Type 0 where
  reading writing : Pipe → Fd

-- what is moved into the closure that the cloned child runs
pub record ChildArgs : Type 0 where
  pub init_binary : Str
  pub worker_binary : Str
  pub worker_args : List Str
  pub env : List (Str × Str)
  pub hardened : Bool
  pub workspace : Str
  pub workspace_host : Option Str

pub data Sys : Type 0 where
  process_id next_stage temp_dir current_exe : Sys
  env_var : Str → Sys
  exists : Str → Sys
  copy : (from to : Str) → Sys
  chmod : Str → ℕ → Sys
  create_dir_all remove_file remove_dir : Str → Sys
  read_to_string : Str → Sys
  write_file : (path contents : Str) → Sys
  make_pipe : Pipe → Sys
  close : Fd → Sys
  clone : ChildArgs → Sys
  getuid getgid next_capsule_id : Sys
  move_guest : VethSetup → ℕ → Sys
  write_sync_byte : Sys
  kill_child wait_child : ℕ → Sys
  sleep_ms : ℕ → Sys

-- an error of the system is its text
abbrev pub Io : Type 0 → Type 0
Io A = Result Str A

abbrev pub Ans : Sys → Type 0
Ans current_exe = Io Str
Ans (env_var name) = Option Str
Ans process_id = ℕ
Ans next_stage = ℕ
Ans temp_dir = Str
Ans (exists path) = Bool
Ans (copy from to) = Io (Unit {0})
Ans (chmod path mode) = Io (Unit {0})
Ans (create_dir_all path) = Io (Unit {0})
Ans (remove_file path) = Io (Unit {0})
Ans (remove_dir path) = Io (Unit {0})
Ans (read_to_string path) = Io Str
Ans (write_file path contents) = Io (Unit {0})
Ans (make_pipe p) = Io (Unit {0})
Ans (close fd) = Unit {0}
Ans (clone child) = Io ℕ
Ans getuid = ℕ
Ans getgid = ℕ
Ans next_capsule_id = ℕ
-- the results of the commands that move the interface
Ans (move_guest setup pid) = List Str → Result NetnsError (Unit {0})
Ans write_sync_byte = Unit {0}
Ans (kill_child pid) = Unit {0}
Ans (wait_child pid) = Unit {0}
Ans (sleep_ms n) = Unit {0}

abbrev pub M : Type 0 → Type 0
M A = Program Sys Ans Str A
