-- ===== src/Guest/System.antt =====
-- The calls of the system that src/init_shim.rs makes in the guest, and their answers.
use zeptocapsule.Common.{ℕ, Bool, List}
use zeptocapsule.Common.Result.{Result}
use zeptocapsule.Common.Program.{Program}
use zeptocapsule.Text.{Str}
use zeptocapsule.Text.Utf8.{Bytes}
use zeptocapsule.Rootfs.System.{MountArgs}
use zeptocapsule.Guest.Control.{Ended}

abbrev pub Io : Type 0 → Type 0
Io A = Result Str A

-- what a command that was started has come to
pub record Output : Type 0 where
  pub success : Bool
  pub stderr : Str

-- `spawn_worker` has the words of the command, its environment and the descriptors of its streams, and
-- answers the process's id; `write_control` writes to the control channel and flushes it. A file is
-- read as its bytes, or as text if they are UTF-8.
pub data Sys : Type 0 where
  exists : Str → Sys
  read read_to_string : Str → Sys
  is_set : Str → Sys
  create_dir_all : Str → Sys
  mount : MountArgs → Sys
  command : List Str → Sys
  socket : ℕ → Sys
  bind : (fd port : ℕ) → Sys
  listen accept close : ℕ → Sys
  spawn_worker : List Str → List (Str × Str) → List ℕ → Sys
  write_control flush_control : Str → Sys
  clone_control start_forwarding join_forwarding : Sys
  wait sync : Sys
  send_signal : (pid number : ℕ) → Sys
  run_worker : List Str → Sys

abbrev pub Ans : Sys → Type 0
Ans (exists path) = Bool
Ans (read path) = Io Bytes
Ans (read_to_string path) = Io Str
Ans (is_set name) = Bool
Ans (create_dir_all path) = Io (Unit {0})
Ans (mount args) = Io (Unit {0})
Ans (command args) = Io Output
Ans (socket port) = Io ℕ
Ans (bind fd port) = Io (Unit {0})
Ans (listen fd) = Io (Unit {0})
Ans (accept fd) = Io ℕ
Ans (close fd) = Unit {0}
Ans (spawn_worker args env fds) = Io ℕ
Ans (write_control text) = Io (Unit {0})
Ans (flush_control what) = Io (Unit {0})
Ans clone_control = Io (Unit {0})
Ans start_forwarding = Unit {0}
Ans join_forwarding = Unit {0}
Ans wait = Io Ended
Ans sync = Unit {0}
Ans (send_signal pid number) = Io (Unit {0})
Ans (run_worker args) = Io Ended

-- an error of the init is a text
abbrev pub M : Type 0 → Type 0
M A = Program Sys Ans Str A
