-- ===== src/Rootfs/System.antt =====
-- The calls of the system that the cloned child makes before it runs the init binary.
use zeptocapsule.Common.{ℕ, Bool, Option, List}
use zeptocapsule.Common.Result.{Result}
use zeptocapsule.Common.Program.{Program}
use zeptocapsule.Text.{Str}
use zeptocapsule.Seccomp.{SockFprog}
use zeptocapsule.Namespace.System.{Fd}

pub data Flag : Type 0 where
  ms_bind ms_rec ms_private ms_remount ms_rdonly ms_nosuid ms_nodev : Flag

pub record MountArgs : Type 0 where
  pub source : Option Str
  pub target : Str
  pub fstype : Option Str
  pub flags : List Flag
  pub opts : Option Str

-- the system's text of an error, and whether the error is EPERM
pub record MountError : Type 0 where
  pub text : Str
  pub eperm : Bool

pub data Call : Type 0 where
  read_sync_byte set_cloexec process_id : Call
  dup2 : Fd → ℕ → Call
  close : Fd → Call
  exists : Str → Call
  create_dir_all remove_dir : Str → Call
  copy : (from to : Str) → Call
  chmod : Str → ℕ → Call
  write_file : (path contents : Str) → Call
  mount : MountArgs → Call
  pivot_root : (new_root old_root : Str) → Call
  chdir umount_detach : Str → Call
  drop_capability : ℕ → Call
  set_no_new_privs : Call
  seccomp : SockFprog → Call
  execve : Str → List Str → List Str → Call
  write_diag : Str → Call

abbrev pub Io : Type 0 → Type 0
Io A = Result Str A

-- `execve` answers only where it fails.
abbrev pub Ans : Call → Type 0
Ans read_sync_byte = Unit {0}
Ans set_cloexec = Unit {0}
Ans process_id = ℕ
Ans (dup2 fd n) = Unit {0}
Ans (close fd) = Unit {0}
Ans (exists path) = Bool
Ans (create_dir_all path) = Io (Unit {0})
Ans (remove_dir path) = Io (Unit {0})
Ans (copy from to) = Io (Unit {0})
Ans (chmod path mode) = Io (Unit {0})
Ans (write_file path contents) = Io (Unit {0})
Ans (mount args) = Result MountError (Unit {0})
Ans (pivot_root new_root old_root) = Io (Unit {0})
Ans (chdir path) = Io (Unit {0})
Ans (umount_detach path) = Io (Unit {0})
Ans (drop_capability n) = Unit {0}
Ans set_no_new_privs = Io (Unit {0})
Ans (seccomp prog) = Io (Unit {0})
Ans (execve path argv envp) = Str
Ans (write_diag text) = Unit {0}

abbrev pub M : Type 0 → Type 0
M A = Program Call Ans Str A
