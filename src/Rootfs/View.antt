-- ===== src/Rootfs/View.antt =====
-- What is seen of a run of the cloned child: its sandbox, and what it executes in which.
use zeptocapsule.Common.{
  ℕ, Bool, true, false, ◌&&◌, ◌||◌, Option, none, some, List, [], ◌∷◌, ◌==◌, if◌then◌else◌,
}
use zeptocapsule.Common.Result.{ok, err}
use zeptocapsule.Text.{Str, str_eq}
use zeptocapsule.Seccomp.{SockFprog}
use zeptocapsule.Rootfs.System.{
  Flag, ms_bind, ms_rec, ms_private, ms_remount, ms_rdonly, ms_nosuid, ms_nodev, MountArgs, Call,
  Ans, read_sync_byte, set_cloexec, process_id, dup2, close, exists, create_dir_all, remove_dir,
  copy, chmod, write_file, mount, pivot_root, chdir, umount_detach, drop_capability,
  set_no_new_privs, seccomp, execve, write_diag,
}

-- `writable` are the bind mounts, source and target, that are not read-only; the latest is first.
pub record Sandbox : Type 0 where
  pub isolated : Bool
  pub writable : List (Str × Str)
  pub root : Option Str
  pub at_root : Bool
  pub detached : Bool
  pub dropped : List ℕ
  pub no_new_privs : Bool
  pub filter : Option SockFprog

pub record Execution : Type 0 where
  pub sandbox : Sandbox
  pub path : Str
  pub argv : List Str
  pub envp : List Str

pub record View : Type 0 where
  pub now : Sandbox
  pub executed : List Execution

abbrev pub outside : Sandbox
outside = record {
  isolated = false;
  writable = [];
  root = none;
  at_root = false;
  detached = false;
  dropped = [];
  no_new_privs = false;
  filter = none;
}

-- nothing is executed yet
abbrev pub in_sandbox : Sandbox → View
in_sandbox s = record { now = s; executed = [] }

abbrev flag_index : Flag → ℕ
flag_index ms_bind = 0
flag_index ms_rec = 1
flag_index ms_private = 2
flag_index ms_remount = 3
flag_index ms_rdonly = 4
flag_index ms_nosuid = 5
flag_index ms_nodev = 6

abbrev has : Flag → List Flag → Bool
has f [] = false
has f (g ∷ flags) = flag_index f == flag_index g || has f flags

-- the latest mount at the target becomes read-only
abbrev pub sealed : Str → List (Str × Str) → List (Str × Str)
sealed target [] = []
sealed target ((s, t) ∷ mounts) = if str_eq target t then mounts else (s, t) ∷ sealed target mounts

abbrev pub bound : Option Str → Str → List (Str × Str) → List (Str × Str)
bound none target mounts = mounts
bound (some source) target mounts = (source, target) ∷ mounts

-- A mount that is no bind mount has no files of the host.
abbrev pub mounted : MountArgs → Sandbox → Sandbox
mounted args s =
    if has ms_private args.flags
    then record s { isolated = true }
    else if has ms_remount args.flags && has ms_rdonly args.flags
    then record s { writable = sealed args.target s.writable }
    else if has ms_bind args.flags
    then record s { writable = bound args.source args.target s.writable }
    else s

unfoldable pub see : (e : Call) → Ans e → View → View
see (mount args) (ok t) v = record v { now = mounted args v.now }
see (mount args) (err e) v = v
see (pivot_root new_root old_root) (ok t) v = record v {
  now = record v.now { root = some new_root };
}
see (pivot_root new_root old_root) (err e) v = v
see (chdir path) (ok t) v = record v { now = record v.now { at_root = true } }
see (chdir path) (err e) v = v
see (umount_detach path) (ok t) v = record v { now = record v.now { detached = true } }
see (umount_detach path) (err e) v = v
see (drop_capability n) r v = record v { now = record v.now { dropped = n ∷ v.now.dropped } }
see set_no_new_privs (ok t) v = record v { now = record v.now { no_new_privs = true } }
see set_no_new_privs (err e) v = v
see (seccomp prog) (ok t) v = record v { now = record v.now { filter = some prog } }
see (seccomp prog) (err e) v = v
see (execve path argv envp) r v = record v {
  executed = record { sandbox = v.now; path = path; argv = argv; envp = envp } ∷ v.executed;
}
see read_sync_byte r v = v
see set_cloexec r v = v
see process_id r v = v
see (dup2 fd n) r v = v
see (close fd) r v = v
see (exists path) r v = v
see (create_dir_all path) r v = v
see (remove_dir path) r v = v
see (copy from to) r v = v
see (chmod path mode) r v = v
see (write_file path contents) r v = v
see (write_diag text) r v = v
