-- ===== src/Rootfs.antt =====
-- src/rootfs.rs: the root file system of a Hardened worker, made in the cloned child.
pub mod System
pub mod Pivot
pub mod View
pub mod Mounts
pub mod Devices
pub mod Pivoted
use zeptocapsule.Common.{
  ℕ, Bool, true, false, Option, none, some, List, [], ◌∷◌, ◌++◌, if◌then◌else◌,
}
use zeptocapsule.Common.Result.{Result, ok, err}
use zeptocapsule.Common.Program.{ret, raise, ask, lift, ◌>>=◌, ◌>>◌}
use zeptocapsule.Text.{Str, codes, decimal, find}
use zeptocapsule.Text.Path.{join, trim_start_matches_slash}
use zeptocapsule.Text.Utf8.{into_bytes}
use zeptocapsule.Rootfs.System.{
  Io, M, Flag, ms_bind, ms_rec, ms_private, ms_remount, ms_rdonly, ms_nosuid, ms_nodev, MountArgs,
  MountError, mount, pivot_root, chdir, umount_detach, create_dir_all, write_file, remove_dir,
  exists,
}

pub record BindMount : Type 0 where
  pub host : Str
  pub guest : Str
  pub readonly : Bool

pub record DeviceNode : Type 0 where
  pub host : Str
  pub guest : Str

pub record RootfsLayout : Type 0 where
  pub bind_mounts : List BindMount
  pub devices : List DeviceNode

abbrev same_dir : Str → BindMount
same_dir path = record { host = path; guest = path; readonly = true }

abbrev same_device : Str → DeviceNode
same_device path = record { host = path; guest = path }

unfoldable pub rootfs_layout : RootfsLayout
rootfs_layout = record {
  bind_mounts =
      same_dir (codes "/bin")
      ∷ same_dir (codes "/lib")
      ∷ same_dir (codes "/lib64")
      ∷ same_dir (codes "/usr")
      ∷ [];
  devices =
      same_device (codes "/dev/null")
      ∷ same_device (codes "/dev/zero")
      ∷ same_device (codes "/dev/urandom")
      ∷ [];
}

-- `CString::new(text)`, whose error is the first zero byte's position
unfoldable pub c_string : Str → Result Str Str
unfolding find into_bytes
c_string text = elim (find 0 (into_bytes text)) [
  | none ↦ ok text
  | some i ↦ err (codes "nul byte found in provided data at position: " ++ decimal i)
]

-- `r.map_err(|e| format!("{before}{e}"))?`
abbrev pub or_raise : {A : Type 0} → Str → Result Str A → M A
or_raise before (ok a) = ret a
or_raise before (err e) = raise (before ++ e)

-- `CString::new` of a path, and of its error the text with the path
unfoldable pub path_c_string : Str → M Str
unfolding c_string
path_c_string path = or_raise (codes "CString " ++ path ++ codes ": ") (c_string path)

abbrev mount_failed : (MountError → Str) → Result MountError (Unit {0}) → M (Unit {0})
mount_failed text (ok t) = ret tt
mount_failed text (err e) = raise (text e)

abbrev bind_args : Str → Str → MountArgs
bind_args source target = record {
  source = some source;
  target = target;
  fstype = none;
  flags = ms_bind ∷ ms_rec ∷ [];
  opts = none;
}

abbrev remount_ro_args : Str → MountArgs
remount_ro_args target = record {
  source = none;
  target = target;
  fstype = none;
  flags = ms_bind ∷ ms_remount ∷ ms_rdonly ∷ ms_rec ∷ [];
  opts = none;
}

abbrev bind_error : Str → Str → MountError → Str
bind_error source target e =
    codes "bind mount " ++ source ++ codes " -> " ++ target ++ codes " failed: " ++ e.text

abbrev remount_error : Str → MountError → Str
remount_error target e = codes "remount ro " ++ target ++ codes " failed: " ++ e.text

unfoldable pub bind_mount_rw : Str → Str → M (Unit {0})
unfolding path_c_string
bind_mount_rw source target = do
  source_c ← path_c_string source
  target_c ← path_c_string target
  bound ← ask (mount (bind_args source_c target_c))
  mount_failed (bind_error source target) bound

unfoldable pub bind_mount_ro : Str → Str → M (Unit {0})
unfolding path_c_string
bind_mount_ro source target = do
  source_c ← path_c_string source
  target_c ← path_c_string target
  bound ← ask (mount (bind_args source_c target_c))
  mount_failed (bind_error source target) bound
  remounted ← ask (mount (remount_ro_args target_c))
  mount_failed (remount_error target) remounted

-- an error other than EPERM is returned
abbrev unless_eperm : (MountError → Str) → Result MountError (Unit {0}) → M (Unit {0})
unless_eperm text (ok t) = ret tt
unless_eperm text (err e) = if e.eperm then ret tt else raise (text e)

unfoldable pub bind_mount_device : Str → Str → M (Unit {0})
unfolding path_c_string
bind_mount_device source target = do
  source_c ← path_c_string source
  target_c ← path_c_string target
  bound ← ask (mount (bind_args source_c target_c))
  mount_failed (bind_error source target) bound
  remounted ← ask (mount (remount_ro_args target_c))
  unless_eperm (remount_error target) remounted

unfoldable pub mount_proc : Str → M (Unit {0})
unfolding path_c_string
mount_proc target = do
  target_c ← path_c_string target
  mounted ← ask (
      mount (record {
        source = some (codes "proc");
        target = target_c;
        fstype = some (codes "proc");
        flags = [];
        opts = none;
      }))
  mount_failed (λ e. codes "mount proc failed: " ++ e.text) mounted

unfoldable pub mount_tmpfs : Str → Str → M (Unit {0})
unfolding path_c_string c_string
mount_tmpfs target size = do
  target_c ← path_c_string target
  opts ← or_raise (codes "CString: ") (c_string (codes "size=" ++ size))
  mounted ← ask (
      mount (record {
        source = some (codes "tmpfs");
        target = target_c;
        fstype = some (codes "tmpfs");
        flags = ms_nosuid ∷ ms_nodev ∷ [];
        opts = some opts;
      }))
  mount_failed (λ e. codes "mount tmpfs " ++ target ++ codes " failed: " ++ e.text) mounted
