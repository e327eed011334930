-- ===== src/Rootfs/Pivot.antt =====
-- src/rootfs.rs: `setup_and_pivot`.
use zeptocapsule.Common.{Option, none, some, List, [], ◌∷◌, ◌++◌, if◌then◌else◌}
use zeptocapsule.Common.Result.{Result, ok, err}
use zeptocapsule.Common.Program.{ret, raise, ask, ◌>>=◌, ◌>>◌}
use zeptocapsule.Text.{Str, codes}
use zeptocapsule.Text.Path.{join, trim_start_matches_slash}
use zeptocapsule.Rootfs.{
  remove_dir, umount_detach, write_file, chdir, ms_private, mount_tmpfs, create_dir_all, exists,
  bind_mount_device, ms_rec, bind_mount_rw, ms_bind, MountError, pivot_root, mount_proc, BindMount,
  DeviceNode, rootfs_layout, or_raise, c_string, bind_mount_ro,
}
use zeptocapsule.Rootfs.System.{M, mount}

-- a directory is made; `what` names it in the error
abbrev pub make_dir : (path what : Str) → M (Unit {0})
make_dir path what = ask (create_dir_all path) >>= or_raise (codes "mkdir " ++ what ++ codes ": ")

abbrev pub mounted_or : Str → Result MountError (Unit {0}) → M (Unit {0})
mounted_or text (ok t) = ret tt
mounted_or text (err e) = raise (text ++ e.text)

-- the mount tree of the child's namespace is made private
unfoldable pub make_private : M (Unit {0})
make_private = do
  r ← ask (
      mount (record {
        source = none;
        target = codes "/";
        fstype = none;
        flags = ms_rec ∷ ms_private ∷ [];
        opts = none;
      }))
  mounted_or (codes "make / rprivate failed: ") r

-- the new root is mounted on itself
unfoldable pub mount_new_root : Str → M (Unit {0})
unfolding c_string
mount_new_root new_root = do
  make_dir new_root (codes "new_root " ++ new_root)
  root_c ← or_raise (codes "CString: ") (c_string new_root)
  r ← ask (
      mount (record {
        source = some root_c;
        target = root_c;
        fstype = none;
        flags = ms_bind ∷ ms_rec ∷ [];
        opts = none;
      }))
  mounted_or (codes "bind mount new_root failed: ") r

abbrev pub under : Str → Str → Str
under new_root path = join new_root (trim_start_matches_slash path)

-- a directory that the host does not have is passed over
unfoldable pub bind_dirs : Str → List BindMount → M (Unit {0})
unfolding bind_mount_ro
bind_dirs new_root [] = ret tt
bind_dirs new_root (m ∷ mounts) = do
  let target = under new_root m.guest
  there ← ask (exists m.host)
  if there then make_dir target target >> bind_mount_ro m.host target else ret tt
  bind_dirs new_root mounts

unfoldable pub bind_devices : Str → List DeviceNode → M (Unit {0})
unfolding bind_mount_device
bind_devices new_root [] = ret tt
bind_devices new_root (dev ∷ devices) = do
  let target = under new_root dev.guest
  made ← ask (write_file target [])
  or_raise (codes "create " ++ target ++ codes ": ") made
  bind_mount_device dev.host target
  bind_devices new_root devices

abbrev pub mount_workspace : Option Str → Str → M (Unit {0})
mount_workspace (some host) target = bind_mount_rw host target
mount_workspace none target = mount_tmpfs target (codes "128m")

-- the mounts of /proc, /tmp and the workspace
unfoldable pub mount_rest : Str → Str → Option Str → M (Unit {0})
unfolding mount_proc mount_tmpfs bind_mount_rw
mount_rest new_root workspace_guest workspace_host = do
  make_dir (join new_root (codes "proc")) (codes "/proc")
  mount_proc (join new_root (codes "proc"))
  make_dir (join new_root (codes "tmp")) (codes "/tmp")
  mount_tmpfs (join new_root (codes "tmp")) (codes "64m")
  make_dir (under new_root workspace_guest) (codes "workspace")
  mount_workspace workspace_host (under new_root workspace_guest)

-- the root is changed, and the old one taken out of sight
unfoldable pub change_root : Str → M (Unit {0})
unfolding c_string
change_root new_root = do
  let old_root = join new_root (codes "old_root")
  make_dir old_root (codes "old_root")
  new_c ← or_raise (codes "CString: ") (c_string new_root)
  old_c ← or_raise (codes "CString: ") (c_string old_root)
  pivoted ← ask (pivot_root new_c old_c)
  or_raise (codes "pivot_root failed: ") pivoted
  changed ← ask (chdir (codes "/"))
  or_raise (codes "chdir / failed: ") changed
  unmounted ← ask (umount_detach (codes "/old_root"))
  or_raise (codes "umount old_root failed: ") unmounted
  ask (remove_dir (codes "/old_root"))
  ret tt

unfoldable pub setup_and_pivot : Str → Str → Option Str → M (Unit {0})
unfolding make_private mount_new_root bind_dirs bind_devices mount_rest change_root rootfs_layout
setup_and_pivot new_root workspace_guest workspace_host = do
  make_private
  mount_new_root new_root
  bind_dirs new_root rootfs_layout.bind_mounts
  make_dir (join new_root (codes "dev")) (codes "/dev")
  bind_devices new_root rootfs_layout.devices
  mount_rest new_root workspace_guest workspace_host
  change_root new_root
