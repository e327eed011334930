-- ===== src/Firecracker/Images.antt =====
-- src/workspace_image.rs: the workspace's image, and the mounts of images on the host.
use zeptocapsule.Common.{
  ℕ, ◌*◌, ◌%◌, ◌^◌, Bool, true, false, Option, none, some, List, [], ◌∷◌, ◌++◌,
}
use zeptocapsule.Common.Result.{Result, ok, err}
use zeptocapsule.Common.Program.{ret, raise, ask, ◌>>=◌, ◌>>◌}
use zeptocapsule.Text.{Str, codes}
use zeptocapsule.Text.Path.{join}
use zeptocapsule.Capsule.Backend.{KernelError, spawn_failed, cleanup_failed}
use zeptocapsule.Firecracker.System.{M, create_file, set_len, command, create_dir_all}

-- the error of a call, by its kind and the words before the system's text
abbrev pub or_fail : {A : Type 0} → (Str → KernelError) → Str → Result Str A → M A
or_fail kind what (ok a) = ret a
or_fail kind what (err e) = raise (kind (what ++ codes ": " ++ e))

abbrev pub succeeded_or : (Str → KernelError) → Str → Str → Bool → M (Unit {0})
succeeded_or kind what stderr true = ret tt
succeeded_or kind what stderr false = raise (kind (what ++ codes " failed: " ++ stderr))

-- a command that must be started, and succeed
abbrev pub run_command : (Str → KernelError) → (started failed : Str) → List Str → M (Unit {0})
run_command kind started failed args = ask (command args) >>= or_fail kind started >>= λ out.
    succeeded_or kind failed out.stderr out.success

-- a command that must be started; that it fails is only logged
abbrev pub start_command : (Str → KernelError) → Str → List Str → M (Unit {0})
start_command kind started args = ask (command args) >>= or_fail kind started >> ret tt

unfoldable pub default_size_mib : Option ℕ → ℕ
default_size_mib none = 128
default_size_mib (some n) = n

unfoldable pub image_path : Str → Str
image_path state_dir = join state_dir (codes "workspace.ext4")

-- `size_mib * 1024 * 1024` of a u64 wraps in a release build
unfoldable pub create_image : Str → ℕ → M (Unit {0})
create_image path size_mib = do
  made ← ask (create_file path)
  or_fail spawn_failed (codes "create workspace image") made
  sized ← ask (set_len path (size_mib * 1024 * 1024 % 2 ^ 64))
  or_fail spawn_failed (codes "set workspace image size") sized
  run_command spawn_failed (codes "mkfs.ext4") (codes "mkfs.ext4")
      (codes "mkfs.ext4" ∷ codes "-q" ∷ codes "-F" ∷ path ∷ [])

abbrev pub mount_args : Str → Str → List Str
mount_args image mount_point = codes "mount" ∷ codes "-o" ∷ codes "loop" ∷ image ∷ mount_point ∷ []

abbrev pub umount_args : Str → List Str
umount_args mount_point = codes "umount" ∷ mount_point ∷ []

unfoldable pub mount_image : Str → Str → M (Unit {0})
mount_image image mount_point =
    run_command spawn_failed (codes "mount workspace image") (codes "mount workspace image")
      (mount_args image mount_point)

unfoldable pub umount_image : Str → M (Unit {0})
umount_image mount_point = start_command cleanup_failed (codes "umount") (umount_args mount_point)

abbrev pub copy_script : Str → Str → Str
copy_script from to =
    codes "cp -a '" ++ (from ++ (codes "'/. '" ++ (to ++ codes "'/ 2>/dev/null; true")))

abbrev pub shell : Str → List Str
shell script = codes "sh" ∷ codes "-c" ∷ script ∷ []

unfoldable pub seed_from_host : Str → Str → Str → M (Unit {0})
unfolding mount_image umount_image
seed_from_host image host_path mount_point = do
  made ← ask (create_dir_all mount_point)
  or_fail spawn_failed (codes "mkdir mount_point") made
  mount_image image mount_point
  start_command spawn_failed (codes "copy workspace contents")
      (shell (copy_script host_path mount_point))
  umount_image mount_point

unfoldable pub export_to_host : Str → Str → Str → M (Unit {0})
unfolding mount_image umount_image
export_to_host image host_path mount_point = do
  made ← ask (create_dir_all mount_point)
  or_fail cleanup_failed (codes "mkdir mount_point") made
  host ← ask (create_dir_all host_path)
  or_fail cleanup_failed (codes "mkdir host_path") host
  mount_image image mount_point
  start_command cleanup_failed (codes "export workspace")
      (shell (copy_script mount_point host_path))
  umount_image mount_point
