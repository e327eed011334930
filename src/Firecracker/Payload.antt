-- ===== src/Firecracker/Payload.antt =====
-- src/firecracker.rs: `stage_firecracker_payload`, which puts the worker into the guest's root image.
use zeptocapsule.Common.{
  ℕ, Bool, true, false, ◌||◌, Option, none, some, List, [], ◌∷◌, ◌++◌, map, if◌then◌else◌,
}
use zeptocapsule.Common.Program.{ret, raise, ask, attempt, lift, ◌>>=◌, ◌>>◌}
use zeptocapsule.Text.{Str, codes, find}
use zeptocapsule.Text.Path.{join, is_absolute, trim_start_matches_slash}
use zeptocapsule.Text.Utf8.{Bytes, into_bytes}
use zeptocapsule.Capsule.Backend.{spawn_failed}
use zeptocapsule.Guest.{write_nul_delimited_strings, env_entry}
use zeptocapsule.Firecracker.System.{
  M, command, is_file, is_there, search_path, copy, chmod, write_file, create_dir_all, remove_file,
}
use zeptocapsule.Firecracker.Images.{or_fail, run_command, mount_args, umount_args}

unfoldable pub mount_loop_image : Str → Str → M (Unit {0})
mount_loop_image image mount_point = do
  made ← ask (create_dir_all mount_point)
  or_fail spawn_failed (codes "mkdir " ++ mount_point) made
  run_command spawn_failed (codes "mount " ++ image) (codes "mount " ++ image)
      (mount_args image mount_point)

-- `let _ = ..`
unfoldable pub unmount_path : Str → M (Unit {0})
unmount_path path = ask (command (umount_args path)) >> ret tt

abbrev contains_slash : Option ℕ → Bool
contains_slash none = false
contains_slash (some i) = true

-- the first of the directories that has the file
unfoldable pub search_dirs : Str → List Str → M Str
search_dirs binary [] =
    raise (spawn_failed (codes "resolve worker binary " ++ binary ++ codes ": not found in PATH"))
search_dirs binary (dir ∷ dirs) = do
  there ← ask (is_file (join dir binary))
  elim there [ true ↦ ret (join dir binary) | false ↦ search_dirs binary dirs ]

abbrev pub search_in : Str → Option (List Str) → M Str
search_in binary none =
    raise (spawn_failed (codes "resolve worker binary " ++ binary ++ codes ": PATH is not set"))
search_in binary (some dirs) = search_dirs binary dirs

-- a name that is not looked for
unfoldable pub is_path : Str → Bool
is_path binary = is_absolute binary || contains_slash (find b'/' binary)

unfoldable pub resolve_host_binary : Str → M Str
resolve_host_binary binary =
    if is_path binary then ret binary else ask search_path >>= search_in binary

abbrev pub worker_guest_path : Str
worker_guest_path = codes "/run/zeptocapsule/worker"

-- the worker is copied, if the image does not have it
unfoldable pub copy_worker : Str → Str → M Str
copy_worker host_binary stage_dir = do
  let dest = join stage_dir (codes "worker")
  copied ← ask (copy host_binary dest)
  or_fail spawn_failed (codes "copy worker binary") copied
  changed ← ask (chmod dest 493)
  or_fail spawn_failed (codes "chmod " ++ dest) changed
  ret worker_guest_path

-- whether the image has the worker, by its absolute path
abbrev pub in_image : Str → Str → M Bool
in_image mount_point host_binary =
    if is_absolute host_binary
    then ask (is_there (join mount_point (trim_start_matches_slash host_binary)))
    else ret false

abbrev pub placed : Str → Str → Bool → M Str
placed host_binary stage_dir true = ret host_binary
placed host_binary stage_dir false = copy_worker host_binary stage_dir

-- where the guest finds the worker
unfoldable pub place_worker : Str → Str → Str → M Str
place_worker mount_point host_binary stage_dir =
    in_image mount_point host_binary >>= placed host_binary stage_dir

unfoldable pub place_init : Str → Str → M (Unit {0})
place_init mount_point init_binary = do
  let dest = join mount_point (codes "sbin/init")
  made ← ask (create_dir_all (join mount_point (codes "sbin")))
  or_fail spawn_failed (codes "mkdir " ++ join mount_point (codes "sbin")) made
  ask (remove_file dest)
  copied ← ask (copy init_binary dest)
  or_fail spawn_failed (codes "copy zk-init") copied
  changed ← ask (chmod dest 493)
  or_fail spawn_failed (codes "chmod " ++ dest) changed

-- a file of the stage directory; `named` is its name in the error
abbrev pub write_stage : (path named : Str) → Bytes → M (Unit {0})
write_stage path named bytes =
    ask (write_file path bytes) >>= or_fail spawn_failed (codes "write " ++ named)

unfoldable pub write_stage_files : Str → Str → List Str → List (Str × Str) → Str → M (Unit {0})
write_stage_files stage_dir worker args env workspace = do
  write_stage (join stage_dir (codes "worker.path")) (codes "/run/zeptocapsule/worker.path")
      (into_bytes (worker ++ codes "\n"))
  write_stage (join stage_dir (codes "worker.args")) (join stage_dir (codes "worker.args"))
      (write_nul_delimited_strings args)
  write_stage (join stage_dir (codes "worker.env")) (join stage_dir (codes "worker.env"))
      (write_nul_delimited_strings (map env_entry env))
  write_stage (join stage_dir (codes "workspace.device"))
      (codes "/run/zeptocapsule/workspace.device") (into_bytes (codes "/dev/vdb\n"))
  write_stage (join stage_dir (codes "workspace.path")) (codes "/run/zeptocapsule/workspace.path")
      (into_bytes (workspace ++ codes "\n"))
  write_stage (join stage_dir (codes "tmp.size")) (codes "/run/zeptocapsule/tmp.size")
      (into_bytes (codes "64m\n"))
  write_stage (join stage_dir (codes "firecracker.mode"))
      (codes "/run/zeptocapsule/firecracker.mode") (into_bytes (codes "1\n"))

-- what is done while the image is mounted
unfoldable pub fill_image : Str → Str → List Str → List (Str × Str) → Str → Str → M (Unit {0})
fill_image mount_point host_binary args env init_binary workspace = do
  let stage_dir = join mount_point (codes "run/zeptocapsule")
  made ← ask (create_dir_all stage_dir)
  or_fail spawn_failed (codes "mkdir " ++ stage_dir) made
  worker ← place_worker mount_point host_binary stage_dir
  place_init mount_point init_binary
  write_stage_files stage_dir worker args env workspace

abbrev pub mount_point_of : Str → Str
mount_point_of state_dir = join state_dir (codes "rootfs_mount")

unfoldable pub stage_firecracker_payload :
    Str
    → List Str
    → List (Str × Str)
    → (init_binary workspace rootfs_image state_dir : Str) → M (Unit {0})
stage_firecracker_payload binary args env init_binary workspace rootfs_image state_dir = do
  mount_loop_image rootfs_image (mount_point_of state_dir)
  host_binary ← resolve_host_binary binary
  result ←
      attempt (fill_image (mount_point_of state_dir) host_binary args env init_binary workspace)
  unmount_path (mount_point_of state_dir)
  lift result
