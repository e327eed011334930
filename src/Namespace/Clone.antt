-- ===== src/Namespace/Clone.antt =====
-- src/namespace.rs: `do_clone`, which starts the child of a capsule.
pub mod Seen
pub mod Configured
pub mod Ends
use zeptocapsule.Common.{
  ℕ, Bool, true, false, Option, none, some, List, [], ◌∷◌, ◌++◌, if◌then◌else◌,
}
use zeptocapsule.Common.Result.{Result, ok, err}
use zeptocapsule.Common.Program.{ret, raise, ask, attempt, on_error, lift, ◌>>=◌, ◌>>◌}
use zeptocapsule.Text.{Str, codes, decimal}
use zeptocapsule.Text.Path.{join}
use zeptocapsule.Capsule.{CapsuleSpec, SecurityProfile, dev, standard, hardened}
use zeptocapsule.Egress.Veth.{NetnsError, VethSetup, move_guest_into_netns}
use zeptocapsule.InitBinary.{default_init_binary}
use zeptocapsule.Namespace.System.{
  Pipe, stdin, stdout, stderr, sync, diag, Fd, reading, writing, ChildArgs, Sys, M, current_exe,
  env_var, process_id, next_stage, temp_dir, exists, copy, chmod, create_dir_all, remove_file,
  write_file, make_pipe, close, clone, getuid, getgid, next_capsule_id, move_guest, write_sync_byte,
  kill_child, wait_child,
}
use zeptocapsule.Namespace.Cgroup.{Cgroup, create, dummy, add_pid, apply_limits}

-- The descriptors of the streams are always the same ends, so they are not in the record.
pub record NamespaceSpawn : Type 0 where
  pub child_pid : ℕ
  pub cgroup : Cgroup
  pub staged_init : Str
  pub diag_read : Fd

abbrev pub is_hardened : SecurityProfile → Bool
is_hardened hardened = true
is_hardened standard = false
is_hardened dev = false

abbrev init_path : Option Str → M Str
init_path (some path) = ret path
init_path none =
    default_init_binary (ask (env_var (codes "ZEPTOCAPSULE_INIT_BINARY"))) (ask current_exe)
      (λ path. ask (exists path)) (λ text. codes "not supported: " ++ text)

unfoldable pub resolve_init_binary : CapsuleSpec → M Str
resolve_init_binary spec = do
  path ← init_path spec.init_binary
  there ← ask (exists path)
  if there then ret path else raise (codes "zk-init binary not found at " ++ path)

unfoldable pub stage_init_binary : Str → M Str
stage_init_binary src = do
  id ← ask process_id
  n ← ask next_stage
  dir ← ask temp_dir
  let dest = join dir (codes "zk-init-" ++ decimal id ++ codes "-" ++ decimal n)
  copied ← ask (copy src dest)
  lift copied
  changed ← ask (chmod dest 493)
  lift changed
  ret dest

abbrev open_pipe : Pipe → M (Unit {0})
open_pipe p = ask (make_pipe p) >>= lift

abbrev or_path : Option Str → Str → Str
or_path (some path) other = path
or_path none other = other

abbrev pub size_mib_or : Option ℕ → ℕ
size_mib_or (some n) = n
size_mib_or none = 128

abbrev host_entry : Option Str → List (Str × Str)
host_entry none = []
host_entry (some path) = (codes "ZK_INIT_WORKSPACE_HOST_PATH", path) ∷ []

-- what is pushed behind the caller's environment
unfoldable pub init_env : CapsuleSpec → List (Str × Str)
init_env spec =
    (codes "ZK_INIT_WORKSPACE_PATH", spec.workspace.guest_path)
      ∷ host_entry spec.workspace.host_path
    ++ (codes "ZK_INIT_WORKSPACE_SIZE", decimal (size_mib_or spec.workspace.size_mib) ++ codes "m")
      ∷ (codes "ZK_INIT_TMP_SIZE", codes "64m")
      ∷ (if is_hardened spec.security then (codes "ZK_ROOTFS_READY", codes "1") ∷ [] else [])

abbrev pub proc_file : ℕ → Str → Str
proc_file pid name = codes "/proc/" ++ decimal pid ++ codes "/" ++ name

abbrev pub id_map : ℕ → Str
id_map id = codes "0 " ++ decimal id ++ codes " 1\n"

unfoldable pub write_uid_gid_maps : ℕ → M (Unit {0})
write_uid_gid_maps pid = do
  uid ← ask getuid
  gid ← ask getgid
  mapped ← ask (write_file (proc_file pid (codes "uid_map")) (id_map uid))
  lift mapped
  denied ← ask (write_file (proc_file pid (codes "setgroups")) (codes "deny\n"))
  lift denied
  grouped ← ask (write_file (proc_file pid (codes "gid_map")) (id_map gid))
  lift grouped

-- The branches that give a cloned child up: it is let go on, then killed and waited for.
unfoldable pub abandon : ℕ → M (Unit {0})
abandon pid = do
  ask write_sync_byte
  ask (close (writing sync))
  ask (close (reading diag))
  ask (kill_child pid)
  ask (wait_child pid)

-- `error` prints a NetnsError
abbrev pub entered : (NetnsError → Str) → Result NetnsError (Unit {0}) → M (Unit {0})
entered error (ok t) = ret tt
entered error (err e) = raise (codes "egress netns setup failed: " ++ error e)

unfoldable pub enter_netns : (NetnsError → Str) → Option VethSetup → ℕ → M (Unit {0})
enter_netns error none pid = ret tt
enter_netns error (some setup) pid =
    ask (move_guest setup pid) >>= λ env. entered error (move_guest_into_netns setup pid env).result

abbrev required_of : Option Bool → SecurityProfile → Bool
required_of (some b) security = b
required_of none security = is_hardened security

unfoldable pub cgroup_required : CapsuleSpec → Bool
cgroup_required spec = required_of spec.security_overrides.cgroup_required spec.security

abbrev pub enter_cgroup : CapsuleSpec → ℕ → Result Str Cgroup → M Cgroup
enter_cgroup spec pid (ok group) = do
  attempt (add_pid group pid)
  attempt (apply_limits group spec.limits)
  ret group
enter_cgroup spec pid (err x) =
    if cgroup_required spec
    then raise (codes "cgroup setup required but failed: " ++ x)
    else ret dummy

unfoldable pub start_cgroup : CapsuleSpec → ℕ → M Cgroup
unfolding cgroup_required
start_cgroup spec pid = do
  n ← ask next_capsule_id
  created ← attempt (create (codes "capsule-" ++ decimal n))
  enter_cgroup spec pid created

-- what stands between the clone and the byte that lets the child go on
unfoldable pub configure_child : (NetnsError → Str) → CapsuleSpec → Option VethSetup → ℕ → M Cgroup
configure_child error spec veth pid = do
  write_uid_gid_maps pid
  enter_netns error veth pid
  start_cgroup spec pid

-- `do_clone` once the init binary is staged, whose copy is `staged`
unfoldable pub clone_staged :
    (NetnsError → Str)
    → CapsuleSpec
    → Str
    → List Str
    → List (Str × Str)
    → Option VethSetup
    → Str
    → M NamespaceSpawn
clone_staged error spec binary args env veth staged = do
  open_pipe stdin
  open_pipe stdout
  open_pipe stderr
  open_pipe sync
  open_pipe diag
  made ← ask (create_dir_all (or_path spec.workspace.host_path spec.workspace.guest_path))
  lift made
  cloned ← ask (
      clone (record {
        init_binary = staged;
        worker_binary = binary;
        worker_args = args;
        env = env ++ init_env spec;
        hardened = is_hardened spec.security;
        workspace = spec.workspace.guest_path;
        workspace_host = spec.workspace.host_path;
      }))
  pid ← lift cloned
  ask (close (reading stdin))
  ask (close (writing stdout))
  ask (close (writing stderr))
  ask (close (reading sync))
  ask (close (writing diag))
  cgroup ← on_error (abandon pid) (configure_child error spec veth pid)
  ask write_sync_byte
  ask (close (writing sync))
  ret (record { child_pid = pid; cgroup = cgroup; staged_init = staged; diag_read = reading diag })

-- `StagedInitGuard` dropped: the copy is removed
unfoldable pub drop_guard : Str → M (Unit {0})
drop_guard staged = ask (remove_file staged) >> ret tt

unfoldable pub do_clone :
    (NetnsError → Str)
    → CapsuleSpec
    → Str
    → List Str
    → List (Str × Str)
    → Option VethSetup
    → M NamespaceSpawn
do_clone error spec binary args env veth = do
  init ← resolve_init_binary spec
  staged ← stage_init_binary init
  on_error (drop_guard staged) (clone_staged error spec binary args env veth staged)
