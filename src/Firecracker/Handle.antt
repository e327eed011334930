-- ===== src/Firecracker/Handle.antt =====
-- src/firecracker.rs: a capsule in a microVM, and what its handle does.
use zeptocapsule.Common.{
  ℕ, Bool, true, false, ◌||◌, Option, none, some, List, [], ◌∷◌, ◌++◌, if◌then◌else◌, ltb,
}
use zeptocapsule.Common.Result.{Result, ok, err}
use zeptocapsule.Common.Program.{ret, ask, attempt, ◌>>=◌, ◌>>◌}
use zeptocapsule.Text.{Str, codes, str_eq}
use zeptocapsule.Text.Path.{join}
use zeptocapsule.Capsule.{
  CapsuleSpec, FirecrackerConfig, ResourceViolation, effective_vcpus, effective_memory_mib,
}
use zeptocapsule.Capsule.Backend.{KernelError, spawn_failed, invalid_state, not_supported}
use zeptocapsule.InitBinary.{default_init_binary}
use zeptocapsule.Egress.Tap.{TapSetup}
use zeptocapsule.Guest.Control.{ControlStatus}
use zeptocapsule.Firecracker.System.{
  M, start_firecracker, start_reader, start_timer, stop_timer, close_control_write, kill_vm,
  wait_vm, copy, write_file, env_var, current_exe, exists,
}
use zeptocapsule.Firecracker.Api.{Texts}
use zeptocapsule.Firecracker.Images.{
  or_fail, default_size_mib, image_path, create_image, seed_from_host,
}
use zeptocapsule.Firecracker.Payload.{stage_firecracker_payload}
use zeptocapsule.Firecracker.Boot.{Config, boot}

pub record FcEgressRuntime : Type 0 where
  pub tap : TapSetup
  pub ca_cert_path : Str
  pub env : List (Str × Str)

-- The start time is not modelled; whether the second descriptor of the control channel, the timer and
-- the reader's flag are there is a truth value.
pub record FirecrackerCapsule : Type 0 where
  pub spec : CapsuleSpec
  pub config : FirecrackerConfig
  pub state_dir : Str
  pub fc_process : Option ℕ
  pub control_write_fd : Bool
  pub control_status : Option ControlStatus
  pub worker_exited : Bool
  pub killed_by : Option ResourceViolation
  pub timeout_cancel : Bool
  pub egress : Option FcEgressRuntime

abbrev pub has_key : Str → List (Str × Str) → Bool
has_key k [] = false
has_key k ((j, v) ∷ env) = str_eq k j || has_key k env

-- `entry(k).or_insert(v)` for each pair
unfoldable pub or_insert_all : List (Str × Str) → List (Str × Str) → List (Str × Str)
or_insert_all env [] = env
or_insert_all env ((k, v) ∷ more) =
    or_insert_all (if has_key k env then env else env ++ (k, v) ∷ []) more

abbrev pub egress_env : Option FcEgressRuntime → List (Str × Str)
egress_env none = []
egress_env (some e) = e.env

abbrev pub is_some {ℓ} : {A : Type ℓ} → Option A → Bool
is_some none = false
is_some (some a) = true

abbrev pub init_binary_of : Option Str → M Str
init_binary_of (some path) = ret path
init_binary_of none =
    default_init_binary (ask (env_var (codes "ZEPTOCAPSULE_INIT_BINARY"))) (ask current_exe)
      (λ path. ask (exists path)) not_supported

abbrev pub seed : Option Str → Str → Str → M (Unit {0})
seed none image mount_point = ret tt
seed (some host) image mount_point = seed_from_host image host mount_point

abbrev pub serial_log_path : Str → Str
serial_log_path state_dir = join state_dir (codes "serial.log")

abbrev pub rootfs_copy_path : Str → Str
rootfs_copy_path state_dir = join state_dir (codes "rootfs.ext4")

abbrev pub api_socket_path : Str → Str
api_socket_path state_dir = join state_dir (codes "api.sock")

abbrev pub vsock_socket_path : Str → Str
vsock_socket_path state_dir = join state_dir (codes "fc.vsock")

-- `spawn` up to the start of the process, whose id is returned
unfoldable pub prepare : FirecrackerCapsule → Str → List Str → List (Str × Str) → M ℕ
prepare h binary args env = do
  let rootfs = rootfs_copy_path h.state_dir
  let log = serial_log_path h.state_dir
  copied ← ask (copy h.config.rootfs_path rootfs)
  or_fail spawn_failed (codes "copy rootfs") copied
  init ← init_binary_of h.spec.init_binary
  stage_firecracker_payload binary args (or_insert_all env (egress_env h.egress)) init
      h.spec.workspace.guest_path rootfs h.state_dir
  create_image (image_path h.state_dir) (default_size_mib h.spec.workspace.size_mib)
  seed h.spec.workspace.host_path (image_path h.state_dir) (join h.state_dir (codes "ws_mount"))
  written ← ask (write_file log [])
  or_fail spawn_failed (codes "create log file " ++ log) written
  started ← ask (
      start_firecracker (
        h.config.firecracker_bin
        ∷ codes "--api-sock"
        ∷ api_socket_path h.state_dir
        ∷ codes "--log-path"
        ∷ log
        ∷ codes "--level"
        ∷ codes "Warning"
        ∷ []))
  or_fail spawn_failed (codes "start firecracker") started

abbrev pub network_of : Option FcEgressRuntime → FirecrackerConfig → Bool × Option Str
network_of none config = (config.enable_network, config.tap_name)
network_of (some e) config = (true, some e.tap.iface)

unfoldable pub config_of : FirecrackerCapsule → Config
config_of h = record {
  vcpus = effective_vcpus h.config h.spec.limits;
  memory_mib = effective_memory_mib h.config h.spec.limits;
  kernel_path = h.config.kernel_path;
  rootfs = rootfs_copy_path h.state_dir;
  workspace = image_path h.state_dir;
  vsock = vsock_socket_path h.state_dir;
  enable_network = (network_of h.egress h.config).0;
  tap_name = (network_of h.egress h.config).1;
}

abbrev pub stopped : Bool → M (Unit {0})
stopped false = ret tt
stopped true = ask stop_timer

abbrev pub closed_control : Bool → M (Unit {0})
closed_control false = ret tt
closed_control true = ask close_control_write

-- `let _ = child.kill(); let _ = child.wait();`
abbrev pub put_down : Option ℕ → M (Unit {0})
put_down none = ret tt
put_down (some pid) = ask kill_vm >> ask wait_vm >> ret tt

unfoldable pub cleanup_failed_spawn : FirecrackerCapsule → M FirecrackerCapsule
cleanup_failed_spawn h = do
  stopped h.timeout_cancel
  closed_control h.control_write_fd
  put_down h.fc_process
  ret (record h {
    timeout_cancel = false;
    control_write_fd = false;
    fc_process = none;
    worker_exited = false;
    control_status = none;
  })

abbrev pub started_timer : ℕ → M (Unit {0})
started_timer secs = if ltb 0 secs then ask (start_timer secs) else ret tt

-- of a process that was started, and the result of the boot; the process id is that of the child
abbrev pub settle :
    FirecrackerCapsule
    → ℕ
    → Result KernelError (Unit {0})
    → M (FirecrackerCapsule × Result KernelError ℕ)
settle h pid (ok t) = do
  ask start_reader
  started_timer h.spec.limits.timeout_sec
  ret (
    record h { control_write_fd = true; timeout_cancel = ltb 0 h.spec.limits.timeout_sec },
    ok pid,
  )
settle h pid (err e) = cleanup_failed_spawn h >>= λ h'. ret (h', err e)

abbrev pub launched :
    Texts
    → FirecrackerCapsule
    → Result KernelError ℕ
    → M (FirecrackerCapsule × Result KernelError ℕ)
launched texts h (err e) = ret (h, err e)
launched texts h (ok pid) =
    let h' : FirecrackerCapsule = record h { fc_process = some pid } in
    attempt (boot texts (api_socket_path h.state_dir) (vsock_socket_path h.state_dir) (config_of h))
    >>= settle h' pid

-- The handle comes back with the result.
unfoldable pub spawn :
    Texts
    → FirecrackerCapsule
    → Str
    → List Str
    → List (Str × Str)
    → M (FirecrackerCapsule × Result KernelError ℕ)
spawn texts h binary args env =
    if is_some h.fc_process || h.control_write_fd
    then ret (h, err (invalid_state (codes "capsule already has a running child")))
    else attempt (prepare h binary args env) >>= launched texts h
