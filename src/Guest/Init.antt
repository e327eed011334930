-- ===== src/Guest/Init.antt =====
-- src/init_shim.rs: the init, which mounts the file systems of the guest and runs the worker.
use zeptocapsule.Common.{
  ℕ, zero, suc, Bool, true, false, Option, none, some, List, [], ◌∷◌, ◌++◌, if◌then◌else◌, ◌==◌,
  ◌||◌,
}
use zeptocapsule.Common.Result.{Result, ok, err}
use zeptocapsule.Common.Program.{ret, raise, ask, lift, ◌>>=◌, ◌>>◌}
use zeptocapsule.Text.{Str, codes, str_eq, decimal}
use zeptocapsule.Capsule.{Signal, terminate, kill}
use zeptocapsule.Rootfs.System.{MountArgs, ms_bind, ms_rec, ms_nosuid, ms_nodev}
use zeptocapsule.Guest.Control.{Ended, with_code, with_signal, exit_message, forwarded}
use zeptocapsule.Guest.Config.{
  MountConfig, FcInitConfig, or_say, or_text, init_command_from_parts, load_fc_init_config,
}
use zeptocapsule.Guest.System.{
  M, Io, Output, exists, is_set, create_dir_all, mount, command, socket, bind, listen, accept,
  close, spawn_worker, write_control, flush_control, clone_control, start_forwarding,
  join_forwarding, wait, sync, send_signal, run_worker,
}
pub mod Phase
pub mod Ordered

abbrev pub has_nul : Str → Bool
has_nul [] = false
has_nul (c ∷ s) = c == 0 || has_nul s

-- `CString::new(s).unwrap()`: the panic is an error here.
abbrev pub c_text : Str → M (Unit {0})
c_text s = if has_nul s then raise (codes "panicked: nul byte") else ret tt

abbrev pub make_dir : Str → Str → M (Unit {0})
make_dir what path = ask (create_dir_all path) >>= or_say what

unfoldable pub mount_proc : M (Unit {0})
mount_proc = do
  make_dir (codes "mkdir /proc") (codes "/proc")
  mounted ← ask (
      mount (record {
        source = some (codes "proc");
        target = codes "/proc";
        fstype = some (codes "proc");
        flags = [];
        opts = none;
      }))
  or_say (codes "mount /proc failed") mounted

unfoldable pub mount_tmpfs : Str → Str → M (Unit {0})
mount_tmpfs path size = do
  c_text path
  c_text size
  make_dir (codes "mkdir " ++ path) path
  mounted ← ask (
      mount (record {
        source = some (codes "tmpfs");
        target = path;
        fstype = some (codes "tmpfs");
        flags = ms_nosuid ∷ ms_nodev ∷ [];
        opts = some (codes "size=" ++ size);
      }))
  or_say (codes "mount tmpfs " ++ (path ++ codes " failed")) mounted

unfoldable pub bind_mount : Str → Str → M (Unit {0})
bind_mount source target = do
  make_dir (codes "mkdir " ++ source) source
  make_dir (codes "mkdir " ++ target) target
  c_text source
  c_text target
  mounted ← ask (
      mount (record {
        source = some source;
        target = target;
        fstype = none;
        flags = ms_bind ∷ ms_rec ∷ [];
        opts = none;
      }))
  or_say (codes "bind mount " ++ (source ++ (codes " -> " ++ (target ++ codes " failed")))) mounted

-- the workspace: the host's directory, or memory
abbrev pub mount_workspace : Option Str → Str → Str → M (Unit {0})
mount_workspace (some host) path size = bind_mount host path
mount_workspace none path size = mount_tmpfs path size

unfoldable pub setup_guest_fs : MountConfig → M (Unit {0})
setup_guest_fs c = do
  mount_proc
  mount_workspace c.host_workspace_path c.workspace_path c.workspace_size
  mount_tmpfs (codes "/tmp") c.tmp_size

abbrev pub mounted_or : Io Output → M (Unit {0})
mounted_or (err e) = raise (codes "mount workspace: " ++ e)
mounted_or (ok out) =
    if out.success then ret tt else raise (codes "mount workspace failed: " ++ out.stderr)

abbrev pub mount_device : Option Str → Str → M (Unit {0})
mount_device none path = make_dir (codes "mkdir workspace") path
mount_device (some device) path = do
  make_dir (codes "mkdir workspace") path
  out ← ask (command (codes "mount" ∷ device ∷ path ∷ []))
  mounted_or out

unfoldable pub setup_fc_guest_fs : FcInitConfig → M (Unit {0})
setup_fc_guest_fs c = do
  mount_proc
  mount_tmpfs (codes "/tmp") c.tmp_size
  mount_device c.workspace_device c.workspace_path

-- the value of the first pair with the key
unfoldable pub find_value : Str → List (Str × Str) → Option Str
find_value key [] = none
find_value key ((k, v) ∷ env) =
    let rest = find_value key env in if str_eq k key then some v else rest

abbrev pub ip : List Str → M (Unit {0})
ip args = ask (command (codes "ip" ∷ args)) >> ret tt

abbrev pub bring_up : Str → Str → Str → M (Unit {0})
bring_up guest host iface = do
  ip (codes "addr" ∷ codes "add" ∷ guest ∷ codes "dev" ∷ iface ∷ [])
  ip (codes "link" ∷ codes "set" ∷ iface ∷ codes "up" ∷ [])
  ip (codes "link" ∷ codes "set" ∷ codes "lo" ∷ codes "up" ∷ [])
  ip (codes "route" ∷ codes "add" ∷ codes "default" ∷ codes "via" ∷ host ∷ [])

abbrev pub configure_iface : Option Str → Option Str → Str → M (Unit {0})
configure_iface none host iface = ret tt
configure_iface (some guest) none iface = ret tt
configure_iface (some guest) (some host) iface = bring_up guest host iface

unfoldable pub configure_fc_egress_network : List (Str × Str) → M (Unit {0})
configure_fc_egress_network env =
    configure_iface (find_value (codes "ZK_FC_GUEST_IP") env)
      (find_value (codes "ZK_FC_HOST_IP") env)
      (or_text (find_value (codes "ZK_FC_GUEST_IFACE") env) (codes "eth0"))

-- an error of a call on a socket, which is closed
abbrev pub or_close : Str → ℕ → Io (Unit {0}) → M (Unit {0})
or_close what fd (ok t) = ret tt
or_close what fd (err e) = ask (close fd) >> raise (what ++ (codes ": " ++ e))

unfoldable pub vsock_listen : ℕ → M ℕ
vsock_listen port = do
  made ← ask (socket port)
  fd ← or_say (codes "vsock socket " ++ decimal port) made
  bound ← ask (bind fd port)
  or_close (codes "vsock bind " ++ decimal port) fd bound
  listening ← ask (listen fd)
  or_close (codes "vsock listen " ++ decimal port) fd listening
  ret fd

unfoldable pub vsock_accept : ℕ → M ℕ
vsock_accept listener = do
  accepted ← ask (accept listener)
  fd ← or_say (codes "vsock accept") accepted
  ask (close listener)
  ret fd

abbrev pub number_of : Signal → ℕ
number_of terminate = 15
number_of kill = 9

abbrev pub forward_error : Signal → Str
forward_error terminate = codes "forward SIGTERM failed"
forward_error kill = codes "forward SIGKILL failed"

abbrev pub forward : ℕ → Option Signal → M (Unit {0})
forward pid none = ret tt
forward pid (some signal) =
    ask (send_signal pid (number_of signal)) >>= or_say (forward_error signal)

-- the thread that reads the control channel, by what its reads return: lines, or an error, until the
-- channel's end
unfoldable pub forward_lines : ℕ → List (Io Str) → M (Unit {0})
forward_lines pid [] = ret tt
forward_lines pid (err e ∷ reads) = raise (codes "read control: " ++ e)
forward_lines pid (ok line ∷ reads) = do forward pid (forwarded line); forward_lines pid reads

-- a text on the control channel, and what the errors call it
abbrev pub say : Str → Str → M (Unit {0})
say what text = do
  written ← ask (write_control text)
  or_say (codes "write " ++ what) written
  flushed ← ask (flush_control text)
  or_say (codes "flush " ++ what) flushed

abbrev pub exit_code : Str → Ended → M ℕ
exit_code path (with_code code) = ret code
exit_code path (with_signal signal) =
    raise (codes "worker " ++ (path ++ codes " terminated by signal"))

-- the worker has ended
abbrev pub report_end : Str → Ended → M ℕ
report_end path status = do
  ask sync
  say (codes "exit status") (exit_message status)
  ask join_forwarding
  exit_code path status

-- from the start of the worker on; the result is the code with which the init exits
unfoldable pub run_fc_worker : FcInitConfig → List ℕ → M ℕ
run_fc_worker c fds = do
  started ← ask (spawn_worker (c.worker_path ∷ c.worker_args) c.worker_env fds)
  pid ← or_say (codes "exec " ++ c.worker_path) started
  say (codes "READY") (codes "READY\n")
  cloned ← ask clone_control
  or_say (codes "clone control socket") cloned
  ask start_forwarding
  waited ← ask wait
  status ← or_say (codes "wait " ++ c.worker_path) waited
  report_end c.worker_path status

-- the ports are those of the streams and of the control channel
unfoldable pub connect_streams : M (List ℕ)
connect_streams = do
  stdin_listener ← vsock_listen 1001
  stdout_listener ← vsock_listen 1002
  stderr_listener ← vsock_listen 1003
  control_listener ← vsock_listen 1004
  stdin ← vsock_accept stdin_listener
  stdout ← vsock_accept stdout_listener
  stderr ← vsock_accept stderr_listener
  control ← vsock_accept control_listener
  ret (stdin ∷ stdout ∷ stderr ∷ [])

unfoldable pub run_fc_init_shim : Str → M ℕ
run_fc_init_shim utf8 = do
  c ← load_fc_init_config utf8
  setup_fc_guest_fs c
  configure_fc_egress_network c.worker_env
  fds ← connect_streams
  run_fc_worker c fds

-- The file systems are mounted but where the root is ready.
abbrev pub setup_unless : Bool → MountConfig → M (Unit {0})
setup_unless true c = ret tt
setup_unless false c = setup_guest_fs c

unfoldable pub run_plain_init : MountConfig → Str → List Str → M ℕ
run_plain_init c worker args = do
  ready ← ask (is_set (codes "ZK_ROOTFS_READY"))
  setup_unless ready c
  ran ← ask (run_worker (worker ∷ args))
  status ← or_say (codes "exec " ++ worker) ran
  exit_code worker status

-- by the words of the command line and the environment
unfoldable pub run_init_shim : Str → List Str → List (Str × Str) → M ℕ
run_init_shim utf8 words env = do
  marked ← ask (exists (codes "/run/zeptocapsule/firecracker.mode"))
  elim marked [
    | true ↦ run_fc_init_shim utf8
    | false ↦
        lift (init_command_from_parts words env) >>= λ parts. run_plain_init parts.0 parts.1 parts.2
  ]
