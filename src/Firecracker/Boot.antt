-- ===== src/Firecracker/Boot.antt =====
-- src/firecracker.rs: from a started Firecracker process to a guest that is ready.
use zeptocapsule.Common.{
  ℕ, zero, suc, Bool, true, false, Option, none, some, List, [], ◌∷◌, ◌++◌, if◌then◌else◌,
}
use zeptocapsule.Common.Result.{Result, ok, err}
use zeptocapsule.Common.Program.{ret, raise, ask, lift, ◌>>=◌, ◌>>◌}
use zeptocapsule.Text.{Str, codes, decimal, str_eq}
use zeptocapsule.Text.Utf8.{Bytes, from_utf8}
use zeptocapsule.Capsule.Backend.{KernelError, spawn_failed, transport}
use zeptocapsule.Firecracker.System.{
  M, VsockReply, exists, deadline_passed, sleep_ms, api_exchange, vsock_exchange, set_read_timeout,
  read_control_line, set_nonblocking, from_std, dup_control, close_control_read,
}
use zeptocapsule.Firecracker.Api.{
  Texts, format_put_request, put_expect_ok, machine_config_json, boot_source_json, drive_json,
  vsock_json, network_interface_json, action_json, connect_request, is_connect_ok,
}

abbrev pub build_boot_args : Str
build_boot_args = codes "console=ttyS0 reboot=k panic=1 root=/dev/vda rw init=/sbin/init"

abbrev pub timeout_waiting : Str → KernelError
timeout_waiting path = spawn_failed (codes "timeout waiting for socket: " ++ path)

-- Five seconds in steps of 50 ms: at most 100 rounds.
unfoldable pub wait_for_socket : ℕ → Str → M (Unit {0})
wait_for_socket zero path = raise (timeout_waiting path)
wait_for_socket (suc rounds) path = do
  late ← ask deadline_passed
  elim late [
    | true ↦ raise (timeout_waiting path)
    | false ↦ ask (exists path) >>= λ there. elim there [
      | true ↦ ret tt
      | false ↦ ask (sleep_ms 50) >> wait_for_socket rounds path
    ]
  ]

-- what the guest is configured with
pub record Config : Type 0 where
  pub vcpus : ℕ
  pub memory_mib : ℕ
  pub kernel_path : Str
  pub rootfs : Str
  pub workspace : Str
  pub vsock : Str
  pub enable_network : Bool
  pub tap_name : Option Str

abbrev pub network_put : Bool → Option Str → List (Str × Str)
network_put false tap = []
network_put true none = []
network_put true (some tap) =
    (codes "/network-interfaces/eth0", network_interface_json (codes "eth0") tap) ∷ []

-- the paths and the bodies of the requests that start the guest, in order
unfoldable pub puts : Config → List (Str × Str)
puts c =
    (codes "/machine-config", machine_config_json c.vcpus c.memory_mib)
      ∷ (codes "/boot-source", boot_source_json c.kernel_path build_boot_args)
      ∷ (codes "/drives/rootfs", drive_json (codes "rootfs") c.rootfs true false)
      ∷ (codes "/drives/workspace", drive_json (codes "workspace") c.workspace false false)
      ∷ (codes "/vsock", vsock_json (codes "vsock0") c.vsock 3)
      ∷ network_put c.enable_network c.tap_name
    ++ (codes "/actions", action_json (codes "InstanceStart")) ∷ []

abbrev pub request_of : Str × Str → Str
request_of (path, body) = format_put_request path body

unfoldable pub put_all : Texts → Str → List (Str × Str) → M (Unit {0})
put_all texts socket [] = ret tt
put_all texts socket ((path, body) ∷ rest) = do
  x ← ask (api_exchange socket (format_put_request path body))
  lift (put_expect_ok texts path x)
  put_all texts socket rest

abbrev said : Str → Result Str (Unit {0}) → Result KernelError (Unit {0})
said what (ok t) = ok t
said what (err e) = err (transport (what ++ e))

abbrev connect_answer : ℕ → Result Str Str → Result KernelError (Unit {0})
connect_answer port (err e) = err (transport (codes "vsock read response: " ++ e))
connect_answer port (ok line) =
    if is_connect_ok line
    then ok tt
    else err (transport (codes "vsock CONNECT " ++ decimal port ++ codes " failed: " ++ line))

-- `try_blocking_connect`, of what is read and written
unfoldable pub try_blocking_connect : ℕ → VsockReply → Result KernelError (Unit {0})
try_blocking_connect port x =
    zeptocapsule.Common.Result.◌>>◌ (said (codes "vsock connect: ") x.connected) (
      zeptocapsule.Common.Result.◌>>◌ (said (codes "vsock write CONNECT: ") x.written)
        (connect_answer port x.line))

-- the latest error, or the rest of the attempts
abbrev pub again : KernelError → M (Unit {0}) → M (Unit {0})
again e rest = do
  late ← ask deadline_passed
  elim late [ true ↦ raise e | false ↦ ask (sleep_ms 200) >> rest ]

abbrev pub tried : Result KernelError (Unit {0}) → (KernelError → M (Unit {0})) → M (Unit {0})
tried (ok t) rest = ret tt
tried (err e) rest = rest e

-- Thirty seconds in steps of 200 ms: at most 151 attempts. `last` is the latest error.
unfoldable pub connect_port : ℕ → Str → ℕ → KernelError → M (Unit {0})
unfolding try_blocking_connect
connect_port zero socket port last = raise last
connect_port (suc attempts) socket port last = do
  reply ← ask (vsock_exchange socket (connect_request port))
  tried (try_blocking_connect port reply) (λ e. again e (connect_port attempts socket port e))

abbrev pub no_attempt : KernelError
no_attempt = transport (codes "vsock connect: no attempt")

abbrev pub connect : Str → ℕ → M (Unit {0})
connect socket port = connect_port 151 socket port no_attempt

-- `map_err(|e| KernelError::Transport(..))?`
abbrev pub or_transport : {A : Type 0} → Str → Result Str A → M A
or_transport what (ok a) = ret a
or_transport what (err e) = raise (transport (what ++ e))

abbrev pub decoded : Str → Option Str → M (Option Str)
decoded utf8 none = raise (transport (codes "control utf8: " ++ utf8))
decoded utf8 (some text) = ret (some text)

-- an empty line is none
unfoldable pub ready_text : Str → Bytes → M (Option Str)
ready_text utf8 [] = ret none
ready_text utf8 (b ∷ bytes) = decoded utf8 (from_utf8 (b ∷ bytes))

-- the ports are those of the streams and of the control channel
unfoldable pub blocking_vsock_connect : Texts → Str → M (Option Str)
blocking_vsock_connect texts socket = do
  connect socket 1001
  connect socket 1002
  connect socket 1003
  connect socket 1004
  timed ← ask (set_read_timeout (some 30))
  or_transport (codes "set read timeout: ") timed
  line ← ask read_control_line
  bytes ← or_transport (codes "control read: ") line
  cleared ← ask (set_read_timeout none)
  or_transport (codes "clear read timeout: ") cleared
  ready ← ready_text texts.utf8 bytes
  a ← ask (set_nonblocking 1001)
  or_transport (codes "set nonblocking: ") a
  b ← ask (set_nonblocking 1002)
  or_transport (codes "set nonblocking: ") b
  c ← ask (set_nonblocking 1003)
  or_transport (codes "set nonblocking: ") c
  d ← ask (set_nonblocking 1004)
  or_transport (codes "set nonblocking: ") d
  ret ready

abbrev or_empty : Option Str → Str
or_empty none = []
or_empty (some text) = text

abbrev pub is_ready : Option Str → Bool
is_ready none = false
is_ready (some text) = str_eq text (codes "READY")

abbrev pub check_ready : Option Str → M (Unit {0})
check_ready ready =
    if is_ready ready
    then ret tt
    else raise (spawn_failed (codes "zk-init sent unexpected readiness: " ++ or_empty ready))

-- the control channel's second descriptor; without it the first is closed
abbrev pub dup_or_close : Result Str (Unit {0}) → M (Unit {0})
dup_or_close (ok t) = ret tt
dup_or_close (err e) = ask close_control_read >> raise (transport (codes "dup control fd: " ++ e))

-- the streams, the guest's readiness and the control channel
abbrev pub finish : Option Str → M (Unit {0})
finish ready = do
  a ← ask (from_std 1001)
  or_transport (codes "from_std: ") a
  b ← ask (from_std 1002)
  or_transport (codes "from_std: ") b
  c ← ask (from_std 1003)
  or_transport (codes "from_std: ") c
  check_ready ready
  duplicated ← ask dup_control
  dup_or_close duplicated

-- the part of `spawn` behind the start of the process that can fail
unfoldable pub boot : Texts → (api_socket vsock_socket : Str) → Config → M (Unit {0})
boot texts api_socket vsock_socket config = do
  wait_for_socket 101 api_socket
  put_all texts api_socket (puts config)
  wait_for_socket 101 vsock_socket
  ready ← blocking_vsock_connect texts vsock_socket
  finish ready
