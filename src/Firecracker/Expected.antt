-- ===== src/Firecracker/Expected.antt =====
-- What the requests that start a guest are.
use zeptocapsule.Common.{
  arith, le→ltb, if◌then◌else◌, zero, suc, ltb, Option-cases, ℕ, ◌≡◌, refl, Bool, true, false,
  Bool-cases, inl, inr, Option, none, some, List, [], ◌∷◌, ◌++◌, map, length,
}
use zeptocapsule.Text.{Str, codes, decimal}
use zeptocapsule.Text.Path.{join}
use zeptocapsule.Text.Utf8.{into_bytes}
use zeptocapsule.Capsule.{
  F64, ceil_as_u32, ResourceLimits, effective_memory_mib, FirecrackerConfig, effective_vcpus,
}
use zeptocapsule.Firecracker.Api.{
  format_put_request, machine_config_json, boot_source_json, drive_json, vsock_json,
  network_interface_json, action_json,
}
use zeptocapsule.Firecracker.Boot.{request_of, puts, network_put}
use zeptocapsule.Firecracker.Images.{image_path}
use zeptocapsule.Firecracker.Handle.{FcEgressRuntime, FirecrackerCapsule, config_of, network_of}

-- a request to set the resource at a path
put_text : Str → Str → Str
put_text path body =
    codes "PUT "
    ++ (path
        ++ (codes
              " HTTP/1.1\r\nHost: localhost\r\nAccept: application/json\r\nContent-Type: application/json\r\nContent-Length: "
            ++ (decimal (length (into_bytes body)) ++ (codes "\r\n\r\n" ++ body))))

-- a drive: its name, the file on the host, and whether the guest has its root on it
drive_text : Str → Str → Str → Str
drive_text name file root = put_text (codes "/drives/" ++ name) (
    codes "{\"drive_id\":\""
    ++ name
    ++ codes "\",\"path_on_host\":\""
    ++ file
    ++ codes "\",\"is_root_device\":"
    ++ root
    ++ codes ",\"is_read_only\":"
    ++ codes "false"
    ++ codes "}")

interface_text : Str → Str
interface_text device = put_text (codes "/network-interfaces/eth0") (
    codes "{\"iface_id\":\""
    ++ codes "eth0"
    ++ codes "\",\"host_dev_name\":\""
    ++ device
    ++ codes "\"}")

-- the gate's device, or else the one of the configuration, if it has a network
interfaces : Option FcEgressRuntime → Bool → Option Str → List Str
interfaces (some e) network tap = interface_text e.tap.iface ∷ []
interfaces none true (some tap) = interface_text tap ∷ []
interfaces none true none = []
interfaces none false tap = []

-- explicit, or else the limit, or else 256
memory_of : Option ℕ → Option ℕ → ℕ
memory_of (some mib) limit = mib
memory_of none (some limit) = limit
memory_of none none = 256

at_least_one : ℕ → ℕ
at_least_one zero = 1
at_least_one (suc n) = suc n

-- explicit, or else the quota's, rounded up and at least one, or else one
cpus_of : Option ℕ → Option F64 → ℕ
cpus_of (some n) quota = n
cpus_of none (some q) = at_least_one (ceil_as_u32 q)
cpus_of none none = 1

-- The guest's processors and memory, its kernel, the two drives, the socket for its streams and its
-- network are set, and then it is started.
pub boot_requests : FirecrackerCapsule → List Str
boot_requests h =
    put_text (codes "/machine-config") (
      codes "{\"vcpu_count\":"
      ++ decimal (cpus_of h.config.vcpus h.spec.limits.cpu_quota)
      ++ codes ",\"mem_size_mib\":"
      ++ decimal (memory_of h.config.memory_mib h.spec.limits.memory_mib)
      ++ codes "}")
    ∷ put_text (codes "/boot-source") (
        codes "{\"kernel_image_path\":\""
        ++ h.config.kernel_path
        ++ codes "\",\"boot_args\":\""
        ++ codes "console=ttyS0 reboot=k panic=1 root=/dev/vda rw init=/sbin/init"
        ++ codes "\"}")
    ∷ drive_text (codes "rootfs") (join h.state_dir (codes "rootfs.ext4")) (codes "true")
    ∷ drive_text (codes "workspace") (join h.state_dir (codes "workspace.ext4")) (codes "false")
    ∷ put_text (codes "/vsock") (
        codes "{\"vsock_id\":\""
        ++ codes "vsock0"
        ++ codes "\",\"uds_path\":\""
        ++ join h.state_dir (codes "fc.vsock")
        ++ codes "\",\"guest_cid\":"
        ++ codes "3"
        ++ codes "}")
    ∷ (interfaces h.egress h.config.enable_network h.config.tap_name
        ++ put_text (codes "/actions")
            (codes "{\"action_type\":\"" ++ codes "InstanceStart" ++ codes "\"}")
          ∷ [])

at_least_one_lem : (n : ℕ) → (if ltb n 1 then 1 else n) ≡ at_least_one n
unfolding at_least_one
at_least_one_lem zero = refl
at_least_one_lem (suc n) = let more : ltb (suc n) 1 ≡ false = le→ltb (omega arith) in rw more refl

cpus_same :
    (config : FirecrackerConfig) (limits : ResourceLimits)
    → effective_vcpus config limits ≡ cpus_of config.vcpus limits.cpu_quota
unfolding effective_vcpus cpus_of
cpus_same config limits = elim (Option-cases config.vcpus) [
  | inr (n, e) ↦ rw e refl
  | inl e ↦ elim (Option-cases limits.cpu_quota) [
    | inr (q, f) ↦ rw (e, f) (at_least_one_lem (ceil_as_u32 q))
    | inl f ↦ rw (e, f) refl
  ]
]

memory_same :
    (config : FirecrackerConfig) (limits : ResourceLimits)
    → effective_memory_mib config limits ≡ memory_of config.memory_mib limits.memory_mib
unfolding effective_memory_mib memory_of
memory_same config limits = elim (Option-cases config.memory_mib) [
  | inr (mib, e) ↦ rw e refl
  | inl e ↦ elim (Option-cases limits.memory_mib) [
    | inr (mib, f) ↦ rw (e, f) refl
    | inl f ↦ rw (e, f) refl
  ]
]

abbrev start_put : List (Str × Str)
start_put = (codes "/actions", action_json (codes "InstanceStart")) ∷ []

abbrev started : List Str
started =
    put_text (codes "/actions")
      (codes "{\"action_type\":\"" ++ codes "InstanceStart" ++ codes "\"}")
    ∷ []

network_same :
    (e : Option FcEgressRuntime) (config : FirecrackerConfig)
    → map request_of (network_put (network_of e config).0 (network_of e config).1 ++ start_put)
      ≡ interfaces e config.enable_network config.tap_name ++ started
unfolding interfaces interface_text put_text format_put_request action_json network_interface_json
network_same (some e) config = refl
network_same none config = elim (Bool-cases config.enable_network) [
  | inr b ↦ rw b refl
  | inl b ↦ elim (Option-cases config.tap_name) [
    | inl t ↦ rw (b, t) refl
    | inr (tap, t) ↦ rw (b, t) refl
  ]
]

pub puts_same : (h : FirecrackerCapsule) → map request_of (puts (config_of h)) ≡ boot_requests h
unfolding puts config_of boot_requests put_text drive_text format_put_request machine_config_json
    boot_source_json drive_json vsock_json image_path decimal
puts_same h =
    rw
      (
        network_same h.egress h.config,
        memory_same h.config h.spec.limits,
        cpus_same h.config h.spec.limits,
      )
      refl
