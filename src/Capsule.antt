-- ===== src/Capsule.antt =====
-- src/types.rs: what a capsule is made of, and which combinations are valid.
pub mod Validate
pub mod Backend
pub mod Report
pub mod Create
mod Tests
use zeptocapsule.Common.{
  ℕ, ◌+◌, ◌-◌, ◌*◌, ◌/◌, ◌^◌, ◌%◌, Bool, true, false, Option, none, some, List, [], ◌∷◌, ◌++◌, ltb,
  if◌then◌else◌,
}
use zeptocapsule.Common.Result.{Result, ok, err, ◌>>=◌, ◌>>◌}
use zeptocapsule.Text.{Str, codes, decimal}
use zeptocapsule.Egress.Types.{EgressPolicy, deny_all}

pub data Isolation : Type 0 where
  process namespace firecracker : Isolation

pub data SecurityProfile : Type 0 where
  dev standard hardened : SecurityProfile

pub data ResourceViolation : Type 0 where
  wall_clock memory max_pids : ResourceViolation

pub data Signal : Type 0 where
  terminate kill : Signal

-- An `f64`: the finite ones that are not negative are `n / 2 ^ s`.
pub data F64 : Type 0 where
  nan negative infinite : F64
  finite : (n s : ℕ) → F64

abbrev pub max_u32 : ℕ
max_u32 = 2 ^ 32 - 1

-- `q.ceil() as u32`, a conversion that saturates
unfoldable pub ceil_as_u32 : F64 → ℕ
ceil_as_u32 nan = 0
ceil_as_u32 negative = 0
ceil_as_u32 infinite = max_u32
ceil_as_u32 (finite n s) = let c = (n + (2 ^ s - 1)) / 2 ^ s in if ltb max_u32 c then max_u32 else c

pub record ResourceLimits : Type 0 where
  pub timeout_sec : ℕ
  pub memory_mib : Option ℕ
  pub cpu_quota : Option F64
  pub max_pids : Option ℕ

pub record FirecrackerConfig : Type 0 where
  pub firecracker_bin : Str
  pub kernel_path : Str
  pub rootfs_path : Str
  pub vcpus : Option ℕ
  pub memory_mib : Option ℕ
  pub enable_network : Bool
  pub tap_name : Option Str

pub record WorkspaceConfig : Type 0 where
  pub host_path : Option Str
  pub guest_path : Str
  pub size_mib : Option ℕ

pub record SecurityOverrides : Type 0 where
  pub cgroup_required : Option Bool

pub record CapsuleSpec : Type 0 where
  pub isolation : Isolation
  pub workspace : WorkspaceConfig
  pub limits : ResourceLimits
  pub init_binary : Option Str
  pub security : SecurityProfile
  pub security_overrides : SecurityOverrides
  pub firecracker : Option FirecrackerConfig
  pub fallback : Option (List (Isolation × SecurityProfile))
  pub egress : Option EgressPolicy

pub record RLimits : Type 0 where
  pub max_memory_bytes : Option ℕ
  pub max_cpu_seconds : Option ℕ
  pub max_file_size_bytes : Option ℕ

-- of the quota, or 1 without one
abbrev vcpus_of : Option F64 → ℕ
vcpus_of none = 1
vcpus_of (some q) = let c = ceil_as_u32 q in if ltb c 1 then 1 else c

abbrev or_else : Option ℕ → ℕ → ℕ
or_else none n = n
or_else (some m) n = m

unfoldable pub effective_vcpus : FirecrackerConfig → ResourceLimits → ℕ
effective_vcpus config limits = or_else config.vcpus (vcpus_of limits.cpu_quota)

unfoldable pub effective_memory_mib : FirecrackerConfig → ResourceLimits → ℕ
effective_memory_mib config limits = or_else config.memory_mib (or_else limits.memory_mib 256)

unfoldable pub security_level : Isolation → SecurityProfile → ℕ
security_level firecracker security = 3
security_level namespace hardened = 2
security_level namespace standard = 1
security_level namespace dev = 0
security_level process security = 0

-- the name that `{:?}` prints
abbrev pub isolation_name : Isolation → Str
isolation_name process = codes "Process"
isolation_name namespace = codes "Namespace"
isolation_name firecracker = codes "Firecracker"

abbrev pub security_name : SecurityProfile → Str
security_name dev = codes "Dev"
security_name standard = codes "Standard"
security_name hardened = codes "Hardened"

abbrev pub Checked : Type 0
Checked = Result Str (Unit {0})

unfoldable pub validate_pair : Isolation → SecurityProfile → Checked
validate_pair process hardened =
    err (codes "Hardened security profile requires Namespace isolation")
validate_pair namespace dev = err (codes "Dev security profile only works with Process isolation")
validate_pair process dev = ok tt
validate_pair process standard = ok tt
validate_pair namespace standard = ok tt
validate_pair namespace hardened = ok tt
validate_pair firecracker security = ok tt

unfoldable pub validate_firecracker : Isolation → Option FirecrackerConfig → Option ℕ → Checked
validate_firecracker firecracker none pids =
    err (codes "Firecracker isolation requires firecracker config")
validate_firecracker firecracker (some config) (some n) =
    err (codes "max_pids is not supported with Firecracker isolation")
validate_firecracker firecracker (some config) none = ok tt
validate_firecracker process config pids = ok tt
validate_firecracker namespace config pids = ok tt

unfoldable pub validate_primary : CapsuleSpec → Checked
validate_primary spec = do
  validate_pair spec.isolation spec.security
  validate_firecracker spec.isolation spec.firecracker spec.limits.max_pids

-- the spec of a fallback: another isolation and profile, and no fallback of its own
abbrev pub with_fallback : CapsuleSpec → Isolation × SecurityProfile → CapsuleSpec
with_fallback spec (iso, sec) = record spec { isolation = iso; security = sec; fallback = none }

unfoldable pub escalates : ℕ → Isolation → SecurityProfile → Str
escalates i iso sec =
    codes "fallback["
    ++ decimal i
    ++ codes "] ("
    ++ isolation_name iso
    ++ codes ", "
    ++ security_name sec
    ++ codes ") escalates security above primary"

unfoldable pub validate_chain : CapsuleSpec → ℕ → List (Isolation × SecurityProfile) → Checked
validate_chain spec i [] = ok tt
validate_chain spec i ((iso, sec) ∷ chain) =
    let rest = validate_chain spec (i + 1) chain in
    if ltb (security_level spec.isolation spec.security) (security_level iso sec)
    then err (escalates i iso sec)
    else validate_primary (with_fallback spec (iso, sec)) >> rest

-- the fallbacks that are given
abbrev pub chain_of : CapsuleSpec → List (Isolation × SecurityProfile)
chain_of spec = elim spec.fallback [ some chain ↦ chain | none ↦ [] ]

unfoldable pub validate : CapsuleSpec → Checked
validate spec = validate_primary spec >> validate_chain spec 0 (chain_of spec)

unfoldable pub default_egress : SecurityProfile → Option EgressPolicy
default_egress dev = none
default_egress standard = some deny_all
default_egress hardened = some deny_all

-- `RLimits::from`: u64 products wrap in a release build
unfoldable pub from : ResourceLimits → RLimits
from limits = record {
  max_memory_bytes = elim limits.memory_mib [
    | some m ↦ some (m * 1024 * 1024 % 2 ^ 64)
    | none ↦ none
  ];
  max_cpu_seconds = some limits.timeout_sec;
  max_file_size_bytes = none;
}
