-- ===== src/Probe.antt =====
-- src/probe.rs: what the host supports.
pub mod Supported
pub mod Version
mod Tests
use zeptocapsule.Common.{
  ℕ, ◌-◌, ◌^◌, Bool, true, false, ◌&&◌, ◌||◌, Option, none, some, List, [], ◌∷◌, ◌==◌,
  if◌then◌else◌,
}
use zeptocapsule.Text.{Str, codes, str_eq, split_once, split, is_digit, parse_uint, trim}
use zeptocapsule.Capsule.{
  Isolation, process, namespace, firecracker, SecurityProfile, dev, standard, hardened,
}

pub data Arch : Type 0 where
  x86_64 aarch64 : Arch
  other : Str → Arch

abbrev pub Version3 : Type 0
Version3 = ℕ × ℕ × ℕ

pub record HostCapabilities : Type 0 where
  pub kernel_version : Version3
  pub arch : Arch
  pub user_namespaces : Bool
  pub cgroup_v2 : Bool
  pub seccomp_filter : Bool
  pub kvm : Bool
  pub firecracker_bin : Option Str

abbrev pub is_some : Option Str → Bool
is_some none = false
is_some (some s) = true

unfoldable pub max_supported : HostCapabilities → Isolation × SecurityProfile
max_supported caps =
    if caps.kvm && is_some caps.firecracker_bin
    then (firecracker, standard)
    else if caps.user_namespaces && caps.cgroup_v2 && caps.seccomp_filter
    then (namespace, hardened)
    else if caps.user_namespaces && caps.cgroup_v2
    then (namespace, standard)
    else (process, dev)

abbrev pub version_prefix : Str
version_prefix = codes "Linux version "

-- the digits and dots at the front
unfoldable pub version_chars : Str → Str
version_chars [] = []
version_chars (c ∷ s) =
    let rest = version_chars s in if is_digit c || c == b'.' then c ∷ rest else []

abbrev pub max_u32 : ℕ
max_u32 = 2 ^ 32 - 1

abbrev pub parse_u32 : Str → Option ℕ
parse_u32 s = parse_uint max_u32 s

abbrev or_zero : Option ℕ → ℕ
or_zero none = 0
or_zero (some n) = n

abbrev pub patch_of : List Str → ℕ
patch_of [] = 0
patch_of (p ∷ more) = or_zero (parse_u32 p)

abbrev pub numbers : Option ℕ → Option ℕ → ℕ → Option Version3
numbers none minor patch = none
numbers (some major) none patch = none
numbers (some major) (some minor) patch = some (major, minor, patch)

unfoldable pub version_of : List Str → Option Version3
version_of [] = none
version_of (a ∷ []) = none
version_of (a ∷ b ∷ more) = numbers (parse_u32 a) (parse_u32 b) (patch_of more)

unfoldable pub parse_kernel_version : Str → Option Version3
parse_kernel_version text = elim (split_once version_prefix text) [
  | none ↦ none
  | some (before, after) ↦ version_of (split (codes ".") (version_chars after))
]

unfoldable pub detect_arch : Str → Arch
detect_arch name =
    if str_eq name (codes "x86_64")
    then x86_64
    else if str_eq name (codes "aarch64")
    then aarch64
    else other name

-- What the probes find on a Linux host: the texts of /proc/version and of the sysctl, if they are
-- read, the architecture's name, the sign of prctl's result, and which files exist or open.
pub record Host : Type 0 where
  pub proc_version : Option Str
  pub arch_name : Str
  pub userns_clone : Option Str
  pub cgroup_controllers : Bool
  pub get_seccomp : Bool
  pub kvm_opens : Bool
  pub exists : Str → Bool

abbrev read_kernel_version : Option Str → Version3
read_kernel_version none = (0, 0, 0)
read_kernel_version (some text) = elim (parse_kernel_version text) [ some v ↦ v | none ↦ (0, 0, 0) ]

abbrev probe_user_namespaces : Option Str → Bool
probe_user_namespaces none = true
probe_user_namespaces (some contents) = str_eq (trim contents) (codes "1")

unfoldable pub find_firecracker_bin : (Str → Bool) → Option Str
find_firecracker_bin exists =
    if exists (codes "/usr/bin/firecracker")
    then some (codes "/usr/bin/firecracker")
    else if exists (codes "/usr/local/bin/firecracker")
    then some (codes "/usr/local/bin/firecracker")
    else none

unfoldable pub probe : Host → HostCapabilities
probe host = record {
  kernel_version = read_kernel_version host.proc_version;
  arch = detect_arch host.arch_name;
  user_namespaces = probe_user_namespaces host.userns_clone;
  cgroup_v2 = host.cgroup_controllers;
  seccomp_filter = host.get_seccomp;
  kvm = host.kvm_opens;
  firecracker_bin = find_firecracker_bin host.exists;
}
