-- ===== src/Probe/Supported.antt =====
-- The pair that `max_supported` returns.
use zeptocapsule.Common.{◌≤◌, ◌≡◌, refl, Bool, true, false, ◌&&◌, if◌then◌else◌, arith}
use zeptocapsule.Capsule.{
  Isolation, process, namespace, firecracker, SecurityProfile, dev, standard, hardened,
  security_level,
}
use zeptocapsule.Capsule.Validate.{
  IsSupported, process_dev, namespace_standard, namespace_hardened, any_firecracker,
}
use zeptocapsule.Probe.{HostCapabilities, is_some, max_supported}

-- What a pair needs: Firecracker (KVM and the program), user namespaces, cgroups, and seccomp filters.
abbrev pub IsRunnable : (fc userns cgroup seccomp : Bool) → Isolation → SecurityProfile → Type 0
IsRunnable fc userns cgroup seccomp process sec = Unit
IsRunnable fc userns cgroup seccomp namespace hardened =
    (userns ≡ true) × (cgroup ≡ true) × (seccomp ≡ true)
IsRunnable fc userns cgroup seccomp namespace standard = (userns ≡ true) × (cgroup ≡ true)
IsRunnable fc userns cgroup seccomp namespace dev = (userns ≡ true) × (cgroup ≡ true)
IsRunnable fc userns cgroup seccomp firecracker sec = fc ≡ true

below_three : (iso : Isolation) (sec : SecurityProfile) → security_level iso sec ≤ 3
unfolding security_level
below_three process sec = omega arith
below_three namespace dev = omega arith
below_three namespace standard = omega arith
below_three namespace hardened = omega arith
below_three firecracker sec = omega arith

below_two :
    (u c s : Bool) (iso : Isolation) (sec : SecurityProfile)
    → IsRunnable false u c s iso sec
    → security_level iso sec ≤ 2
unfolding security_level
below_two u c s process sec a = omega arith
below_two u c s namespace dev a = omega arith
below_two u c s namespace standard a = omega arith
below_two u c s namespace hardened a = omega arith
below_two u c s firecracker sec a = cc

below_one :
    (u c : Bool) (iso : Isolation) (sec : SecurityProfile)
    → IsRunnable false u c false iso sec
    → security_level iso sec ≤ 1
unfolding security_level
below_one u c process sec a = omega arith
below_one u c namespace dev a = omega arith
below_one u c namespace standard a = omega arith
below_one u c namespace hardened (p, q, r) = cc
below_one u c firecracker sec a = cc

below_none :
    (u c s : Bool) (iso : Isolation) (sec : SecurityProfile)
    → (u ≡ true → c ≡ true → ⊥)
    → IsRunnable false u c s iso sec
    → security_level iso sec ≤ 0
unfolding security_level
below_none u c s process sec n a = omega arith
below_none u c s namespace dev n (p, q) = absurd (n p q)
below_none u c s namespace standard n (p, q) = absurd (n p q)
below_none u c s namespace hardened n (p, q, r) = absurd (n p q)
below_none u c s firecracker sec n a = cc

-- A pair that a valid spec may have and that the host can run, and above which no pair that the host can
-- run stands in the order of the security levels.
pub record IsMax (fc u c s : Bool) (pair : Isolation × SecurityProfile) : Type 0 where
  pub supported : IsSupported pair.0 pair.1
  pub runnable : IsRunnable fc u c s pair.0 pair.1
  pub highest :
      (iso : Isolation) (sec : SecurityProfile)
      → IsRunnable fc u c s iso sec
      → security_level iso sec ≤ security_level pair.0 pair.1

-- the choice of `max_supported`
abbrev choice : (fc u c s : Bool) → Isolation × SecurityProfile
choice fc u c s =
    if fc
    then (firecracker, standard)
    else if u && c && s
    then (namespace, hardened)
    else if u && c
    then (namespace, standard)
    else (process, dev)

choice-IsMax : (fc u c s : Bool) → IsMax fc u c s (choice fc u c s)
unfolding security_level
choice-IsMax true u c s = record {
  supported = any_firecracker standard;
  runnable = refl;
  highest = λ iso sec a. below_three iso sec;
}
choice-IsMax false true true true = record {
  supported = namespace_hardened;
  runnable = (refl, refl, refl);
  highest = λ iso sec a. below_two true true true iso sec a;
}
choice-IsMax false true true false = record {
  supported = namespace_standard;
  runnable = (refl, refl);
  highest = λ iso sec a. below_one true true iso sec a;
}
choice-IsMax false true false s = record {
  supported = process_dev;
  runnable = tt;
  highest = λ iso sec a. below_none true false s iso sec (λ p q. cc) a;
}
choice-IsMax false false c s = record {
  supported = process_dev;
  runnable = tt;
  highest = λ iso sec a. below_none false c s iso sec (λ p q. cc) a;
}

-- `max_supported` returns a pair that a valid spec may have, that the host can run, and above which no
-- pair that the host can run stands in the order of the security levels.
pub max_supported-IsMax :
    (caps : HostCapabilities)
    → IsMax
        (caps.kvm && is_some caps.firecracker_bin)
        caps.user_namespaces
        caps.cgroup_v2
        caps.seccomp_filter
        (max_supported caps)
unfolding max_supported
max_supported-IsMax caps =
    choice-IsMax (caps.kvm && is_some caps.firecracker_bin) caps.user_namespaces caps.cgroup_v2
      caps.seccomp_filter
