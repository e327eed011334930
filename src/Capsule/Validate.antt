-- ===== src/Capsule/Validate.antt =====
-- Which specs are valid.
use zeptocapsule.Common.{
  ℕ, ◌≤◌, ◌≡◌, ◌↔◌, refl, Option, none, some, List, [], ◌∷◌, All, ltb, ltb-eq-false, le→ltb, ◌+◌,
}
use zeptocapsule.Common.Result.{ok, ok_of_chain, ok_of_guard}
use zeptocapsule.Capsule.{
  Isolation, process, namespace, firecracker, SecurityProfile, dev, standard, hardened,
  FirecrackerConfig, CapsuleSpec, security_level, validate_pair, validate_firecracker,
  validate_primary, with_fallback, validate_chain, chain_of, validate,
}

-- The combinations of an isolation and a profile that a backend accepts.
pub data IsSupported : Isolation → SecurityProfile → Type 0 where
  process_dev : IsSupported process dev
  process_standard : IsSupported process standard
  namespace_standard : IsSupported namespace standard
  namespace_hardened : IsSupported namespace hardened
  any_firecracker : (sec : SecurityProfile) → IsSupported firecracker sec

-- A spec without its fallbacks: Firecracker needs its configuration and takes no limit on processes.
pub record IsSound (spec : CapsuleSpec) : Type 0 where
  pub supported : IsSupported spec.isolation spec.security
  pub configured :
      spec.isolation ≡ firecracker → (c : FirecrackerConfig) × (spec.firecracker ≡ some c)
  pub no_pids : spec.isolation ≡ firecracker → spec.limits.max_pids ≡ none

-- A fallback is sound and not above the primary.
abbrev pub IsBelow : CapsuleSpec → Isolation × SecurityProfile → Type 0
IsBelow spec (iso, sec) =
    (security_level iso sec ≤ security_level spec.isolation spec.security)
    × IsSound (with_fallback spec (iso, sec))

pair→IsSupported :
    (iso : Isolation) (sec : SecurityProfile) → validate_pair iso sec ≡ ok tt → IsSupported iso sec
unfolding validate_pair
pair→IsSupported process dev h = process_dev
pair→IsSupported process standard h = process_standard
pair→IsSupported process hardened h = cc
pair→IsSupported namespace dev h = cc
pair→IsSupported namespace standard h = namespace_standard
pair→IsSupported namespace hardened h = namespace_hardened
pair→IsSupported firecracker sec h = any_firecracker sec

IsSupported→pair :
    (iso : Isolation) (sec : SecurityProfile) → IsSupported iso sec → validate_pair iso sec ≡ ok tt
unfolding validate_pair
IsSupported→pair _ _ process_dev = refl
IsSupported→pair _ _ process_standard = refl
IsSupported→pair _ _ namespace_standard = refl
IsSupported→pair _ _ namespace_hardened = refl
IsSupported→pair _ _ (any_firecracker sec) = refl

firecracker_iff :
    (iso : Isolation) (config : Option FirecrackerConfig) (pids : Option ℕ)
    → (validate_firecracker iso config pids ≡ ok tt) ↔ (
        (iso ≡ firecracker → (c : FirecrackerConfig) × (config ≡ some c))
        × (iso ≡ firecracker → pids ≡ none))
unfolding validate_firecracker
firecracker_iff process config pids = (λ h. ((λ e. cc), (λ e. cc)), λ h. refl)
firecracker_iff namespace config pids = (λ h. ((λ e. cc), (λ e. cc)), λ h. refl)
firecracker_iff firecracker none pids = ((λ h. cc), λ (c, p). let (x, e) = c refl in cc)
firecracker_iff firecracker (some c) none = (λ h. ((λ e. (c, refl)), λ e. refl), λ h. refl)
firecracker_iff firecracker (some c) (some n) = ((λ h. cc), λ (c, p). let e = p refl in cc)

primary_iff : (spec : CapsuleSpec) → (validate_primary spec ≡ ok tt) ↔ IsSound spec
unfolding validate_primary
primary_iff spec =
    let (to, from) = firecracker_iff spec.isolation spec.firecracker spec.limits.max_pids in
    (
      (λ h.
          let (t, paired, config) = ok_of_chain _ (validate_pair spec.isolation spec.security) h in
          let (c, p) = to config in
          record {
            supported = pair→IsSupported spec.isolation spec.security paired;
            configured = c;
            no_pids = p;
          }),
      λ s.
          rw (IsSupported→pair spec.isolation spec.security s.supported)
            (from (s.configured, s.no_pids)),
    )

chain_iff :
    (spec : CapsuleSpec) (i : ℕ) (chain : List (Isolation × SecurityProfile))
    → (validate_chain spec i chain ≡ ok tt) ↔ All (IsBelow spec) chain
unfolding validate_chain
chain_iff spec i [] = ((λ h. tt), λ h. refl)
chain_iff spec i ((iso, sec) ∷ chain) =
    let (to, from) = primary_iff (with_fallback spec (iso, sec)) in
    let (to_rest, from_rest) = chain_iff spec (i + 1) chain in
    (
      (λ h.
          let (low, more) =
            ok_of_guard (ltb (security_level spec.isolation spec.security) (security_level iso sec))
              _ _ h in
          let (t, sound, rest) =
            ok_of_chain _ (validate_primary (with_fallback spec (iso, sec))) more in
          ((ltb-eq-false low, to sound), to_rest rest)),
      λ ((low, sound), rest). rw (le→ltb low, from sound) (from_rest rest),
    )

-- A spec is valid exactly if it is sound and every fallback is sound and not above it in the order of
-- the security levels.
pub validate_iff :
    (spec : CapsuleSpec)
    → (validate spec ≡ ok tt) ↔ (IsSound spec × All (IsBelow spec) (chain_of spec))
unfolding validate
validate_iff spec =
    let (to, from) = primary_iff spec in
    let (to_chain, from_chain) = chain_iff spec 0 (chain_of spec) in
    (
      (λ h.
          let (t, sound, rest) = ok_of_chain _ (validate_primary spec) h in
          (to sound, to_chain rest)),
      λ (sound, rest). rw (from sound) (from_chain rest),
    )
