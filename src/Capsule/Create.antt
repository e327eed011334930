-- ===== src/Capsule/Create.antt =====
-- src/lib.rs: `create`, with its chain of fallbacks.
use zeptocapsule.Common.{
  ℕ, suc, ◌+◌, ◌≤◌, ◌≡◌, refl, ap, ◌∙◌, ◌⊎◌, inl, inr, List, [], ◌∷◌, ◌++◌, map, All, arith, length,
}
use zeptocapsule.Common.Result.{Result, ok, err, ◌>>◌, ok_of_chain}
use zeptocapsule.Text.{Str}
use zeptocapsule.Capsule.{
  Isolation, SecurityProfile, CapsuleSpec, security_level, with_fallback, chain_of, Checked,
  validate,
}
use zeptocapsule.Capsule.Backend.{
  KernelError, spawn_failed, transport, cleanup_failed, invalid_state, not_supported, Backend,
}
use zeptocapsule.Capsule.Validate.{IsSound, IsBelow, validate_iff}

All-middle :
    {A : Type 0} (P : A → Type 0) (before after : List A) (x : A)
    → All P (before ++ x ∷ after)
    → P x
All-middle P [] after x (h, hs) = h
All-middle P (y ∷ before) after x (h, hs) = All-middle P before after x hs

abbrev invalid : Checked → Result KernelError (Unit {0})
invalid (ok t) = ok t
invalid (err e) = err (invalid_state e)

-- a result, unless it is that the isolation is not supported
abbrev pub or_next :
    {H : Type 0} → Result KernelError H → Result KernelError H → Result KernelError H
or_next (ok c) rest = ok c
or_next (err (not_supported m)) rest = rest
or_next (err e) rest = err e

module _ {H : Type 0} (backend : Isolation → Backend H) where
  unfoldable pub try_create : ℕ → CapsuleSpec → Result KernelError H
  try_create n spec = (backend spec.isolation).create n spec

  -- the fallbacks in order; `n` attempts are made, and `msg` is the message of the first
  unfoldable pub try_fallbacks :
      CapsuleSpec → Str → ℕ → List (Isolation × SecurityProfile) → Result KernelError H
  try_fallbacks spec msg n [] = err (not_supported msg)
  try_fallbacks spec msg n (f ∷ chain) =
      or_next (try_create n (with_fallback spec f)) (try_fallbacks spec msg (n + 1) chain)

  -- after the first attempt
  unfoldable pub settle_first : CapsuleSpec → Result KernelError H → Result KernelError H
  settle_first spec (ok c) = ok c
  settle_first spec (err (not_supported msg)) = try_fallbacks spec msg 1 (chain_of spec)
  settle_first spec (err e) = err e

  unfoldable pub create : CapsuleSpec → Result KernelError H
  create spec = invalid (validate spec) >> settle_first spec (try_create 0 spec)

  -- every one of the specs was tried in turn and is not supported
  abbrev pub Unsupported : ℕ → List CapsuleSpec → Type 0
  Unsupported n [] = Unit
  Unsupported n (s ∷ specs) =
      ((m : Str) × (try_create n s ≡ err (not_supported m))) × Unsupported (n + 1) specs

  -- What is known of a created capsule: its spec is the first of the candidates whose isolation is supported.
  pub record IsFirst (n : ℕ) (candidates : List CapsuleSpec) (capsule : H) : Type 0 where
    pub skipped : List CapsuleSpec
    pub used : CapsuleSpec
    pub later : List CapsuleSpec
    pub split : candidates ≡ skipped ++ used ∷ later
    pub made : try_create (n + length skipped) used ≡ ok capsule
    pub unsupported : Unsupported n skipped

  here :
      (n : ℕ) (s : CapsuleSpec) (specs : List CapsuleSpec) (c : H)
      → try_create n s ≡ ok c
      → IsFirst n (s ∷ specs) c
  here n s specs c h = record {
    skipped = [];
    used = s;
    later = specs;
    split = refl;
    made = let e : n + 0 ≡ n = omega arith in rw e h;
    unsupported = tt;
  }

  there :
      (n : ℕ) (s : CapsuleSpec) (specs : List CapsuleSpec) (c : H) (m : Str)
      → try_create n s ≡ err (not_supported m)
      → IsFirst (n + 1) specs c
      → IsFirst n (s ∷ specs) c
  there n s specs c m h first = record {
    skipped = s ∷ first.skipped;
    used = first.used;
    later = first.later;
    split = ap (λ ss. s ∷ ss) first.split;
    made =
        let e : n + suc (length first.skipped) ≡ n + 1 + length first.skipped = omega arith in
        rw e first.made;
    unsupported = ((m, h), first.unsupported);
  }

  or_next-eq-ok :
      (r rest : Result KernelError H) (c : H)
      → or_next r rest ≡ ok c
      → (r ≡ ok c) ⊎ ((m : Str) × (r ≡ err (not_supported m)) × (rest ≡ ok c))
  or_next-eq-ok (ok a) rest c h = inl h
  or_next-eq-ok (err (not_supported m)) rest c h = inr (m, refl, h)
  or_next-eq-ok (err (spawn_failed m)) rest c h = cc
  or_next-eq-ok (err (transport m)) rest c h = cc
  or_next-eq-ok (err (cleanup_failed m)) rest c h = cc
  or_next-eq-ok (err (invalid_state m)) rest c h = cc

  try_fallbacks-IsFirst :
      (spec : CapsuleSpec) (msg : Str) (n : ℕ) (chain : List (Isolation × SecurityProfile)) (c : H)
      → try_fallbacks spec msg n chain ≡ ok c
      → IsFirst n (map (with_fallback spec) chain) c
  unfolding try_fallbacks
  try_fallbacks-IsFirst spec msg n [] c h = cc
  try_fallbacks-IsFirst spec msg n (f ∷ chain) c h =
      elim (or_next-eq-ok (try_create n (with_fallback spec f)) _ c h) [
        | inl made ↦ here n (with_fallback spec f) _ c made
        | inr (m, fails, rest) ↦
            there n (with_fallback spec f) _ c m fails
              (try_fallbacks-IsFirst spec msg (n + 1) chain c rest)
      ]

  -- the specs that may be tried, in order
  abbrev pub candidates : CapsuleSpec → List CapsuleSpec
  candidates spec = spec ∷ map (with_fallback spec) (chain_of spec)

  settle_first-IsFirst :
      (spec : CapsuleSpec) (r : Result KernelError H) (c : H)
      → try_create 0 spec ≡ r
      → settle_first spec r ≡ ok c
      → IsFirst 0 (candidates spec) c
  unfolding settle_first
  settle_first-IsFirst spec (ok a) c e h = here 0 spec _ c (e ∙ h)
  settle_first-IsFirst spec (err (not_supported m)) c e h =
      there 0 spec _ c m e (try_fallbacks-IsFirst spec m 1 (chain_of spec) c h)
  settle_first-IsFirst spec (err (spawn_failed m)) c e h = cc
  settle_first-IsFirst spec (err (transport m)) c e h = cc
  settle_first-IsFirst spec (err (cleanup_failed m)) c e h = cc
  settle_first-IsFirst spec (err (invalid_state m)) c e h = cc

  invalid-eq-ok : (v : Checked) {t : Unit {0}} → invalid v ≡ ok t → v ≡ ok tt
  invalid-eq-ok (ok t) h = refl
  invalid-eq-ok (err e) h = cc

  -- A created capsule is that of the first candidate, the spec itself and then its fallbacks, whose isolation is
  -- supported: every candidate before it was tried in order and is not supported.
  pub create-IsFirst :
      (spec : CapsuleSpec) (c : H) → create spec ≡ ok c → IsFirst 0 (candidates spec) c
  unfolding create
  create-IsFirst spec c h =
      let (t, valid, rest) = ok_of_chain _ (invalid (validate spec)) h in
      settle_first-IsFirst spec (try_create 0 spec) c refl rest

  All-split :
      (P : CapsuleSpec → Type 0) (before after : List CapsuleSpec) (s : CapsuleSpec)
      (specs : List CapsuleSpec)
      → specs ≡ before ++ s ∷ after
      → All P specs
      → P s
  All-split P before after s specs e hs = All-middle P before after s (rw e at hs)

  -- A candidate's level is at most the primary's.
  abbrev pub IsWithin : CapsuleSpec → CapsuleSpec → Type 0
  IsWithin spec used =
      (security_level used.isolation used.security ≤ security_level spec.isolation spec.security)
      × IsSound used

  below :
      (spec : CapsuleSpec) (chain : List (Isolation × SecurityProfile))
      → All (IsBelow spec) chain
      → All (IsWithin spec) (map (with_fallback spec) chain)
  below spec [] hs = tt
  below spec (f ∷ chain) (h, hs) = (h, below spec chain hs)

  -- The spec of a created capsule is sound, and its security level is not above that of the spec asked for.
  pub create-IsWithin :
      (spec : CapsuleSpec) (c : H)
      → create spec ≡ ok c
      → (n : ℕ) × (used : CapsuleSpec) × (try_create n used ≡ ok c) × IsWithin spec used
  unfolding create
  create-IsWithin spec c h =
      let (t, valid, rest) = ok_of_chain _ (invalid (validate spec)) h in
      let (sound, chain) = (validate_iff spec).0 (invalid-eq-ok (validate spec) valid) in
      let first = create-IsFirst spec c h in
      (
        0 + length first.skipped,
        first.used,
        first.made,
        All-split (IsWithin spec) first.skipped first.later first.used (candidates spec) first.split
            ((omega arith, sound), below spec (chain_of spec) chain),
      )
