-- ===== src/Text/Parts.antt =====
-- Cutting a text at a single character.
use zeptocapsule.Common.{
  ℕ, ◌≡◌, ◌≢◌, refl, [], ◌∷◌, ◌++◌, append-nil, append_assoc, arith, true, false,
}
use zeptocapsule.Text.{Str, split, split_from, starts_with}
use zeptocapsule.Text.Decimal.{Lacks}

not_at : (d c : ℕ) (s : Str) → c ≢ d → starts_with (c ∷ s) (d ∷ []) ≡ false
unfolding starts_with
not_at d c s h = ground (arith, h)

at : (d : ℕ) (s : Str) → starts_with (d ∷ s) (d ∷ []) ≡ true
unfolding starts_with
at d s = ground arith

split_from-end :
    (d : ℕ) (s part : Str) → Lacks d s → split_from (d ∷ []) 0 s part ≡ (part ++ s) ∷ []
unfolding split_from
split_from-end d [] part h = rw append-nil refl
split_from-end d (c ∷ s) part h =
    rw (not_at d c s h.0, split_from, ← append_assoc part (c ∷ []) s)
      (split_from-end d s (part ++ c ∷ []) h.1)

split_from-part :
    (d : ℕ) (s rest part : Str)
    → Lacks d s
    → split_from (d ∷ []) 0 (s ++ d ∷ rest) part ≡ (part ++ s) ∷ split_from (d ∷ []) 0 rest []
unfolding split_from
split_from-part d [] rest part h = rw (at d rest, split_from, append-nil) refl
split_from-part d (c ∷ s) rest part h =
    rw (not_at d c (s ++ d ∷ rest) h.0, split_from, ← append_assoc part (c ∷ []) s)
      (split_from-part d s rest (part ++ c ∷ []) h.1)

-- A text without the character is its only part.
pub split-end : (d : ℕ) (s : Str) → Lacks d s → split (d ∷ []) s ≡ s ∷ []
unfolding split
split-end d s h = split_from-end d s [] h

-- What stands before the first of the characters is the first part.
pub split-part :
    (d : ℕ) (s rest : Str) → Lacks d s → split (d ∷ []) (s ++ d ∷ rest) ≡ s ∷ split (d ∷ []) rest
unfolding split
split-part d s rest h = split_from-part d s rest [] h
