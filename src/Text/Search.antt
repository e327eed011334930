-- ===== src/Text/Search.antt =====
-- Searching for a character, and cutting a text at it.
use native.Mathlib.Numerals.{add-one}
use zeptocapsule.Common.{
  zero, List, Bool-cases, inl, inr, ◌-◌, ℕ, suc, ◌+◌, ◌≡◌, refl, ap, none, some, [], ◌∷◌, ◌++◌,
  arith, length, take, drop,
}
use zeptocapsule.Text.{Str, find, rfind, first_part, starts_with, split_from, split}
use zeptocapsule.Text.Decimal.{Lacks}

pub take-append : (a b : Str) → take (length a) (a ++ b) ≡ a
take-append [] b = refl
take-append (c ∷ a) b = ap (λ t. c ∷ t) (take-append a b)

pub drop-append : (a b : Str) → drop (length a) (a ++ b) ≡ b
drop-append [] b = refl
drop-append (c ∷ a) b = drop-append a b

pub find_absent : (c : ℕ) (a : Str) → Lacks c a → find c a ≡ none
unfolding find
find_absent c [] h = refl
find_absent c (d ∷ a) h = ground (arith, find_absent c a h.1)

pub find-append : (c : ℕ) (a b : Str) → Lacks c a → find c (a ++ c ∷ b) ≡ some (length a)
unfolding find
find-append c [] b h = ground arith
find-append c (d ∷ a) b h = ground (arith, find-append c a b h.1)

pub rfind_absent : (c : ℕ) (a : Str) → Lacks c a → rfind c a ≡ none
unfolding rfind
rfind_absent c [] h = refl
rfind_absent c (d ∷ a) h = ground (arith, rfind_absent c a h.1)

pub rfind-append : (c : ℕ) (a b : Str) → Lacks c b → rfind c (a ++ c ∷ b) ≡ some (length a)
unfolding rfind
rfind-append c [] b h = ground (arith, rfind_absent c b h)
rfind-append c (d ∷ a) b h = ground (arith, rfind-append c a b h)

pub first_part-append : (c : ℕ) (a b : Str) → Lacks c a → first_part c (a ++ c ∷ b) ≡ a
unfolding first_part
first_part-append c [] b h = ground arith
first_part-append c (d ∷ a) b h = ground (arith, first_part-append c a b h.1)

pub first_part_absent : (c : ℕ) (a : Str) → Lacks c a → first_part c a ≡ a
unfolding first_part
first_part_absent c [] h = refl
first_part_absent c (d ∷ a) h = ground (arith, first_part_absent c a h.1)

drop_past_suc : (a : Str) (c : ℕ) (b : Str) → drop (suc (length a)) (a ++ c ∷ b) ≡ b
drop_past_suc [] c b = refl
drop_past_suc (d ∷ a) c b = drop_past_suc a c b

pub drop_past : (a : Str) (c : ℕ) (b : Str) → drop (length a + 1) (a ++ c ∷ b) ≡ b
drop_past a c b = rw add-one (drop_past_suc a c b)

pub Lacks-append : (c : ℕ) (a b : Str) → Lacks c a → Lacks c b → Lacks c (a ++ b)
Lacks-append c [] b h k = k
Lacks-append c (d ∷ a) b h k = (h.0, Lacks-append c a b h.1 k)

split_from-eq-cons :
    (p : Str) (skip : ℕ) (s part : Str)
    → (first : Str) × (rest : List Str) × (split_from p skip s part ≡ first ∷ rest)
unfolding split_from
split_from-eq-cons p skip [] part = (part, [], refl)
split_from-eq-cons p (suc skip) (c ∷ s) part = split_from-eq-cons p skip s part
split_from-eq-cons p zero (c ∷ s) part = elim (Bool-cases (starts_with (c ∷ s) p)) [
  | inl cut ↦ (part, split_from p (length p - 1) s [], rw (cut, split_from))
  | inr goes_on ↦
      let (first, rest, same) = split_from-eq-cons p zero s (part ++ c ∷ []) in
      (first, rest, rw (goes_on, split_from) same)
]

-- `split` gives at least one part.
pub split-eq-cons : (p s : Str) → (first : Str) × (rest : List Str) × (split p s ≡ first ∷ rest)
unfolding split
split-eq-cons p s = split_from-eq-cons p 0 s []
