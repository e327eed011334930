-- ===== src/Egress/Slots/Held.antt =====
-- Lists of numbers without repetition.
use zeptocapsule.Common.{ℕ, ◌≡◌, refl, ◌⊎◌, inl, inr, List, [], ◌∷◌, ◌++◌}

abbrev pub Member : ℕ → List ℕ → Type 0
Member s [] = ⊥
Member s (t ∷ ts) = (s ≡ t) ⊎ Member s ts

abbrev pub Distinct : List ℕ → Type 0
Distinct [] = Unit
Distinct (s ∷ ss) = ¬ Member s ss × Distinct ss

pub Member-insert :
    (s t : ℕ) (xs ys : List ℕ) → Member s (xs ++ t ∷ ys) → (s ≡ t) ⊎ Member s (xs ++ ys)
Member-insert s t [] ys h = h
Member-insert s t (x ∷ xs) ys (inl e) = inr (inl e)
Member-insert s t (x ∷ xs) ys (inr h) = elim (Member-insert s t xs ys h) [
  | inl e ↦ inl e
  | inr k ↦ inr (inr k)
]

pub insert-Member : (s t : ℕ) (xs ys : List ℕ) → Member s (xs ++ ys) → Member s (xs ++ t ∷ ys)
insert-Member s t [] ys h = inr h
insert-Member s t (x ∷ xs) ys (inl e) = inl e
insert-Member s t (x ∷ xs) ys (inr h) = inr (insert-Member s t xs ys h)

pub inserted-Member : (t : ℕ) (xs ys : List ℕ) → Member t (xs ++ t ∷ ys)
inserted-Member t [] ys = inl refl
inserted-Member t (x ∷ xs) ys = inr (inserted-Member t xs ys)

pub Distinct-remove : (t : ℕ) (xs ys : List ℕ) → Distinct (xs ++ t ∷ ys) → Distinct (xs ++ ys)
Distinct-remove t [] ys (h, hs) = hs
Distinct-remove t (x ∷ xs) ys (h, hs) =
    ((λ m. h (insert-Member x t xs ys m)), Distinct-remove t xs ys hs)

-- The member that is taken out of a list without repetition is gone.
pub removed : (t : ℕ) (xs ys : List ℕ) → Distinct (xs ++ t ∷ ys) → ¬ Member t (xs ++ ys)
removed t [] ys (h, hs) m = h m
removed t (x ∷ xs) ys (h, hs) (inl e) = h (rw e (inserted-Member x xs ys))
removed t (x ∷ xs) ys (h, hs) (inr m) = removed t xs ys hs m
