-- ===== src/Text/Laws.antt =====
-- Laws of the text operations: equality, case folding and suffixes.
use zeptocapsule.Common.{ℕ, ◌≡◌, refl, ap, ◌↔◌, inl, inr, true, [], ◌∷◌, ◌++◌, arith, Bool-cases}
use zeptocapsule.Text.{
  Str, str_eq, to_lower, to_upper, to_ascii_lowercase, to_ascii_uppercase, ends_with, starts_with,
}

pub str_eq→eq : (s t : Str) → str_eq s t ≡ true → s ≡ t
unfolding str_eq
str_eq→eq [] [] h = refl
str_eq→eq [] (d ∷ t) h = ground arith
str_eq→eq (c ∷ s) [] h = ground arith
str_eq→eq (c ∷ s) (d ∷ t) h = ground (arith, str_eq→eq s t)

pub str_eq_refl : (s : Str) → str_eq s s ≡ true
unfolding str_eq
str_eq_refl [] = refl
str_eq_refl (c ∷ s) = ground (arith, str_eq_refl s)

pub str_eq_iff : (s t : Str) → (str_eq s t ≡ true) ↔ (s ≡ t)
str_eq_iff s t = (str_eq→eq s t, λ e. cc (str_eq_refl t, ap (λ u. str_eq u t) e))

to_lower_idem : (c : ℕ) → to_lower (to_lower c) ≡ to_lower c
unfolding to_lower
to_lower_idem c = ground arith

to_lower-to_upper : (c : ℕ) → to_lower (to_upper c) ≡ to_lower c
unfolding to_lower to_upper
to_lower-to_upper c = ground arith

pub to_ascii_lowercase_idem :
    (s : Str) → to_ascii_lowercase (to_ascii_lowercase s) ≡ to_ascii_lowercase s
unfolding to_ascii_lowercase
to_ascii_lowercase_idem [] = refl
to_ascii_lowercase_idem (c ∷ s) = cc (to_lower_idem c, to_ascii_lowercase_idem s)

pub lowercase-uppercase :
    (s : Str) → to_ascii_lowercase (to_ascii_uppercase s) ≡ to_ascii_lowercase s
unfolding to_ascii_lowercase to_ascii_uppercase
lowercase-uppercase [] = refl
lowercase-uppercase (c ∷ s) = cc (to_lower-to_upper c, lowercase-uppercase s)

-- What `ends_with` and `starts_with` test.
abbrev pub IsSuffix : Str → Str → Type 0
IsSuffix p s = (front : Str) × (s ≡ front ++ p)

abbrev pub IsPrefix : Str → Str → Type 0
IsPrefix p s = (rest : Str) × (s ≡ p ++ rest)

pub ends_with→IsSuffix : (s p : Str) → ends_with s p ≡ true → IsSuffix p s
unfolding ends_with
ends_with→IsSuffix [] p h = ([], str_eq→eq [] p h)
ends_with→IsSuffix (c ∷ s) p h = elim (Bool-cases (str_eq (c ∷ s) p)) [
  | inl e ↦ ([], str_eq→eq (c ∷ s) p e)
  | inr n ↦
      let (front, eq) = ends_with→IsSuffix s p (ground (arith, n)) in
      (c ∷ front, ap (λ t. c ∷ t) eq)
]

pub ends_with_self : (p : Str) → ends_with p p ≡ true
unfolding ends_with
ends_with_self [] = str_eq_refl []
ends_with_self (c ∷ p) = ground (arith, str_eq_refl (c ∷ p))

pub ends_with-append : (front p : Str) → ends_with (front ++ p) p ≡ true
unfolding ends_with
ends_with-append [] p = ends_with_self p
ends_with-append (c ∷ front) p = ground (arith, ends_with-append front p)

pub ends_with_iff : (s p : Str) → (ends_with s p ≡ true) ↔ IsSuffix p s
ends_with_iff s p = (ends_with→IsSuffix s p, λ h. rw h.1 (ends_with-append h.0 p))

pub starts_with→IsPrefix : (s p : Str) → starts_with s p ≡ true → IsPrefix p s
unfolding starts_with
starts_with→IsPrefix s [] h = (s, refl)
starts_with→IsPrefix [] (d ∷ p) h = cc
starts_with→IsPrefix (c ∷ s) (d ∷ p) h =
    let (rest, eq) = starts_with→IsPrefix s p (ground arith) in (rest, ground (arith, eq))

pub starts_with-append : (p rest : Str) → starts_with (p ++ rest) p ≡ true
unfolding starts_with
starts_with-append [] rest = refl
starts_with-append (d ∷ p) rest = ground (arith, starts_with-append p rest)

pub starts_with_iff : (s p : Str) → (starts_with s p ≡ true) ↔ IsPrefix p s
starts_with_iff s p = (starts_with→IsPrefix s p, λ h. rw h.1 (starts_with-append p h.0))
