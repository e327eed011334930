-- ===== src/Guest/Config/Stage.antt =====
-- The files of the image's stage directory, as the host names them and as the guest does.
use zeptocapsule.Common.{
  ℕ, false, Bool-cases, [], ◌∷◌, ◌++◌, ◌&&◌, if◌then◌else◌, ◌==◌, ◌≡◌, refl, ◌∙◌, sym, ap,
  append_assoc, inl, inr, by_bool, arith,
}
use zeptocapsule.Text.{
  Str, codes, str_eq, starts_with, ends_with, trim, trim_start, trim_end, is_whitespace,
}
use zeptocapsule.Text.Path.{join, is_absolute, trim_start_matches_slash}

abbrev pub stage_of : Str → Str
stage_of point = join point (codes "run/zeptocapsule")

-- A text that ends in a letter does not end in a slash.
two_letters : (d c : ℕ) (s rest : Str) → str_eq (d ∷ (s ++ c ∷ rest)) (codes "/") ≡ false
unfolding str_eq
two_letters d c [] rest = by_bool (λ b. b && false ≡ false) refl refl (d == 47)
two_letters d c (e ∷ s) rest = by_bool (λ b. b && false ≡ false) refl refl (d == 47)

ends_with_letter :
    (s rest : Str) (c : ℕ)
    → ends_with (c ∷ rest) (codes "/") ≡ false
    → ends_with (s ++ c ∷ rest) (codes "/") ≡ false
unfolding ends_with
ends_with_letter [] rest c h = h
ends_with_letter (d ∷ s) rest c h = rw (two_letters d c s rest) (ends_with_letter s rest c h)

-- what a relative name is put behind, without its first character
root_tail : ℕ → Str → Str
root_tail c s = if ends_with (c ∷ s) (codes "/") then s else s ++ codes "/"

join-relative :
    (c : ℕ) (s name : Str)
    → is_absolute name ≡ false
    → join (c ∷ s) name ≡ c ∷ (root_tail c s ++ name)
unfolding join root_tail
join-relative c s name h = elim (Bool-cases (ends_with (c ∷ s) (codes "/"))) [
  | inl e ↦ rw (h, e) refl
  | inr e ↦ rw (h, e) refl
]

join-plain :
    (c : ℕ) (s name : Str)
    → ends_with (c ∷ s) (codes "/") ≡ false
    → is_absolute name ≡ false
    → join (c ∷ s) name ≡ c ∷ (s ++ (codes "/" ++ name))
unfolding join
join-plain c s name e h = rw (h, e) (ap (λ (t : Str). c ∷ t) (append_assoc s (codes "/") name))

stage_end : (t : Str) → ends_with (t ++ codes "run/zeptocapsule") (codes "/") ≡ false
unfolding ends_with str_eq
stage_end t = ends_with_letter t (codes "un/zeptocapsule") b'r' refl

join-stage :
    (c : ℕ) (s name : Str)
    → is_absolute name ≡ false
    → join (stage_of (c ∷ s)) name ≡ c ∷ (root_tail c s ++ (codes "run/zeptocapsule/" ++ name))
unfolding is_absolute starts_with
join-stage c s name h =
    let t = root_tail c s in
    rw (join-relative c s (codes "run/zeptocapsule") refl) (
      join-plain c (t ++ codes "run/zeptocapsule") name (stage_end (c ∷ t)) h
      ∙ ap (λ (t : Str). c ∷ t) (append_assoc t (codes "run/zeptocapsule") (codes "/" ++ name)))

-- The guest's name for a file of the stage directory, put behind the mount point, is the host's.
pub stage_path :
    (c : ℕ) (s name : Str)
    → is_absolute name ≡ false
    → join (c ∷ s) (trim_start_matches_slash (codes "/run/zeptocapsule/" ++ name))
      ≡ join (stage_of (c ∷ s)) name
unfolding trim_start_matches_slash is_absolute starts_with
stage_path c s name h =
    join-relative c s (codes "run/zeptocapsule/" ++ name) refl ∙ sym (join-stage c s name h)

str_eq-append : (p a b : Str) → str_eq (p ++ a) (p ++ b) ≡ str_eq a b
unfolding str_eq
str_eq-append [] a b = refl
str_eq-append (c ∷ p) a b = ground (arith, str_eq-append p a b)

-- Two files of the stage directory are the same if their names are.
pub str_eq-stage_path :
    (c : ℕ) (s a b : Str)
    → is_absolute a ≡ false
    → is_absolute b ≡ false
    → str_eq (join (stage_of (c ∷ s)) a) (join (stage_of (c ∷ s)) b) ≡ str_eq a b
str_eq-stage_path c s a b h k =
    rw (join-stage c s a h, join-stage c s b k)
      (str_eq-append (c ∷ root_tail c s) (codes "run/zeptocapsule/" ++ a)
          (codes "run/zeptocapsule/" ++ b)
        ∙ str_eq-append (codes "run/zeptocapsule/") a b)

-- a text without white space at its ends
abbrev pub IsTrimmed : Str → Type 0
IsTrimmed [] = ⊥
IsTrimmed (c ∷ s) = (is_whitespace c ≡ false) × (trim_end (c ∷ s) ≡ c ∷ s)

trim_end-line : (s : Str) → trim_end (s ++ codes "\n") ≡ trim_end s
unfolding trim_end is_whitespace
trim_end-line [] = refl
trim_end-line (c ∷ s) =
    ap (λ (t : Str). elim t [ [] ↦ if is_whitespace c then [] else c ∷ [] | d ∷ t ↦ c ∷ d ∷ t ])
      (trim_end-line s)

pub trim-line : (s : Str) → IsTrimmed s → trim (s ++ codes "\n") ≡ s
unfolding trim trim_start
trim-line [] h = absurd h
trim-line (c ∷ s) (h, k) = rw h (trim_end-line (c ∷ s) ∙ k)
