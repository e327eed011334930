-- ===== src/Process/Merged.antt =====
-- The two ways in which the gate's environment is merged with the caller's: `cmd.env` in the process
-- backend, and `entry(..).or_insert(..)` in the two others.
use zeptocapsule.Common.{
  true, false, Option, none, some, List, [], ◌∷◌, ◌++◌, if◌then◌else◌, ◌≡◌, refl, ◌∙◌, sym, inl,
  inr, Bool-cases, Bool_ext, by_bool, by_option,
}
use zeptocapsule.Text.{Str, str_eq}
use zeptocapsule.Text.Laws.{str_eq→eq, str_eq_refl}
use zeptocapsule.Process.{set_env, set_all}
use zeptocapsule.Firecracker.Handle.{has_key, or_insert_all}

-- the value of a name: that of its first entry
unfoldable pub lookup : Str → List (Str × Str) → Option Str
lookup j [] = none
lookup j ((k, v) ∷ env) = let rest = lookup j env in if str_eq j k then some v else rest

abbrev pub or : Option Str → Option Str → Option Str
or none other = other
or (some v) other = some v

-- no name twice, as in a map
abbrev pub IsMap : List (Str × Str) → Type 0
IsMap [] = Unit {0}
IsMap ((k, v) ∷ env) = (has_key k env ≡ false) × IsMap env

-- two texts are equal or not, whichever way they are compared
str_eq_comm : (s t : Str) → str_eq s t ≡ str_eq t s
str_eq_comm s t =
    Bool_ext (str_eq s t) (str_eq t s) (λ h. rw (str_eq→eq s t h) (str_eq_refl t))
      (λ h. rw (str_eq→eq t s h) (str_eq_refl s))

-- A name is equal to at most one of two that differ.
other_key :
    (j k l v w : Str) (rest : Option Str)
    → str_eq k l ≡ false
    → (if str_eq j l then some w else (if str_eq j k then some v else rest))
      ≡ (if str_eq j k then some v else (if str_eq j l then some w else rest))
other_key j k l v w rest apart = elim (Bool-cases (str_eq j l)) [
  | inr a ↦ rw a refl
  | inl a ↦ elim (Bool-cases (str_eq j k)) [
    | inr b ↦ rw (a, b) refl
    | inl b ↦
        let same : k ≡ l = sym (str_eq→eq j k b) ∙ str_eq→eq j l a in
        let equal : str_eq k l ≡ true = rw same (str_eq_refl l) in cc
  ]
]

lookup-set_env :
    (j k v : Str) (env : List (Str × Str))
    → lookup j (set_env k v env) ≡ (if str_eq j k then some v else lookup j env)
unfolding lookup set_env
lookup-set_env j k v [] = refl
lookup-set_env j k v ((l, w) ∷ env) = elim (Bool-cases (str_eq k l)) [
  | inl e ↦ rw e (
      rw (str_eq→eq k l e) (
        by_bool
          (λ b.
            (if b then some v else lookup j env)
            ≡ (if b then some v else (if b then some w else lookup j env)))
          refl refl (str_eq j l)))
  | inr apart ↦ rw apart (rw (lookup-set_env j k v env) (other_key j k l v w (lookup j env) apart))
]

lookup-append :
    (j : Str) (env more : List (Str × Str))
    → lookup j (env ++ more) ≡ or (lookup j env) (lookup j more)
unfolding lookup
lookup-append j [] more = refl
lookup-append j ((k, v) ∷ env) more = elim (Bool-cases (str_eq j k)) [
  | inl a ↦ rw a refl
  | inr a ↦ rw a (lookup-append j env more)
]

has_key→lookup : (j : Str) (env : List (Str × Str)) → has_key j env ≡ false → lookup j env ≡ none
unfolding lookup
has_key→lookup j [] h = refl
has_key→lookup j ((k, v) ∷ env) h = elim (Bool-cases (str_eq j k)) [
  | inl a ↦ cc
  | inr a ↦ rw a (has_key→lookup j env (sym (rw a refl) ∙ h))
]

has_key-lookup :
    (j : Str) (env : List (Str × Str)) → has_key j env ≡ true → (v : Str) × (lookup j env ≡ some v)
unfolding lookup
has_key-lookup j [] h = absurd (cc)
has_key-lookup j ((k, v) ∷ env) h = elim (Bool-cases (str_eq j k)) [
  | inl a ↦ (v, rw a refl)
  | inr a ↦ let (w, found) = has_key-lookup j env (sym (rw a refl) ∙ h) in (w, rw a found)
]

-- `entry(k).or_insert(v)`: what is there stays
lookup-or_insert_all :
    (j : Str) (env more : List (Str × Str))
    → lookup j (or_insert_all env more) ≡ or (lookup j env) (lookup j more)
unfolding or_insert_all lookup
lookup-or_insert_all j env [] = by_option (λ o. o ≡ or o none) refl (λ v. refl) (lookup j env)
lookup-or_insert_all j env ((k, v) ∷ more) = elim (Bool-cases (has_key k env)) [
  | inl there ↦
      let (w, found) = has_key-lookup k env there in
      rw there (
        lookup-or_insert_all j env more ∙ (elim (Bool-cases (str_eq j k)) [
          | inl a ↦
              let here : lookup j env ≡ some w = rw (str_eq→eq j k a) found in rw (a, here) refl
          | inr a ↦ rw a refl
        ]))
  | inr absent ↦ rw absent (
      lookup-or_insert_all j (env ++ (k, v) ∷ []) more
      ∙ (rw (lookup-append j env ((k, v) ∷ [])) (
          by_option
            (λ o.
              or (or o (if str_eq j k then some v else none)) (lookup j more)
              ≡ or o (if str_eq j k then some v else lookup j more))
            (by_bool
              (λ b.
                or (if b then some v else none) (lookup j more)
                ≡ (if b then some v else lookup j more))
              refl refl (str_eq j k))
            (λ w. refl) (lookup j env))))
]

-- of names that occur once, the latest value is the only one
lookup-set_all :
    (j : Str) (base more : List (Str × Str))
    → IsMap more
    → lookup j (set_all base more) ≡ or (lookup j more) (lookup j base)
unfolding set_all lookup
lookup-set_all j base [] map = refl
lookup-set_all j base ((k, v) ∷ more) (once, map) =
    lookup-set_all j (set_env k v base) more map
    ∙ (rw (lookup-set_env j k v base) (elim (Bool-cases (str_eq j k)) [
      | inr a ↦ rw a refl
      | inl a ↦
          let gone : lookup j more ≡ none = rw (str_eq→eq j k a) (has_key→lookup k more once) in
          rw (a, gone) refl
    ]))

-- Of an environment and a gate's environment that have no name twice, the value of a name is the same
-- whether the gate's is set first, in a command whose own variables are none, and the caller's over it, or
-- the caller's is kept and the gate's added. It is the caller's value, or else the gate's.
pub lookup-merged :
    (j : Str) (env gate : List (Str × Str))
    → IsMap env
    → IsMap gate
    → (lookup j (set_all (set_all [] gate) env) ≡ lookup j (or_insert_all env gate))
      × (lookup j (or_insert_all env gate) ≡ or (lookup j env) (lookup j gate))
unfolding lookup
lookup-merged j env gate env_map gate_map = (
  lookup-set_all j (set_all [] gate) env env_map
      ∙ (rw (lookup-set_all j [] gate gate_map) (
          rw (lookup-or_insert_all j env gate) (
            by_option (λ o. or (lookup j env) (or o none) ≡ or (lookup j env) o) refl (λ v. refl)
              (lookup j gate)))),
  lookup-or_insert_all j env gate,
)
