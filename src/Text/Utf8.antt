-- ===== src/Text/Utf8.antt =====
-- `str::from_utf8` and `String::into_bytes`: the UTF-8 form of a text.
use zeptocapsule.Common.{
  ℕ, ◌+◌, ◌-◌, ◌*◌, ◌/◌, ◌%◌, ◌<◌, ◌≤◌, ◌⊎◌, All, arith, ◌≡◌, refl, Bool, true, ◌&&◌, Option, none,
  some, List, [], ◌∷◌, ◌++◌, ltb, leb, ◌==◌, if◌then◌else◌,
}
use zeptocapsule.Text.{Str}

abbrev pub Bytes : Type 0
Bytes = List ℕ

-- What is read of a character: `need` bytes are missing, the next one between `lo` and `hi`.
pub record Partial : Type 0 where
  pub need : ℕ
  pub value : ℕ
  pub lo : ℕ
  pub hi : ℕ

-- A byte ends a character, goes on, or is invalid.
pub data Move : Type 0 where
  done : ℕ → Move
  more : Partial → Move
  invalid : Move

abbrev partial : ℕ → ℕ → ℕ → ℕ → Move
partial n v l h = more (record { need = n; value = v; lo = l; hi = h })

first_byte : ℕ → Move
first_byte b =
    if ltb b 0x80
    then done b
    else if leb 0xc2 b && leb b 0xdf
    then partial 1 (b - 0xc0) 0x80 0xbf
    else if b == 0xe0
    then partial 2 0 0xa0 0xbf
    else if b == 0xed
    then partial 2 13 0x80 0x9f
    else if leb 0xe1 b && leb b 0xef
    then partial 2 (b - 0xe0) 0x80 0xbf
    else if b == 0xf0
    then partial 3 0 0x90 0xbf
    else if leb 0xf1 b && leb b 0xf3
    then partial 3 (b - 0xf0) 0x80 0xbf
    else if b == 0xf4
    then partial 3 4 0x80 0x8f
    else invalid

next_byte : Partial → ℕ → Move
next_byte p b =
    if leb p.lo b && leb b p.hi
    then (if p.need == 1
        then done (p.value * 64 + (b - 0x80))
        else partial (p.need - 1) (p.value * 64 + (b - 0x80)) 0x80 0xbf)
    else invalid

move : Option Partial → ℕ → Move
move none b = first_byte b
move (some p) b = next_byte p b

-- the characters of the bytes, from inside a character if one is begun
decode : Bytes → Option Partial → Option Str
decode [] none = some []
decode [] (some p) = none
decode (b ∷ bs) state = elim (move state b) [
  | done c ↦ elim (decode bs none) [ none ↦ none | some s ↦ some (c ∷ s) ]
  | more p ↦ decode bs (some p)
  | invalid ↦ none
]

unfoldable pub from_utf8 : Bytes → Option Str
unfolding decode move first_byte next_byte
from_utf8 bs = decode bs none

unfoldable pub encode_char : ℕ → Bytes
encode_char c =
    if ltb c 0x80
    then c ∷ []
    else if ltb c 0x800
    then (0xc0 + c / 64) ∷ (0x80 + c % 64) ∷ []
    else if ltb c 0x10000
    then (0xe0 + c / 4096) ∷ (0x80 + c / 64 % 64) ∷ (0x80 + c % 64) ∷ []
    else (0xf0 + c / 262144) ∷ (0x80 + c / 4096 % 64) ∷ (0x80 + c / 64 % 64) ∷ (0x80 + c % 64) ∷ []

-- `s.into_bytes()`
unfoldable pub into_bytes : Str → Bytes
unfolding encode_char
into_bytes [] = []
into_bytes (c ∷ s) = encode_char c ++ into_bytes s

-- a Unicode scalar value
abbrev pub IsScalar : ℕ → Type 0
IsScalar c = (c < 0xd800) ⊎ ((0xe000 ≤ c) × (c < 0x110000))

decode-encode_char :
    (c : ℕ) (bs : Bytes)
    → IsScalar c
    → decode (encode_char c ++ bs) none
      ≡ elim (decode bs none) [ none ↦ none | some s ↦ some (c ∷ s) ]
unfolding decode encode_char move first_byte next_byte
decode-encode_char c bs h = ground arith

-- The bytes of a text are decoded to that text.
pub from_utf8-into_bytes : (s : Str) → All IsScalar s → from_utf8 (into_bytes s) ≡ some s
unfolding from_utf8 into_bytes
from_utf8-into_bytes [] h = refl
from_utf8-into_bytes (c ∷ s) h =
    rw (decode-encode_char c (into_bytes s) h.0, from_utf8-into_bytes s h.1)

abbrev pub is_ascii : Str → Bool
is_ascii [] = true
is_ascii (c ∷ s) = ltb c 0x80 && is_ascii s

pub is_ascii→IsScalar : (s : Str) → is_ascii s ≡ true → All IsScalar s
is_ascii→IsScalar [] h = tt
is_ascii→IsScalar (c ∷ s) h = ground (arith, is_ascii→IsScalar s)
