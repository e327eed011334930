-- ===== src/Text.antt =====
-- What the program uses of Rust's `str`: a text is the list of its characters' code points, so that
-- an index into it counts characters where Rust counts bytes; the texts cut out are the same.
pub mod Laws
pub mod Decimal
pub mod Search
pub mod Lines
pub mod Parts
pub mod Utf8
pub mod Path
pub mod Words
use Prim.Native.Char.{code}
use zeptocapsule.Common.{
  ℕ, zero, suc, ◌+◌, ◌-◌, ◌*◌, ◌/◌, ◌%◌, String, Bool, true, false, ◌&&◌, ◌||◌, Option, none, some,
  List, [], ◌∷◌, ◌++◌, map, leb, ◌==◌, if◌then◌else◌, drop, length,
}

abbrev pub Str : Type 0
Str = List ℕ

-- The text of a literal.
abbrev pub codes : String → Str
codes String.[] = []
codes (String.◌∷◌ c s) = code c ∷ codes s

unfoldable pub str_eq : Str → Str → Bool
str_eq [] [] = true
str_eq [] (d ∷ t) = false
str_eq (c ∷ s) [] = false
str_eq (c ∷ s) (d ∷ t) = c == d && str_eq s t

-- `u8::to_ascii_lowercase` and `u8::to_ascii_uppercase`
unfoldable pub to_lower : ℕ → ℕ
to_lower c = if leb b'A' c && leb c b'Z' then c + 32 else c

unfoldable pub to_upper : ℕ → ℕ
to_upper c = if leb b'a' c && leb c b'z' then c - 32 else c

unfoldable pub to_ascii_lowercase : Str → Str
unfolding to_lower
to_ascii_lowercase = map to_lower

unfoldable pub to_ascii_uppercase : Str → Str
unfolding to_upper
to_ascii_uppercase = map to_upper

unfoldable pub eq_ignore_ascii_case : Str → Str → Bool
unfolding str_eq to_ascii_lowercase
eq_ignore_ascii_case s t = str_eq (to_ascii_lowercase s) (to_ascii_lowercase t)

-- `s.starts_with(p)`
unfoldable pub starts_with : Str → Str → Bool
starts_with s [] = true
starts_with [] (d ∷ p) = false
starts_with (c ∷ s) (d ∷ p) = c == d && starts_with s p

-- `s.ends_with(p)`: some tail of `s` is `p`.
unfoldable pub ends_with : Str → Str → Bool
unfolding str_eq
ends_with [] p = str_eq [] p
ends_with (c ∷ s) p = str_eq (c ∷ s) p || ends_with s p

-- `s.find(c)` and `s.rfind(c)` for a character
unfoldable pub find : ℕ → Str → Option ℕ
find c [] = none
find c (d ∷ s) = if c == d then some 0 else elim (find c s) [ none ↦ none | some i ↦ some (suc i) ]

unfoldable pub rfind : ℕ → Str → Option ℕ
rfind c [] = none
rfind c (d ∷ s) = elim (rfind c s) [
  | none ↦ (if c == d then some 0 else none)
  | some i ↦ some (suc i)
]

-- `s.split_once(p)` for a text `p` that is not empty
unfoldable pub split_once : Str → Str → Option (Str × Str)
unfolding starts_with
split_once p [] = none
split_once p (c ∷ s) =
    let rest = split_once p s in
    if starts_with (c ∷ s) p
    then some ([], drop (length p) (c ∷ s))
    else elim rest [ none ↦ none | some (a, b) ↦ some (c ∷ a, b) ]

-- `s.split(c).next()`, which is never `None`
unfoldable pub first_part : ℕ → Str → Str
first_part c [] = []
first_part c (d ∷ s) = if c == d then [] else d ∷ first_part c s

-- `char::is_whitespace`: the characters with the Unicode property White_Space
unfoldable pub is_whitespace : ℕ → Bool
is_whitespace c =
    (leb 9 c && leb c 13)
    || c == 32
    || c == 0x85
    || c == 0xa0
    || c == 0x1680
    || (leb 0x2000 c && leb c 0x200a)
    || c == 0x2028
    || c == 0x2029
    || c == 0x202f
    || c == 0x205f
    || c == 0x3000

unfoldable pub trim_start : Str → Str
unfolding is_whitespace
trim_start [] = []
trim_start (c ∷ s) = if is_whitespace c then trim_start s else c ∷ s

unfoldable pub trim_end : Str → Str
unfolding is_whitespace
trim_end [] = []
trim_end (c ∷ s) = elim (trim_end s) [
  | [] ↦ if is_whitespace c then [] else c ∷ []
  | d ∷ t ↦ c ∷ d ∷ t
]

unfoldable pub trim : Str → Str
unfolding trim_start trim_end
trim s = trim_end (trim_start s)

unfoldable pub is_digit : ℕ → Bool
is_digit c = leb b'0' c && leb c b'9'

-- the digits of an unsigned number that may be at most `max`
unfoldable pub scan_digits : ℕ → Str → ℕ → Option ℕ
unfolding is_digit
scan_digits max [] n = some n
scan_digits max (c ∷ s) n =
    let next = n * 10 + (c - b'0') in
    let rest = scan_digits max s next in
    if is_digit c then (if leb next max then rest else none) else none

-- `s.parse::<uN>()`, where `max` is the type's largest value: one sign `+` is accepted
unfoldable pub parse_uint : ℕ → Str → Option ℕ
unfolding scan_digits
parse_uint max [] = none
parse_uint max (c ∷ []) = scan_digits max (c ∷ []) 0
parse_uint max (c ∷ d ∷ s) =
    if c == b'+' then scan_digits max (d ∷ s) 0 else scan_digits max (c ∷ d ∷ s) 0

-- the decimal digits of a number, before `out`; the fuel bounds the number of digits
digits : ℕ → ℕ → Str → Str
digits zero n out = out
digits (suc fuel) n out =
    let more = digits fuel (n / 10) ((b'0' + n % 10) ∷ out) in if n == 0 then out else more

-- `n.to_string()`
unfoldable pub decimal : ℕ → Str
unfolding digits
decimal n = if n == 0 then b'0' ∷ [] else digits n n []

-- `s.split(p)` for a text `p` that is not empty: `skip` characters of a separator are left, and
-- `part` is the current part.
split_from : Str → ℕ → Str → Str → List Str
split_from p skip [] part = part ∷ []
split_from p (suc skip) (c ∷ s) part = split_from p skip s part
split_from p zero (c ∷ s) part = elim (starts_with (c ∷ s) p) [
  | true ↦ part ∷ split_from p (length p - 1) s []
  | false ↦ split_from p zero s (part ++ c ∷ [])
]

unfoldable pub split : Str → Str → List Str
unfolding split_from starts_with
split p s = split_from p 0 s []
