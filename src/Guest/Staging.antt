-- ===== src/Guest/Staging.antt =====
-- What the guest reads of what the host has written.
use zeptocapsule.Common.{
  ℕ, ◌≡◌, ◌≢◌, refl, ap, some, List, [], ◌∷◌, ◌++◌, map, All, arith, if_intro, ltb, false,
}
use zeptocapsule.Common.Result.{ok}
use zeptocapsule.Text.{Str, codes, split, split_once, starts_with}
use zeptocapsule.Text.Decimal.{Lacks}
use zeptocapsule.Text.Search.{Lacks-append}
use zeptocapsule.Text.Parts.{split-part}
use zeptocapsule.Text.Utf8.{
  Bytes, from_utf8, into_bytes, encode_char, IsScalar, from_utf8-into_bytes,
}
use zeptocapsule.Guest.{
  write_nul_delimited_strings, env_entry, decode_chunks, read_nul_delimited_strings, pairs_of,
  read_nul_delimited_key_values,
}

-- A text of characters other than U+0000.
abbrev pub IsPlain : Str → Type 0
IsPlain s = All IsScalar s × Lacks 0 s

-- the texts that are not empty
pub without_empty : List Str → List Str
without_empty [] = []
without_empty ([] ∷ values) = without_empty values
without_empty ((c ∷ value) ∷ values) = (c ∷ value) ∷ without_empty values

encode_char-Lacks : (c : ℕ) → c ≢ 0 → Lacks 0 (encode_char c)
unfolding encode_char
encode_char-Lacks c h = ground (arith, h)

into_bytes-Lacks : (s : Str) → Lacks 0 s → Lacks 0 (into_bytes s)
unfolding into_bytes
into_bytes-Lacks [] h = tt
into_bytes-Lacks (c ∷ s) (h, hs) =
    Lacks-append 0 (encode_char c) (into_bytes s) (encode_char-Lacks c h) (into_bytes-Lacks s hs)

abbrev IsCons : Bytes → Type 0
IsCons bytes = (b : ℕ) × (bs : Bytes) × (bytes ≡ b ∷ bs)

encode_char-IsCons : (c : ℕ) → IsCons (encode_char c)
unfolding encode_char
encode_char-IsCons c =
    if_intro IsCons (ltb c 0x80) (λ h. (_, _, refl))
      (λ h.
        if_intro IsCons (ltb c 0x800) (λ h. (_, _, refl))
          (λ h. if_intro IsCons (ltb c 0x10000) (λ h. (_, _, refl)) (λ h. (_, _, refl))))

into_bytes-IsCons : (c : ℕ) (s : Str) → IsCons (into_bytes (c ∷ s))
unfolding into_bytes
into_bytes-IsCons c s =
    let (b, bs, same) = encode_char-IsCons c in (b, bs ++ into_bytes s, rw same refl)

into_bytes-nil : into_bytes [] ≡ []
unfolding into_bytes
into_bytes-nil = refl

-- a piece that is not empty is decoded
decode_chunks-cons :
    (error value : Str) (values : List Str) (bytes : Bytes) (chunks : List Bytes)
    → IsCons bytes
    → from_utf8 bytes ≡ some value
    → decode_chunks error chunks ≡ ok values
    → decode_chunks error (bytes ∷ chunks) ≡ ok (value ∷ values)
unfolding decode_chunks
decode_chunks-cons error value values [] chunks (b, bs, same) h k = cc
decode_chunks-cons error value values (b ∷ bytes) chunks cons h k = rw (h, k) refl

split-write :
    (value : Str) (values : List Str)
    → Lacks 0 value
    → split (0 ∷ []) (write_nul_delimited_strings (value ∷ values))
      ≡ into_bytes value ∷ split (0 ∷ []) (write_nul_delimited_strings values)
unfolding write_nul_delimited_strings
split-write value values h =
    split-part 0 (into_bytes value) (write_nul_delimited_strings values) (into_bytes-Lacks value h)

-- The guest reads the texts that the host has written, without the empty ones.
pub read-write :
    (error : Str) (values : List Str)
    → All IsPlain values
    → read_nul_delimited_strings error (some (write_nul_delimited_strings values))
      ≡ ok (without_empty values)
unfolding read_nul_delimited_strings without_empty decode_chunks write_nul_delimited_strings split
read-write error [] h = refl
read-write error ([] ∷ values) (h, hs) =
    rw (split-write [] values tt, into_bytes-nil, decode_chunks) (read-write error values hs)
read-write error ((c ∷ value) ∷ values) (h, hs) = rw (split-write (c ∷ value) values h.1) (
    decode_chunks-cons error (c ∷ value) (without_empty values) (into_bytes (c ∷ value)) _
      (into_bytes-IsCons c value) (from_utf8-into_bytes (c ∷ value) h.0)
      (read-write error values hs))

not_equals : (c : ℕ) (s : Str) → c ≢ b'=' → starts_with (c ∷ s) (codes "=") ≡ false
unfolding starts_with
not_equals c s h = ground (arith, h)

split_once-entry :
    (key value : Str)
    → Lacks b'=' key
    → split_once (codes "=") (key ++ b'=' ∷ value) ≡ some (key, value)
unfolding split_once starts_with
split_once-entry [] value h = refl
split_once-entry (c ∷ key) value (h, hs) =
    rw (not_equals c (key ++ b'=' ∷ value) h, split_once-entry key value hs) refl

-- A variable of the environment: its name has no "=", and no character is U+0000.
abbrev pub IsVariable : Str × Str → Type 0
IsVariable (key, value) = Lacks b'=' key × IsPlain (env_entry (key, value))

pairs_of-entries :
    (env : List (Str × Str)) → All IsVariable env → pairs_of (map env_entry env) ≡ env
unfolding pairs_of
pairs_of-entries [] h = refl
pairs_of-entries ((key, value) ∷ env) (h, hs) =
    rw (split_once-entry key value h.0) (ap (λ ps. (key, value) ∷ ps) (pairs_of-entries env hs))

without_empty-entries :
    (env : List (Str × Str)) → without_empty (map env_entry env) ≡ map env_entry env
unfolding without_empty
without_empty-entries [] = refl
without_empty-entries (([], value) ∷ env) =
    ap (λ es. (b'=' ∷ value) ∷ es) (without_empty-entries env)
without_empty-entries ((c ∷ key, value) ∷ env) =
    ap (λ es. (c ∷ (key ++ b'=' ∷ value)) ∷ es) (without_empty-entries env)

entries-IsPlain : (env : List (Str × Str)) → All IsVariable env → All IsPlain (map env_entry env)
entries-IsPlain [] h = tt
entries-IsPlain (pair ∷ env) (h, hs) = (h.1, entries-IsPlain env hs)

-- The guest reads the environment that the host has written, also variables whose value is empty or has a "=".
pub read_key_values-write :
    (error : Str) (env : List (Str × Str))
    → All IsVariable env
    → read_nul_delimited_key_values error (some (write_nul_delimited_strings (map env_entry env)))
      ≡ ok env
unfolding read_nul_delimited_key_values
read_key_values-write error env h =
    rw
      (
        read-write error (map env_entry env) (entries-IsPlain env h),
        without_empty-entries env,
        pairs_of-entries env h,
      )
      refl
