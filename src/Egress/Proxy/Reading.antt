-- ===== src/Egress/Proxy/Reading.antt =====
-- `read_until_double_crlf` and its twin on the tunnel: the head is read up to its empty line, with a cap.
mod Tests
use zeptocapsule.Common.{
  ℕ, zero, suc, ◌+◌, ◌*◌, ◌≤◌, ◌<◌, ◌≡◌, ◌≢◌, refl, Bool, true, false, ◌||◌, Bool-cases, ◌⊎◌, inl,
  inr, Option, none, some, List, [], ◌∷◌, ◌++◌, length, length-append, All, ltb, ltb-eq-false,
  if◌then◌else◌, arith,
}
use zeptocapsule.Common.Result.{Result, ok, err}
use zeptocapsule.Text.{Str, codes, starts_with}
use zeptocapsule.Text.Utf8.{Bytes}
use zeptocapsule.Egress.Proxy.{ProxyError, bad_request}

abbrev pub max_header_bytes : ℕ
max_header_bytes = 16 * 1024

-- `buf.windows(4).any(|w| w == b"\r\n\r\n")`
unfoldable pub has_end : Bytes → Bool
has_end [] = false
has_end (b ∷ bytes) = starts_with (b ∷ bytes) (codes "\r\n\r\n") || has_end bytes

abbrev pub Read : Type 0
Read = Result ProxyError Bytes

-- one turn of the loop, on what a read gave; `more` is the rest of the loop
unfoldable pub read_turn : Str → Bytes → Read → (Bytes → Option Read) → Option Read
read_turn which buf (err e) more = some (err e)
read_turn which buf (ok []) more =
    some (err (bad_request (codes "eof before " ++ which ++ codes "headers")))
read_turn which buf (ok (b ∷ chunk)) more =
    let grown = buf ++ b ∷ chunk in
    let rest = more grown in
    if has_end grown
    then some (ok grown)
    else if ltb max_header_bytes (length grown)
    then some (err (bad_request (which ++ codes "headers too large")))
    else rest

-- The results of the reads are given, and there is no result where they run out. `which` is "" or "inner ".
unfoldable pub read_until_double_crlf : Str → List Read → Bytes → Option Read
read_until_double_crlf which [] buf = none
read_until_double_crlf which (r ∷ reads) buf =
    read_turn which buf r (read_until_double_crlf which reads)

-- a read gives at most 1024 bytes
abbrev pub IsSmall : Read → Type 0
IsSmall (ok chunk) = length chunk ≤ 1024
IsSmall (err e) = Unit

-- how a turn that returns bytes went
turn-eq-ok :
    (which : Str) (buf : Bytes) (r : Read) (more : Bytes → Option Read) (out : Bytes)
    → IsSmall r
    → length buf ≤ max_header_bytes
    → read_turn which buf r more ≡ some (ok out)
    → ((has_end out ≡ true) × (length out ≤ max_header_bytes + 1024))
      ⊎ ((next : Bytes) × (length next ≤ max_header_bytes) × (more next ≡ some (ok out)))
unfolding read_turn
turn-eq-ok which buf (err e) more out small cap h = cc
turn-eq-ok which buf (ok []) more out small cap h = cc
turn-eq-ok which buf (ok (b ∷ chunk)) more out small cap h =
    elim (Bool-cases (has_end (buf ++ b ∷ chunk))) [
      | inl ends ↦
          (let k : ◌≡◌ {A = Option Read} (some (ok (buf ++ b ∷ chunk))) (some (ok out)) =
              rw ends at h in
            let same : buf ++ b ∷ chunk ≡ out = cc in
            let size = length-append buf (b ∷ chunk) in
            inl (rw (← same) ends, rw (← same) (omega (arith, size, small, cap))))
      | inr unended ↦ elim (Bool-cases (ltb max_header_bytes (length (buf ++ b ∷ chunk)))) [
        | inl large ↦
            (let k : ◌≡◌ {A = Option Read}
                  (some (err (bad_request (which ++ codes "headers too large")))) (some (ok out)) =
                rw (unended, large) at h in
              cc)
        | inr fits ↦ inr (buf ++ b ∷ chunk, ltb-eq-false fits, rw (unended, fits) at h)
      ]
    ]

-- What is returned has the end of a head, and is at most 1024 bytes above the cap.
pub read_until_double_crlf_bounds :
    (which : Str) (reads : List Read) (buf out : Bytes)
    → All IsSmall reads
    → length buf ≤ max_header_bytes
    → read_until_double_crlf which reads buf ≡ some (ok out)
    → (has_end out ≡ true) × (length out ≤ max_header_bytes + 1024)
unfolding read_until_double_crlf
read_until_double_crlf_bounds which [] buf out small cap h = cc
read_until_double_crlf_bounds which (r ∷ reads) buf out (s, small) cap h =
    elim (turn-eq-ok which buf r (read_until_double_crlf which reads) out s cap h) [
      | inl done ↦ done
      | inr (next, cap', h') ↦ read_until_double_crlf_bounds which reads next out small cap' h'
    ]

turn-eq-none :
    (which : Str) (buf : Bytes) (r : Read) (more : Bytes → Option Read)
    → read_turn which buf r more ≡ none
    → (next : Bytes) × (length buf < length next)
      × (length next ≤ max_header_bytes)
      × (more next ≡ none)
unfolding read_turn
turn-eq-none which buf (err e) more h = cc
turn-eq-none which buf (ok []) more h = cc
turn-eq-none which buf (ok (b ∷ chunk)) more h = elim (Bool-cases (has_end (buf ++ b ∷ chunk))) [
  | inl ends ↦
      (let k : ◌≡◌ {A = Option Read} (some (ok (buf ++ b ∷ chunk))) none = rw ends at h in cc)
  | inr unended ↦ elim (Bool-cases (ltb max_header_bytes (length (buf ++ b ∷ chunk)))) [
    | inl large ↦
        (let k : ◌≡◌ {A = Option Read}
              (some (err (bad_request (which ++ codes "headers too large")))) none =
            rw (unended, large) at h in
          cc)
    | inr fits ↦ (
      buf ++ b ∷ chunk,
      omega (arith, length-append buf (b ∷ chunk)),
      ltb-eq-false fits,
      rw (unended, fits) at h,
    )
  ]
]

-- The loop ends: it has a result after one read more than the cap has bytes.
pub read_until_double_crlf_ends :
    (which : Str) (reads : List Read) (buf : Bytes)
    → length buf ≤ max_header_bytes
    → max_header_bytes < length buf + length reads
    → read_until_double_crlf which reads buf ≢ none
unfolding read_until_double_crlf
read_until_double_crlf_ends which [] buf cap enough = absurd (omega (arith, cap, enough))
read_until_double_crlf_ends which (r ∷ reads) buf cap enough = λ h.
    let (next, grows, cap', h') = turn-eq-none which buf r (read_until_double_crlf which reads) h in
    read_until_double_crlf_ends which reads next cap' (omega (arith, grows, enough)) h'
