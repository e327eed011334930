-- ===== src/Egress/Judge/Post.antt =====
-- `do_post` of src/egress/judge.rs: the request to the endpoint, and its response.
use zeptocapsule.Common.{
  ◌<◌, ap, ltb→lt, Option-cases, ◌↔◌, sym, append-nil, ℕ, ◌*◌, ◌≤◌, ◌≡◌, refl, Bool, true, false,
  Bool-cases, inl, inr, Option, none, some, List, [], ◌∷◌, ◌++◌, append_assoc, map, length,
  length-append, All, ltb, leb, ltb-eq-false, if◌then◌else◌, arith, ◌&&◌,
}
use zeptocapsule.Common.Result.{Result, ok, err}
use zeptocapsule.Text.{Str, codes, decimal, split_once, split, parse_uint}
use zeptocapsule.Text.Words.{split_whitespace}
use zeptocapsule.Text.Utf8.{Bytes, from_utf8}
use zeptocapsule.Egress.Judge.{JudgeError, Judged, io, malformed_response, upstream_status}

abbrev pub response_byte_cap : ℕ
response_byte_cap = 64 * 1024

unfoldable pub request_head : (host path api_key : Str) → Bytes → Str
request_head host path api_key body =
    codes "POST "
    ++ (path
        ++ (codes " HTTP/1.1\r\nHost: "
            ++ (host
                ++ (codes "\r\nAuthorization: Bearer "
                    ++ (api_key
                        ++ (codes "\r\nContent-Type: application/json\r\nContent-Length: "
                            ++ (decimal (length body)
                                ++ codes "\r\nConnection: close\r\n\r\n")))))))

abbrev pub too_large : JudgeError
too_large = malformed_response (codes "response too large")

-- the loop, on the results of the reads, up to an empty one
unfoldable pub read_all : List (Result Str Bytes) → Bytes → Option (Judged Bytes)
read_all [] all = none
read_all (err e ∷ reads) all = some (err (io e))
read_all (ok [] ∷ reads) all = some (ok all)
read_all (ok (b ∷ chunk) ∷ reads) all =
    let grown = all ++ b ∷ chunk in
    let rest = read_all reads grown in
    if ltb response_byte_cap (length grown) then some (err too_large) else rest

abbrev pub decoded : Str → Option Str → Judged Str
decoded what none = err (malformed_response what)
decoded what (some text) = ok text

abbrev pub first_of : List Str → Str
first_of [] = []
first_of (s ∷ rest) = s

abbrev second_of : List Str → Option Str
second_of [] = none
second_of (s ∷ []) = none
second_of (s ∷ t ∷ rest) = some t

abbrev number_of : Option Str → Option ℕ
number_of none = none
number_of (some s) = parse_uint 65535 s

unfoldable pub status_of : Str → Option ℕ
status_of line = number_of (second_of (split_whitespace line))

abbrev pub is_success : ℕ → Bool
is_success status = leb 200 status && ltb status 300

abbrev pub body_of : Str → Bytes → Option ℕ → Judged Str
body_of line body none = err (malformed_response (codes "bad status: " ++ line))
body_of line body (some status) =
    if is_success status
    then decoded (codes "non-utf8 body") (from_utf8 body)
    else err (upstream_status status)

abbrev pub with_head : Bytes → Judged Str → Judged Str
with_head body (err e) = err e
with_head body (ok head) =
    let line = first_of (split (codes "\r\n") head) in body_of line body (status_of line)

abbrev pub parts_of : Option (Bytes × Bytes) → Judged Str
parts_of none = err (malformed_response (codes "no header terminator"))
parts_of (some (head, body)) = with_head body (decoded (codes "non-utf8 head") (from_utf8 head))

-- of all the bytes that were read
unfoldable pub parse_response : Bytes → Judged Str
parse_response all = parts_of (split_once (codes "\r\n\r\n") all)

abbrev pub parsed : Option (Judged Bytes) → Option (Judged Str)
parsed none = none
parsed (some (err e)) = some (err e)
parsed (some (ok all)) = some (parse_response all)

-- `sent` are the results of the two writes and of the flush. There is no result where the reads run out.
unfoldable pub do_post :
    List (Result Str (Unit {0})) → List (Result Str Bytes) → Option (Judged Str)
do_post [] reads = parsed (read_all reads [])
do_post (err e ∷ sent) reads = some (err (io e))
do_post (ok t ∷ sent) reads = do_post sent reads

abbrev pub is_nonempty : Bytes → Bool
is_nonempty [] = false
is_nonempty (b ∷ bytes) = true

unfoldable pub concat : List Bytes → Bytes
concat [] = []
concat (bytes ∷ chunks) = bytes ++ concat chunks

abbrev IsNonempty : Bytes → Type 0
IsNonempty bytes = is_nonempty bytes ≡ true

within : (n : ℕ) → n ≤ response_byte_cap → ltb response_byte_cap n ≡ false
within n h = ground (arith, h)

beyond :
    (xs ys : Bytes)
    → ltb response_byte_cap (length xs) ≡ true
    → ltb response_byte_cap (length (xs ++ ys)) ≡ true
beyond xs ys h = rw (length-append xs ys) (ground (arith, h))

-- a response that is read whole, in chunks
read_all-concat :
    (chunks : List Bytes) (more : List (Result Str Bytes)) (all : Bytes)
    → All IsNonempty chunks
    → length all ≤ response_byte_cap
    → read_all (map (λ (c : Bytes). ok c) chunks ++ ok [] ∷ more) all
      ≡ some (
          if ltb response_byte_cap (length (all ++ concat chunks))
          then err too_large
          else ok (all ++ concat chunks))
unfolding read_all concat
read_all-concat [] more all h cap = rw (append-nil all, within (length all) cap) refl
read_all-concat ([] ∷ chunks) more all (h, hs) cap = cc
read_all-concat ((b ∷ chunk) ∷ chunks) more all (h, hs) cap =
    let grown = all ++ b ∷ chunk in
    let rest = concat chunks in
    let whole : all ++ ((b ∷ chunk) ++ rest) ≡ grown ++ rest =
      sym (append_assoc all (b ∷ chunk) rest) in
    elim (Bool-cases (ltb response_byte_cap (length grown))) [
      | inl large ↦ rw (whole, large, beyond grown rest large) refl
      | inr fits ↦ rw (whole, fits) (read_all-concat chunks more grown hs (ltb-eq-false fits))
    ]

abbrev line_of : Str → Str
line_of head = first_of (split (codes "\r\n") head)

-- The text is the body of a response: what follows the first empty line, where what stands before it has
-- a status line whose second word is a number from 200 to 299.
abbrev pub IsBody : Bytes → Str → Type 0
IsBody response text =
    (head rest : Bytes) × (words : Str) × (status : ℕ) × (split_once (codes "\r\n\r\n") response
      ≡ some (head, rest))
    × (from_utf8 head ≡ some words)
    × (status_of (line_of words) ≡ some status)
    × ((200 ≤ status) × (status < 300))
    × (from_utf8 rest ≡ some text)

success_iff : (status : ℕ) → (is_success status ≡ true) ↔ ((200 ≤ status) × (status < 300))
success_iff status =
    ((λ h. (ground (arith, h), ground (arith, h))), λ (low, high). ground (arith, low, high))

text_of_body :
    (bytes : Bytes) (text : Str)
    → decoded (codes "non-utf8 body") (from_utf8 bytes) ≡ ok text
    → from_utf8 bytes ≡ some text
text_of_body bytes text h = elim (Option-cases (from_utf8 bytes)) [
  | inl e ↦
      (let k : ◌≡◌ {A = Judged Str} (err (malformed_response (codes "non-utf8 body"))) (ok text) =
          rw e at h in
        cc)
  | inr (t, e) ↦ (let k : ◌≡◌ {A = Judged Str} (ok t) (ok text) = rw e at h in cc)
]

success_of :
    (line : Str) (rest : Bytes) (text : Str)
    → body_of line rest (status_of line) ≡ ok text
    → (status : ℕ) × (status_of line ≡ some status)
      × ((200 ≤ status) × (status < 300))
      × (from_utf8 rest ≡ some text)
success_of line rest text h = elim (Option-cases (status_of line)) [
  | inl e ↦ (let k : body_of line rest none ≡ ok text = rw e at h in cc)
  | inr (status, e) ↦
      (let k : body_of line rest (some status) ≡ ok text = rw e at h in
        elim (Bool-cases (is_success status)) [
          | inl good ↦
              (status, e, (success_iff status).0 good, text_of_body rest text (rw good at k))
          | inr bad ↦
              (let m : ◌≡◌ {A = Judged Str} (err (upstream_status status)) (ok text) =
                  rw bad at k in
                cc)
        ])
]

head_of_parts :
    (head rest : Bytes) (text : Str)
    → with_head rest (decoded (codes "non-utf8 head") (from_utf8 head)) ≡ ok text
    → (words : Str) × (from_utf8 head ≡ some words)
      × (body_of (line_of words) rest (status_of (line_of words)) ≡ ok text)
head_of_parts head rest text h = elim (Option-cases (from_utf8 head)) [
  | inl e ↦
      (let k : ◌≡◌ {A = Judged Str} (err (malformed_response (codes "non-utf8 head"))) (ok text) =
          rw e at h in
        cc)
  | inr (words, e) ↦ (words, e, rw e at h)
]

parse_response_iff :
    (response : Bytes) (text : Str) → (parse_response response ≡ ok text) ↔ IsBody response text
unfolding parse_response
parse_response_iff response text = (
  (λ h. elim (Option-cases (split_once (codes "\r\n\r\n") response)) [
    | inl e ↦
        (let k : ◌≡◌ {A = Judged Str} (err (malformed_response (codes "no header terminator")))
              (ok text) =
            rw e at h in
          cc)
    | inr ((head, rest), e) ↦
        (let (words, f, k) = head_of_parts head rest text (rw e at h) in
          let (status, g, good, t) = success_of (line_of words) rest text k in
          (head, rest, words, status, e, f, g, good, t))
  ]),
  λ (head, rest, words, status, e, f, g, good, t).
      rw (e, parts_of, f, with_head, g, body_of, (success_iff status).1 good, t) refl,
)

-- Where the request is written, and a response is read to its end, in chunks that are not empty: `do_post`
-- returns a text exactly if the response is at most 64 KiB and the text is its body, however the response
-- is cut into chunks.
pub do_post_iff :
    (chunks : List Bytes) (more : List (Result Str Bytes)) (text : Str)
    → All IsNonempty chunks
    → (do_post (ok tt ∷ ok tt ∷ ok tt ∷ []) (map (λ (c : Bytes). ok c) chunks ++ ok [] ∷ more)
        ≡ some (ok text))
      ↔ ((length (concat chunks) ≤ 64 * 1024) × IsBody (concat chunks) text)
unfolding do_post
do_post_iff chunks more text h =
    let (to, from) = parse_response_iff (concat chunks) text in
    rw (read_all-concat chunks more [] h (omega arith))
      (elim (Bool-cases (ltb response_byte_cap (length (concat chunks)))) [
        | inl large ↦ (
          (λ h.
              let k : ◌≡◌ {A = Option (Judged Str)} (some (err too_large)) (some (ok text)) =
                rw large at h in
              cc),
          λ (small, b).
              absurd
                (omega (arith, ltb→lt response_byte_cap (length (concat chunks)) large, small)),
        )
        | inr fits ↦ (
          (λ h.
              let k : ◌≡◌ {A = Option (Judged Str)} (some (parse_response (concat chunks)))
                  (some (ok text)) =
                rw fits at h in
              (ltb-eq-false fits, to cc)),
          λ (small, b). rw fits (ap (λ (r : Judged Str). some r) (from b)),
        )
      ])
