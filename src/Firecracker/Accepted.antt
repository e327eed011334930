-- ===== src/Firecracker/Accepted.antt =====
-- What an answer of the API is that a request goes on by.
use zeptocapsule.Common.{
  ltb→lt, leb→le, sym, ◌∙◌, take, Option-cases, ap, ℕ, ◌≤◌, ◌<◌, ◌≡◌, refl, Bool, true, false,
  Bool-cases, inl, inr, Option, none, some, List, [], ◌∷◌, ◌++◌, ◌&&◌, if◌then◌else◌,
}
use zeptocapsule.Common.Result.{Result, ok, err, ok_of_chain, ok_or, ok_or-eq-ok, ok_injective}
use zeptocapsule.Text.{Str, codes, parse_uint, starts_with}
use zeptocapsule.Text.Utf8.{Bytes, from_utf8}
use zeptocapsule.Text.Words.{lines, split_whitespace}
use zeptocapsule.Capsule.Backend.{KernelError}
use zeptocapsule.Firecracker.System.{Exchange}
use zeptocapsule.Firecracker.Api.{
  Texts, ApiResponse, put, put_expect_ok, read_response, second, first_line, read_exact,
  content_length, named, split_head, parse_status,
}

-- the second word of the first line of a head, a number from 200 to 299
abbrev pub IsSuccess : Bytes → Type 0
IsSuccess head =
    (text line first word : Str) × (more : List Str) × (rest : List Str) × (status : ℕ) × (from_utf8
        head
      ≡ some text)
    × (lines text ≡ line ∷ more)
    × (split_whitespace line ≡ first ∷ word ∷ rest)
    × (parse_uint 65535 word ≡ some status)
    × (200 ≤ status)
    × (status < 300)

-- The request was written, and what came back begins with a head of success.
abbrev pub IsAccepted : Exchange → Type 0
IsAccepted x =
    (x.connected ≡ ok tt)
    × (x.written ≡ ok tt)
    × ((head body : Bytes) × (x.sent ≡ head ++ body) × IsSuccess head)

same_parts :
    (a c head body : Bytes)
    → ◌≡◌ {A = Option (Bytes × Bytes)} (some (a, c)) (some (head, body))
    → a ++ c ≡ head ++ body
same_parts a c head body h =
    let front : a ≡ head = cc in let back : c ≡ body = cc in rw (front, back) refl

split_head-append :
    (seen bytes head body : Bytes)
    → split_head seen bytes ≡ some (head, body)
    → bytes ≡ head ++ body
unfolding split_head
split_head-append seen [] head body h = cc
split_head-append seen (b ∷ bytes) head body h =
    elim (Bool-cases (starts_with (b ∷ seen) (10 ∷ 13 ∷ 10 ∷ 13 ∷ []))) [
      | inl ends ↦ same_parts (b ∷ []) bytes head body (sym (rw (ends, split_head) refl) ∙ h)
      | inr goes_on ↦ elim (Option-cases (split_head (take 4 (b ∷ seen)) bytes)) [
        | inl e ↦
            let failed : ◌≡◌ {A = Option (Bytes × Bytes)} none (some (head, body)) =
              sym (rw (goes_on, e, split_head) refl) ∙ h in
            cc
        | inr ((front, back), e) ↦
            ap (λ bs. b ∷ bs) (split_head-append (take 4 (b ∷ seen)) bytes front back e)
            ∙ same_parts (b ∷ front) back head body (sym (rw (goes_on, e, split_head) refl) ∙ h)
      ]
    ]

second-eq-some :
    (ws : List Str) (word : Str)
    → second ws ≡ some word
    → (first : Str) × (rest : List Str) × (ws ≡ first ∷ word ∷ rest)
second-eq-some [] word h = absurd (cc)
second-eq-some (a ∷ []) word h = absurd (cc)
second-eq-some (a ∷ b ∷ rest) word h = (a, rest, let same : b ≡ word = cc in rw same refl)

first_line-eq-some :
    (ls : List Str) (line : Str)
    → first_line ls ≡ some line
    → (more : List Str) × (ls ≡ line ∷ more)
first_line-eq-some [] line h = absurd (cc)
first_line-eq-some (l ∷ ls) line h = (ls, let same : l ≡ line = cc in rw same refl)

-- A status that was read stands in the first line, as its second word.
parse_status-words :
    (texts : Texts) (ls : List Str) (status : ℕ)
    → parse_status texts ls ≡ ok status
    → (line first word : Str) × (more : List Str) × (rest : List Str) × (ls ≡ line ∷ more)
      × (split_whitespace line ≡ first ∷ word ∷ rest)
      × (parse_uint 65535 word ≡ some status)
unfolding parse_status
parse_status-words texts ls status h =
    let (line, e, h) = ok_of_chain _ (ok_or _ (first_line ls)) h in
    let (word, f, h) = ok_of_chain _ (ok_or _ (second (split_whitespace line))) h in
    let (more, cut) = first_line-eq-some ls line (ok_or-eq-ok _ (first_line ls) e) in
    let (first, rest, parted) =
      second-eq-some (split_whitespace line) word
        (ok_or-eq-ok _ (second (split_whitespace line)) f) in
    (line, first, word, more, rest, cut, parted, ok_or-eq-ok _ (parse_uint 65535 word) h)

-- A response's status stands in the head of what was sent.
read_response-IsHead :
    (texts : Texts) (closed : Str) (sent : Bytes) (resp : ApiResponse)
    → read_response texts closed sent ≡ ok resp
    → (head body : Bytes) × (text : Str) × (sent ≡ head ++ body)
      × (from_utf8 head ≡ some text)
      × (parse_status texts (lines text) ≡ ok resp.status)
unfolding read_response
read_response-IsHead texts closed sent resp h =
    let (parts, e, h) = ok_of_chain _ (ok_or _ (split_head [] sent)) h in
    let (text, f, h) = ok_of_chain _ (ok_or _ (from_utf8 parts.0)) h in
    let (bytes, g, h) = ok_of_chain _ (read_exact closed (content_length (lines text)) parts.1) h in
    let (body, k, h) = ok_of_chain _ (ok_or _ (from_utf8 bytes)) h in
    let (status, l, h) = ok_of_chain _ (parse_status texts (lines text)) h in
    let same : status ≡ resp.status = ap ApiResponse.status (ok_injective h) in
    (
      parts.0,
      parts.1,
      text,
      split_head-append [] sent parts.0 parts.1 (ok_or-eq-ok _ (split_head [] sent) e),
      ok_or-eq-ok _ (from_utf8 parts.0) f,
      l ∙ ap (λ n. ok n) same,
    )

named-eq-ok :
    (what : Str) (r : Result Str (Unit {0})) (t : Unit {0}) → named what r ≡ ok t → r ≡ ok tt
named-eq-ok what (ok tt) t h = refl
named-eq-ok what (err e) t h = absurd (cc)

both : (a b : Bool) → a && b ≡ true → (a ≡ true) × (b ≡ true)
both true b h = (refl, h)
both false b h = absurd (cc)

true_of_test :
    (b : Bool) (r : ApiResponse) (x : KernelError) (resp : ApiResponse)
    → (if b then ok r else err x) ≡ ok resp
    → b ≡ true
true_of_test true r x resp h = refl
true_of_test false r x resp h = absurd (cc)

put-IsHead :
    (texts : Texts) (x : Exchange) (resp : ApiResponse)
    → put texts x ≡ ok resp
    → (x.connected ≡ ok tt) × (x.written ≡ ok tt) × (read_response texts x.closed x.sent ≡ ok resp)
unfolding put
put-IsHead texts x resp h =
    let (t, connected, h) = ok_of_chain _ (named (codes "unix socket connect: ") x.connected) h in
    let (u, written, h) = ok_of_chain _ (named (codes "socket write: ") x.written) h in
    (
      named-eq-ok (codes "unix socket connect: ") x.connected t connected,
      named-eq-ok (codes "socket write: ") x.written u written,
      h,
    )

-- A request that does not fail was accepted.
pub put_expect_ok-IsAccepted :
    (texts : Texts) (path : Str) (x : Exchange) (resp : ApiResponse)
    → put_expect_ok texts path x ≡ ok resp
    → IsAccepted x
unfolding put_expect_ok
put_expect_ok-IsAccepted texts path x resp h =
    let (r, returned, h) = ok_of_chain _ (put texts x) h in
    let (connected, written, read) = put-IsHead texts x r returned in
    let (head, body, text, parts, utf8, parsed) =
      read_response-IsHead texts x.closed x.sent r read in
    let (line, first, word, more, rest, cut, words, number) =
      parse_status-words texts (lines text) r.status parsed in
    let (least, most) = both _ _ (true_of_test _ r _ resp h) in
    let reads : IsSuccess head = (
      text,
      line,
      first,
      word,
      more,
      rest,
      r.status,
      utf8,
      cut,
      words,
      number,
      leb→le 200 r.status least,
      ltb→lt r.status 300 most,
    ) in
    (connected, written, (head, body, parts, reads))
