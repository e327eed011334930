-- ===== src/Egress/Proxy/Sent.antt =====
-- What a well-formed head is rewritten to, byte for byte.
use zeptocapsule.Common.{
  suc, ◌||◌, by_bool, ℕ, ◌≡◌, ◌≢◌, refl, ap, List, [], ◌∷◌, ◌++◌, append_assoc, length, All,
  if◌then◌else◌, zero, suc,
}
use zeptocapsule.Common.Result.{ok}
use zeptocapsule.Text.{
  first_part, codes, trim, eq_ignore_ascii_case, to_ascii_lowercase, str_eq, Str, split,
}
use zeptocapsule.Text.Decimal.{Lacks}
use zeptocapsule.Text.Search.{take-append, drop-append}
use zeptocapsule.Text.Lines.{split-line}
use zeptocapsule.Text.Utf8.{Bytes, into_bytes, IsScalar, from_utf8-into_bytes}
use zeptocapsule.Egress.Proxy.Head.{ParsedHead}
use zeptocapsule.Egress.Proxy.Rewrite.{
  version_text, path_or_root, header_name, crlf, is_proxy_only, kept_lines, write_lines,
  request_line, new_head, rewrite_request_for_origin,
}

-- A header line: it is not empty and has no "\r".
abbrev pub IsLine : Str → Type 0
IsLine line = (line ≢ []) × Lacks 13 line

-- the name of a header, in lower case: what is before the first colon, without the white space around it
abbrev name_of : Str → Str
name_of line = to_ascii_lowercase (trim (first_part b':' line))

-- the lines without those that name `Proxy-Connection` or `Proxy-Authorization` in any case
pub without_proxy_only : List Str → List Str
without_proxy_only [] = []
without_proxy_only (line ∷ lines) =
    let rest = without_proxy_only lines in
    if str_eq (name_of line) (codes "proxy-connection")
    then rest
    else if str_eq (name_of line) (codes "proxy-authorization")
    then rest
    else line ∷ rest

-- the request line of a method, a path, which is "/" if it is empty, and a version
pub line_of : Str → Str → ℕ → Str
line_of method [] zero = method ++ codes " / HTTP/1.0\r\n"
line_of method [] (suc n) = method ++ codes " / HTTP/1.1\r\n"
line_of method (c ∷ path) zero = method ++ (codes " " ++ ((c ∷ path) ++ codes " HTTP/1.0\r\n"))
line_of method (c ∷ path) (suc n) = method ++ (codes " " ++ ((c ∷ path) ++ codes " HTTP/1.1\r\n"))

-- the text of a head
abbrev pub head_text : Str → List Str → Str
head_text old lines = old ++ crlf ++ (write_lines lines ++ crlf)

split-lines :
    (lines : List Str)
    → All IsLine lines
    → split crlf (write_lines lines ++ crlf) ≡ lines ++ [] ∷ [] ∷ []
unfolding write_lines split
split-lines [] h = refl
split-lines (line ∷ lines) h =
    rw
      (
        append_assoc (line ++ crlf) (write_lines lines) crlf,
        split-line line (write_lines lines ++ crlf) h.0.1,
      )
      (ap (λ ls. line ∷ ls) (split-lines lines h.1))

-- The code's test is the one of the names.
is_proxy_only_lem :
    (line : Str)
    → is_proxy_only line ≡ (
        str_eq (name_of line) (codes "proxy-connection")
        || str_eq (name_of line) (codes "proxy-authorization"))
unfolding is_proxy_only header_name eq_ignore_ascii_case to_ascii_lowercase
is_proxy_only_lem line = refl

path_same :
    (method path version : Str)
    → method ++ codes " " ++ path ++ codes " " ++ version ++ crlf
      ≡ method ++ (codes " " ++ (path ++ (codes " " ++ (version ++ crlf))))
path_same method path version =
    rw
      (
        append_assoc (method ++ codes " " ++ path ++ codes " ") version crlf,
        append_assoc (method ++ codes " " ++ path) (codes " ") (version ++ crlf),
        append_assoc (method ++ codes " ") path (codes " " ++ (version ++ crlf)),
        append_assoc method (codes " ") (path ++ (codes " " ++ (version ++ crlf))),
      )
      refl

line_same :
    (method path : Str) (version : ℕ)
    → method ++ codes " " ++ path_or_root path ++ codes " " ++ version_text version ++ crlf
      ≡ line_of method path version
unfolding line_of
line_same method [] zero = path_same method (codes "/") (codes "HTTP/1.0")
line_same method [] (suc n) = path_same method (codes "/") (codes "HTTP/1.1")
line_same method (c ∷ path) zero = path_same method (c ∷ path) (codes "HTTP/1.0")
line_same method (c ∷ path) (suc n) = path_same method (c ∷ path) (codes "HTTP/1.1")

request_line_lem :
    (head : ParsedHead) → request_line head ≡ line_of head.method head.path head.http_version
unfolding request_line line_of
request_line_lem head = line_same head.method head.path head.http_version

kept_lines-append :
    (lines more : List Str)
    → All IsLine lines
    → kept_lines (lines ++ [] ∷ more) ≡ without_proxy_only lines
unfolding kept_lines without_proxy_only
kept_lines-append [] more h = refl
kept_lines-append ([] ∷ lines) more h = absurd (h.0.0 refl)
kept_lines-append ((c ∷ line) ∷ lines) more h =
    rw (is_proxy_only_lem (c ∷ line), kept_lines-append lines more h.1)
      (by_bool
        (λ connection.
          (if connection || str_eq (name_of (c ∷ line)) (codes "proxy-authorization")
            then without_proxy_only lines
            else (c ∷ line) ∷ without_proxy_only lines)
          ≡ (if connection
              then without_proxy_only lines
              else if str_eq (name_of (c ∷ line)) (codes "proxy-authorization")
              then without_proxy_only lines
              else (c ∷ line) ∷ without_proxy_only lines))
        refl refl (str_eq (name_of (c ∷ line)) (codes "proxy-connection")))

new_head-head_text :
    (head : ParsedHead) (old : Str) (lines : List Str)
    → Lacks 13 old
    → All IsLine lines
    → new_head head (split crlf (head_text old lines))
      ≡ request_line head ++ write_lines (without_proxy_only lines) ++ crlf
unfolding new_head
new_head-head_text head old lines h k =
    rw
      (
        split-line old (write_lines lines ++ crlf) h,
        split-lines lines k,
        kept_lines-append lines ([] ∷ []) k,
        new_head,
      )
      refl

-- Of a head of UTF-8 lines without "\r" the request line becomes the parsed method, the parsed path, or
-- "/" for an empty one, and the version 1.0 or 1.1; the lines that name `Proxy-Connection` or
-- `Proxy-Authorization`, in any case, are left out; and all other lines and the bytes behind the head are
-- the same and in the same order.
pub rewrite-head_text :
    (head : ParsedHead) (old : Str) (lines : List Str) (body : Bytes)
    → Lacks 13 old
    → All IsLine lines
    → All IsScalar (head_text old lines)
    → head.head_len ≡ length (into_bytes (head_text old lines))
    → rewrite_request_for_origin (into_bytes (head_text old lines) ++ body) head
      ≡ ok (
          into_bytes (
            line_of head.method head.path head.http_version
            ++ write_lines (without_proxy_only lines)
            ++ crlf)
          ++ body)
unfolding rewrite_request_for_origin into_bytes new_head
rewrite-head_text head old lines body h k scalars len =
    let sent : ParsedHead = record head { head_len = length (into_bytes (head_text old lines)) } in
    rw
      (
        len,
        take-append (into_bytes (head_text old lines)) body,
        drop-append (into_bytes (head_text old lines)) body,
        from_utf8-into_bytes (head_text old lines) scalars,
        new_head-head_text sent old lines h k,
        request_line_lem sent,
      )
      refl
