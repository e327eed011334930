-- ===== src/Egress/Proxy/Rewrite.antt =====
-- `rewrite_request_for_origin`: the head that goes upstream.
use zeptocapsule.Common.{
  ℕ, zero, suc, ◌≡◌, Bool, false, ◌||◌, List, [], ◌∷◌, ◌++◌, take, drop, All, if◌then◌else◌,
  Bool-cases, inl, inr,
}
use zeptocapsule.Common.Result.{Result, ok, ◌>>=◌, ok_or, ok_of_chain, ok_injective}
use zeptocapsule.Text.{Str, codes, eq_ignore_ascii_case, first_part, trim, split}
use zeptocapsule.Text.Search.{split-eq-cons}
use zeptocapsule.Text.Utf8.{Bytes, from_utf8, into_bytes}
use zeptocapsule.Egress.Proxy.{ProxyError, bad_request}
use zeptocapsule.Egress.Proxy.Head.{ParsedHead}

abbrev pub crlf : Str
crlf = codes "\r\n"

unfoldable pub header_name : Str → Str
header_name line = trim (first_part b':' line)

unfoldable pub is_proxy_only : Str → Bool
is_proxy_only line =
    eq_ignore_ascii_case (header_name line) (codes "proxy-connection")
    || eq_ignore_ascii_case (header_name line) (codes "proxy-authorization")

-- the lines up to the first empty one, without the proxy's own
unfoldable pub kept_lines : List Str → List Str
kept_lines [] = []
kept_lines ([] ∷ lines) = []
kept_lines ((c ∷ line) ∷ lines) =
    let rest = kept_lines lines in if is_proxy_only (c ∷ line) then rest else (c ∷ line) ∷ rest

unfoldable pub write_lines : List Str → Str
write_lines [] = []
write_lines (line ∷ lines) = line ++ crlf ++ write_lines lines

abbrev pub version_text : ℕ → Str
version_text zero = codes "HTTP/1.0"
version_text (suc n) = codes "HTTP/1.1"

abbrev pub path_or_root : Str → Str
path_or_root [] = codes "/"
path_or_root (c ∷ path) = c ∷ path

unfoldable pub request_line : ParsedHead → Str
request_line head =
    head.method
    ++ codes " "
    ++ path_or_root head.path
    ++ codes " "
    ++ version_text head.http_version
    ++ crlf

-- `split` gives at least one part: the old request line, which is dropped.
unfoldable pub new_head : ParsedHead → List Str → Str
new_head head [] = crlf
new_head head (old ∷ lines) = request_line head ++ write_lines (kept_lines lines) ++ crlf

unfoldable pub rewrite_request_for_origin : Bytes → ParsedHead → Result ProxyError Bytes
rewrite_request_for_origin raw head = do
  text ← ok_or (bad_request (codes "non-utf8 header")) (from_utf8 (take head.head_len raw))
  ok (into_bytes (new_head head (split crlf text)) ++ drop head.head_len raw)

-- No kept line has a header of the proxy.
kept_lines-All : (lines : List Str) → All (λ line. is_proxy_only line ≡ false) (kept_lines lines)
unfolding kept_lines
kept_lines-All [] = tt
kept_lines-All ([] ∷ lines) = tt
kept_lines-All ((c ∷ line) ∷ lines) = elim (Bool-cases (is_proxy_only (c ∷ line))) [
  | inl drops ↦ rw drops (kept_lines-All lines)
  | inr keeps ↦ rw keeps (keeps, kept_lines-All lines)
]

-- What is sent upstream is a request line of the parsed method and path, then header lines of which
-- none is `Proxy-Connection` or `Proxy-Authorization` in any case, an empty line, and the bytes
-- behind the head unchanged.
pub record IsRewritten (raw : Bytes) (head : ParsedHead) (sent : Bytes) : Type 0 where
  pub lines : List Str
  pub none_proxy : All (λ line. is_proxy_only line ≡ false) lines
  pub bytes :
      sent ≡ into_bytes (request_line head ++ write_lines lines ++ crlf) ++ drop head.head_len raw

new_head-split :
    (head : ParsedHead) (text : Str)
    → (old : Str) × (lines : List Str) × (new_head head (split crlf text)
        ≡ request_line head ++ write_lines (kept_lines lines) ++ crlf)
unfolding new_head
new_head-split head text =
    let (old, lines, same) = split-eq-cons crlf text in (old, lines, rw (same, new_head))

-- Where the rewriting returns, what is sent is so formed.
pub rewrite-IsRewritten :
    (raw : Bytes) (head : ParsedHead) (sent : Bytes)
    → rewrite_request_for_origin raw head ≡ ok sent
    → IsRewritten raw head sent
unfolding rewrite_request_for_origin
rewrite-IsRewritten raw head sent h =
    let (text, decoded, returns) = ok_of_chain _ (ok_or _ (from_utf8 (take head.head_len raw))) h in
    let (old, lines, same) = new_head-split head text in
    record {
      lines = kept_lines lines;
      none_proxy = kept_lines-All lines;
      bytes = cc (ok_injective returns, same);
    }
