-- ===== src/Egress/Proxy/Head.antt =====
-- The request head: its target, path and authority.
use zeptocapsule.Common.{
  ℕ, ◌+◌, ◌-◌, ◌^◌, Bool, ◌||◌, Option, none, some, List, [], ◌∷◌, ◌++◌, take, drop, if◌then◌else◌,
}
use zeptocapsule.Common.Result.{Result, ok, err, ◌>>=◌, ok_or}
use zeptocapsule.Text.{
  Str, codes, eq_ignore_ascii_case, starts_with, find, rfind, split_once, first_part, trim,
  parse_uint,
}
use zeptocapsule.Text.Utf8.{Bytes}
use zeptocapsule.Egress.Proxy.{ProxyError, bad_request}

-- A header as httparse returns it: its name, and its value if that is UTF-8.
pub record Header : Type 0 where
  pub name : Str
  pub text : Option Str

-- What httparse finds in the bytes: an error, an unfinished head, or a head of this length.
pub data HeadParse : Type 0 where
  malformed : Str → HeadParse
  unfinished : HeadParse
  complete :
      (head_len : ℕ) (method target : Option Str) (version : Option ℕ) (headers : List Header)
      → HeadParse

pub record ParsedHead : Type 0 where
  pub method : Str
  pub target : Str
  pub path : Str
  pub host_header : Option Str
  pub head_len : ℕ
  pub http_version : ℕ

unfoldable pub is_connect : Str → Bool
is_connect m = eq_ignore_ascii_case m (codes "CONNECT")

unfoldable pub is_absolute : Str → Bool
is_absolute target = starts_with target (codes "http://") || starts_with target (codes "https://")

-- what stands behind the scheme of an absolute target
unfoldable pub after_scheme : Str → Str
after_scheme target = elim (split_once (codes "://") target) [
  | some (scheme, rest) ↦ rest
  | none ↦ target
]

-- `headers.iter().find(..)`, with the value's conversion and trim
unfoldable pub host_of : List Header → Option Str
host_of [] = none
host_of (h ∷ hs) =
    if eq_ignore_ascii_case h.name (codes "host")
    then elim h.text [ some t ↦ some (trim t) | none ↦ none ]
    else host_of hs

unfoldable pub path_of : Str → Str → Str
path_of method target =
    if is_connect method
    then []
    else if is_absolute target
    then (let rest = after_scheme target in
        elim (find b'/' rest) [ some i ↦ drop i rest | none ↦ codes "/" ])
    else target

-- `httparse` is the parser of the httparse crate.
unfoldable pub parse_request_head : (Bytes → HeadParse) → Bytes → Result ProxyError ParsedHead
parse_request_head httparse buf = elim (httparse buf) [
  | malformed e ↦ err (bad_request (codes "parse: " ++ e))
  | unfinished ↦ err (bad_request (codes "incomplete headers"))
  | complete head_len method target version headers ↦ do
    m ← ok_or (bad_request (codes "missing method")) method
    t ← ok_or (bad_request (codes "missing target")) target
    v ← ok_or (bad_request (codes "missing version")) version
    ok (record {
      method = m;
      target = t;
      path = path_of m t;
      host_header = host_of headers;
      head_len = head_len;
      http_version = v;
    })
]

abbrev pub max_u16 : ℕ
max_u16 = 2 ^ 16 - 1

-- the text that names the host and the port
unfoldable pub raw_authority : ParsedHead → Result ProxyError Str
raw_authority head =
    if is_connect head.method
    then ok head.target
    else if is_absolute head.target
    then ok (first_part b'/' (after_scheme head.target))
    else ok_or (bad_request (codes "missing Host header")) head.host_header

unfoldable pub split_authority : Str → ℕ → Result ProxyError (Str × ℕ)
split_authority raw default_port = elim (rfind b':' raw) [
  | some i ↦
      if starts_with raw (codes "[")
      then err (bad_request (codes "IPv6 literal not supported"))
      else do
        port ← ok_or (bad_request (codes "invalid port")) (parse_uint max_u16 (drop (i + 1) raw))
        ok (take i raw, port)
  | none ↦ ok (raw, default_port)
]

unfoldable pub parse_authority : ParsedHead → ℕ → Result ProxyError (Str × ℕ)
parse_authority head default_port = do
  raw ← raw_authority head
  split_authority (trim raw) default_port
