-- ===== src/Egress/Judge/Endpoint.antt =====
-- `parse_endpoint`: the judge's URL.
use zeptocapsule.Common.{
  ℕ, ◌+◌, ◌-◌, ◌^◌, ◌≤◌, ◌≡◌, Bool, true, false, none, some, ◌∷◌, ◌++◌, append_assoc, arith, take,
  drop, if◌then◌else◌,
}
use zeptocapsule.Text.{Str, codes, str_eq, find, rfind, split_once, parse_uint, decimal}
use zeptocapsule.Text.Decimal.{Lacks, decimal-Lacks, parse_uint-decimal}
use zeptocapsule.Text.Search.{
  take-append, drop-append, find-append, rfind-append, drop_past, Lacks-append,
}
use zeptocapsule.Common.Result.{ok, err, ◌>>=◌, ok_or}
use zeptocapsule.Egress.Judge.{Judged, invalid_endpoint}

pub record ParsedUrl : Type 0 where
  pub host : Str
  pub port : ℕ
  pub path : Str
  pub https : Bool

abbrev pub max_u16 : ℕ
max_u16 = 2 ^ 16 - 1

scheme_is_https : Str → Judged Bool
unfolding str_eq
scheme_is_https scheme =
    if str_eq scheme (codes "https")
    then ok true
    else if str_eq scheme (codes "http")
    then ok false
    else err (invalid_endpoint (codes "scheme " ++ scheme))

-- the authority and the path
split_path : Str → Str × Str
split_path rest = elim (find b'/' rest) [
  | some i ↦ (take i rest, drop i rest)
  | none ↦ (rest, codes "/")
]

split_port : Bool → Str → Judged (Str × ℕ)
split_port https authority = elim (rfind b':' authority) [
  | some i ↦ do
    port ← ok_or (invalid_endpoint (codes "bad port")) (parse_uint max_u16 (drop (i + 1) authority))
    ok (take i authority, port)
  | none ↦ ok (authority, if https then 443 else 80)
]

unfoldable pub parse_endpoint : Str → Judged ParsedUrl
unfolding scheme_is_https split_path split_port
parse_endpoint s = do
  (scheme, rest) ← ok_or (invalid_endpoint (codes "missing scheme")) (split_once (codes "://") s)
  https ← scheme_is_https scheme
  let (authority, path) = split_path rest
  (host, port) ← split_port https authority
  ok (record { host = host; port = port; path = path; https = https })

-- A URL with an explicit port.
abbrev pub url : Bool → Str → ℕ → Str → Str
url https host port path =
    (if https then codes "https" else codes "http")
    ++ codes "://"
    ++ (host ++ b':' ∷ (decimal port ++ b'/' ∷ path))

split_path_lem : (a p : Str) → Lacks b'/' a → split_path (a ++ b'/' ∷ p) ≡ (a, b'/' ∷ p)
unfolding split_path
split_path_lem a p h =
    rw (find-append b'/' a p h, split_path, take-append a (b'/' ∷ p), drop-append a (b'/' ∷ p))

split_port_lem :
    (https : Bool) (host : Str) (port : ℕ)
    → port ≤ max_u16
    → split_port https (host ++ b':' ∷ decimal port) ≡ ok (host, port)
unfolding split_port
split_port_lem https host port h = rw (
  rfind-append b':' host (decimal port) (decimal-Lacks b':' port (λ d. omega arith)),
  split_port,
  drop_past host b':' (decimal port),
  parse_uint-decimal max_u16 port h,
  take-append host (b':' ∷ decimal port),
)

-- The rest of the chain after the scheme.
after_scheme : Bool → Str → Judged ParsedUrl
after_scheme https rest = do
  let (authority, path) = split_path rest
  (host, port) ← split_port https authority
  ok (record { host = host; port = port; path = path; https = https })

after_scheme_lem :
    (https : Bool) (host : Str) (port : ℕ) (path : Str)
    → Lacks b'/' host
    → port ≤ max_u16
    → after_scheme https (host ++ b':' ∷ (decimal port ++ b'/' ∷ path))
      ≡ ok (record { host = host; port = port; path = b'/' ∷ path; https = https })
unfolding after_scheme
after_scheme_lem https host port path h k =
    let authority = host ++ b':' ∷ decimal port in
    let no_slash =
      Lacks-append b'/' host (b':' ∷ decimal port) h
        (λ e. absurd (omega arith), decimal-Lacks b'/' port (λ d. omega arith)) in
    rw (
      ← append_assoc host (b':' ∷ decimal port) (b'/' ∷ path),
      split_path_lem authority path no_slash,
      split_port_lem https host port k,
    )

-- A URL with the scheme http or https, a host with no slash, a port that is a `u16`, and a path
-- that begins with a slash is parsed to these four parts. The host may hold colons.
pub parse_endpoint-url :
    (https : Bool) (host : Str) (port : ℕ) (path : Str)
    → Lacks b'/' host
    → port ≤ max_u16
    → parse_endpoint (url https host port path)
      ≡ ok (record { host = host; port = port; path = b'/' ∷ path; https = https })
unfolding parse_endpoint split_once scheme_is_https after_scheme
parse_endpoint-url true host port path h k = after_scheme_lem true host port path h k
parse_endpoint-url false host port path h k = after_scheme_lem false host port path h k
