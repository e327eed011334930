-- ===== src/Egress/Proxy/Authority.antt =====
-- The host and the port that a request names.
use zeptocapsule.Common.{
  ℕ, ◌+◌, ◌≤◌, ◌≡◌, refl, true, false, some, ◌∷◌, ◌++◌, arith, length, take, drop,
}
use zeptocapsule.Common.Result.{ok}
use zeptocapsule.Text.{Str, codes, decimal, trim, rfind, starts_with, parse_uint, split_once}
use zeptocapsule.Text.Decimal.{Lacks, decimal-Lacks, parse_uint-decimal}
use zeptocapsule.Text.Search.{take-append, drop_past, first_part-append, rfind-append, rfind_absent}
use zeptocapsule.Egress.Proxy.Head.{
  ParsedHead, is_connect, max_u16, is_absolute, after_scheme, raw_authority, split_authority,
  parse_authority,
}

split_authority-raw :
    (raw host : Str) (i port default_port : ℕ)
    → rfind b':' raw ≡ some i
    → starts_with raw (codes "[") ≡ false
    → parse_uint max_u16 (drop (i + 1) raw) ≡ some port
    → take i raw ≡ host
    → split_authority raw default_port ≡ ok (host, port)
unfolding split_authority
split_authority-raw raw host i port default_port found unbracketed parsed front =
    rw (split_authority, found, unbracketed, parsed, front) refl

split_authority-port :
    (host : Str) (port default_port : ℕ)
    → port ≤ max_u16
    → starts_with (host ++ b':' ∷ decimal port) (codes "[") ≡ false
    → split_authority (host ++ b':' ∷ decimal port) default_port ≡ ok (host, port)
split_authority-port host port default_port h unbracketed =
    split_authority-raw (host ++ b':' ∷ decimal port) host (length host) port default_port
      (rfind-append b':' host (decimal port) (decimal-Lacks b':' port (omega arith))) unbracketed
      (rw (drop_past host b':' (decimal port)) (parse_uint-decimal max_u16 port h))
      (take-append host (b':' ∷ decimal port))

split_authority-host :
    (host : Str) (default_port : ℕ)
    → Lacks b':' host
    → split_authority host default_port ≡ ok (host, default_port)
unfolding split_authority
split_authority-host host default_port h = rw (split_authority, rfind_absent b':' host h) refl

-- A request names an authority as the target of CONNECT, in an absolute target, or in its Host header.
pub data Names (head : ParsedHead) (authority : Str) : Type 0 where
  by_connect : is_connect head.method ≡ true → head.target ≡ authority → Names head authority
  by_target :
      is_connect head.method ≡ false
      → (path : Str) → head.target ≡ codes "http://" ++ (authority ++ b'/' ∷ path)
      → Lacks b'/' authority
      → Names head authority
  by_host :
      is_connect head.method ≡ false
      → is_absolute head.target ≡ false
      → head.host_header ≡ some authority
      → Names head authority

is_absolute-http : (rest : Str) → is_absolute (codes "http://" ++ rest) ≡ true
unfolding is_absolute starts_with
is_absolute-http rest = refl

after_scheme-http : (rest : Str) → after_scheme (codes "http://" ++ rest) ≡ rest
unfolding after_scheme split_once starts_with
after_scheme-http rest = refl

raw_authority-Names :
    (head : ParsedHead) (authority : Str) → Names head authority → raw_authority head ≡ ok authority
unfolding raw_authority
raw_authority-Names head authority (by_connect c t) = rw (c, t) refl
raw_authority-Names head authority (by_target c path t l) =
    rw
      (
        c,
        t,
        is_absolute-http (authority ++ b'/' ∷ path),
        after_scheme-http (authority ++ b'/' ∷ path),
        first_part-append b'/' authority path l,
      )
      refl
raw_authority-Names head authority (by_host c a t) = rw (c, a, t) refl

-- However a request names `host:port`, with a port that is a u16 and without a bracketed host or white
-- space around it, that host and that port are parsed.
pub parse_authority-port :
    (head : ParsedHead) (host : Str) (port default_port : ℕ)
    → port ≤ max_u16
    → Names head (host ++ b':' ∷ decimal port)
    → trim (host ++ b':' ∷ decimal port) ≡ host ++ b':' ∷ decimal port
    → starts_with (host ++ b':' ∷ decimal port) (codes "[") ≡ false
    → parse_authority head default_port ≡ ok (host, port)
unfolding parse_authority
parse_authority-port head host port default_port h named trimmed unbracketed =
    rw (raw_authority-Names head (host ++ b':' ∷ decimal port) named, trimmed)
      (split_authority-port host port default_port h unbracketed)

-- However a request names a host without a colon or white space around it, the host is parsed, with
-- the default port.
pub parse_authority-host :
    (head : ParsedHead) (host : Str) (default_port : ℕ)
    → Names head host
    → trim host ≡ host
    → Lacks b':' host
    → parse_authority head default_port ≡ ok (host, default_port)
unfolding parse_authority
parse_authority-host head host default_port named trimmed h =
    rw (raw_authority-Names head host named, trimmed) (split_authority-host host default_port h)
