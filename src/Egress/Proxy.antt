-- ===== src/Egress/Proxy.antt =====
-- src/egress/proxy.rs: the requests of a capsule, one connection at a time.
pub mod Head
pub mod Resolve
pub mod Rewrite
pub mod Effects
pub mod Plain
pub mod Tunnel
pub mod Reading
pub mod Gate
mod Tests
pub mod Authority
pub mod Sent
pub mod Checked
pub mod Pinned
use zeptocapsule.Common.{◌++◌}
use zeptocapsule.Text.{Str, codes}

-- An error of a library is its text.
pub data ProxyError : Type 0 where
  io rustls bad_request ca : Str → ProxyError

unfoldable pub display : ProxyError → Str
display (io e) = codes "io: " ++ e
display (rustls e) = codes "rustls: " ++ e
display (bad_request e) = codes "invalid request: " ++ e
display (ca e) = codes "ca: " ++ e
