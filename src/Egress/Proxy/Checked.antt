-- ===== src/Egress/Proxy/Checked.antt =====
-- Which addresses `handle_connect` connects to.
use zeptocapsule.Common.{ℕ, ◌≡◌, ◌≢◌}
use zeptocapsule.Common.Result.{Result, ok}
use zeptocapsule.Text.{Str, codes}
use zeptocapsule.Text.Utf8.{Bytes}
use zeptocapsule.Egress.Types.{EgressAction, allow, deny, judge, Method}
use zeptocapsule.Egress.Types
use zeptocapsule.Egress.Ssrf.{IpAddr}
use zeptocapsule.Egress.Proxy.Head.{HeadParse, ParsedHead, parse_authority, parse_request_head}
use zeptocapsule.Egress.Proxy.Resolve.{Outside, ProxyState, ResolvedEval, IsChecked}
use zeptocapsule.Egress.Proxy.Rewrite.{path_or_root}
use zeptocapsule.Egress.Proxy.Plain.{method_or_get}
use zeptocapsule.Egress.Proxy.Tunnel.{TunnelPeer, judged_again}

module _ {M E : Type 0} (out : Outside M E) (state : ProxyState M) (httparse : Bytes → HeadParse)
    (tls : TunnelPeer) (head : ParsedHead) where
  -- What was checked of a connection to an address and a port: the CONNECT request names the port and a
  -- host, whose evaluation, with the path `/`, does not deny and gives the address; and the request whose
  -- head is what was read from the tunnel, evaluated for the same host, is not denied either.
  pub record IsTunnel (c : IpAddr × ℕ) : Type 0 where
    pub host : Str
    pub phase1 : ResolvedEval
    pub inner_bytes : Bytes
    pub inner : ParsedHead
    pub named : parse_authority head 443 ≡ ok (host, c.1)
    pub pinned : phase1.ip ≡ c.0
    pub checked : IsChecked out state Method.connect host (codes "/") c.1 phase1
    pub phase1_allowed : phase1.action ≢ deny
    pub read : tls.inner_head_bytes ≡ ok inner_bytes
    pub parsed : parse_request_head httparse inner_bytes ≡ ok inner
    pub phase2_allowed :
        (judged_again out state
          (method_or_get (Types.parse inner.method))
          host
          (path_or_root inner.path)).1.0
        ≢ deny
