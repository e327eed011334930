-- ===== src/Egress/Proxy/Tests.antt =====
-- One request for http://api.openai.com/v1/models and one CONNECT to api.openai.com:443.
use zeptocapsule.Common.{
  ◌≡◌, refl, true, false, none, some, List, [], ◌∷◌, ◌++◌, arith, length, All, ◌⊎◌,
}
use zeptocapsule.Common.Result.{ok}
use zeptocapsule.Text.{
  Str, codes, str_eq, decimal, eq_ignore_ascii_case, find, first_part, is_digit, is_whitespace,
  parse_uint, rfind, scan_digits, split, split_once, starts_with, to_ascii_lowercase,
  to_ascii_uppercase, to_lower, to_upper, trim, trim_end, trim_start,
}
use zeptocapsule.Text.Utf8.{is_ascii→IsScalar, Bytes, into_bytes, from_utf8}
use zeptocapsule.Egress.Types.{allow, deny, EgressDecision, parse}
use zeptocapsule.Egress.Rules.{
  matcher, CompiledHost, evaluate, evaluate_rules, host_matches, methods_match, opt_path_matches,
  rule_matches,
}
use zeptocapsule.Egress.Ssrf.{
  IpAddr, v4, ipv4, classify_ip, classify_v4, classify_v6, classify_v6_net, is_broadcast,
  is_documentation, is_link_local, is_loopback, is_loopback6, is_multicast, is_multicast6,
  is_private, is_private_or_metadata, is_public, is_unspecified, is_unspecified6, to_ipv4_mapped,
}
use zeptocapsule.Egress.Proxy.{display}
use zeptocapsule.Egress.Proxy.Head.{
  HeadParse, complete, ParsedHead, parse_authority, after_scheme, host_of, is_absolute, is_connect,
  parse_request_head, path_of, raw_authority, split_authority,
}
use zeptocapsule.Egress.Proxy.Resolve.{
  Outside, ProxyState, eval_at, resolve_and_eval, resolve_judge,
}
use zeptocapsule.Egress.Proxy.Rewrite.{
  rewrite_request_for_origin, request_line, write_lines, crlf, header_name, is_proxy_only,
  kept_lines, new_head,
}
use zeptocapsule.Egress.Proxy.Sent.{line_of, without_proxy_only, head_text, rewrite-head_text}
use zeptocapsule.Egress.Proxy.Effects.{connections, entries}
use zeptocapsule.Egress.Proxy.Plain.{
  connected, Peer, handle_plain, decided, error_payload, log_decision, proceed, refuse, send,
  status_line, write_error,
}
use zeptocapsule.Egress.Proxy.Gate.{handle_plain-Logged}
use zeptocapsule.Egress.Proxy.Pinned.{IsGated, handle_plain-All-IsGated}
use zeptocapsule.Egress.Proxy.Tunnel.{
  TunnelPeer, handle_connect, dial_inner, host_and_port, judged_again, open_tunnel, phase_one,
  phase_two, send_inner, turn_away,
}

abbrev public_address : IpAddr
public_address = v4 (ipv4 8 8 8 8)

abbrev out : Outside Str (Unit {0})
out = record {
  globs = record { new = λ p. matcher p; is_match = λ m s. str_eq m s };
  nets = record { net4 = λ base p ip. false; net6 = λ s0 s1 p ip. false };
  lookup_host = λ host port. ok (public_address ∷ []);
}

abbrev state : ProxyState Str
state = record {
  policy = record {
    default_action = deny;
    rules =
        record {
          id = codes "openai";
          host = CompiledHost.exact (codes "api.openai.com");
          methods = none;
          path = none;
          action = allow;
        }
        ∷ [];
  };
  block_private_networks = true;
  default_action = deny;
  judge = none;
}

abbrev peer : Peer
peer = record {
  client_write = ok tt;
  dial = connected;
  upstream_write = ok tt;
  ts = 1;
  latency_us = 2;
}

abbrev old : Str
old = codes "GET http://api.openai.com/v1/models HTTP/1.1"

abbrev lines : List Str
lines =
    codes "Host: api.openai.com" ∷ codes "proxy-connection: keep-alive" ∷ codes "Accept: */*" ∷ []

abbrev raw : Bytes
raw = into_bytes (head_text old lines)

abbrev get_head : ParsedHead
get_head = record {
  method = codes "GET";
  target = codes "http://api.openai.com/v1/models";
  path = codes "/v1/models";
  host_header = some (codes "api.openai.com");
  head_len = length raw;
  http_version = 1;
}

abbrev connect_head : ParsedHead
connect_head = record {
  method = codes "CONNECT";
  target = codes "api.openai.com:443";
  path = [];
  host_header = none;
  head_len = 40;
  http_version = 1;
}

abbrev tls : TunnelPeer
tls = record {
  outer = peer;
  inner = peer;
  leaf_for = λ host. ok tt;
  accept = ok tt;
  inner_head_bytes = ok raw;
  server_name = λ host. ok tt;
  upstream_tls = ok tt;
}

abbrev httparse : Bytes → HeadParse
httparse buf = complete (length buf) (some (codes "GET")) (some (codes "/v1/models")) (some 1) []

plain_runs :
    (connections (handle_plain out state peer get_head raw).effects ≡ (public_address, 80) ∷ [])
    × ((handle_plain out state peer get_head raw).result ≡ ok tt)
unfolding handle_plain parse_authority raw_authority is_connect eq_ignore_ascii_case is_absolute
    starts_with split_authority rfind trim first_part after_scheme split_once decided
    resolve_and_eval eval_at is_private_or_metadata error_payload log_decision proceed refuse send
    status_line write_error resolve_judge header_name is_proxy_only kept_lines new_head request_line
    rewrite_request_for_origin write_lines display classify_ip classify_v4 classify_v6
    classify_v6_net is_broadcast is_documentation is_link_local is_loopback is_loopback6
    is_multicast is_multicast6 is_private is_public is_unspecified is_unspecified6 to_ipv4_mapped
    parse from_utf8 into_bytes decimal is_digit is_whitespace parse_uint scan_digits split str_eq
    to_ascii_lowercase to_ascii_uppercase to_lower to_upper trim_end trim_start evaluate
    evaluate_rules rule_matches host_matches methods_match opt_path_matches
plain_runs = (refl, refl)

tunnel_connects :
    connections (handle_connect out state httparse tls connect_head).effects
    ≡ (public_address, 443) ∷ []
unfolding handle_connect parse_authority raw_authority is_connect eq_ignore_ascii_case
    split_authority rfind trim starts_with parse_uint phase_one resolve_and_eval eval_at
    is_private_or_metadata classify_ip classify_v4 is_loopback after_scheme host_of is_absolute
    parse_request_head path_of log_decision resolve_judge header_name is_proxy_only kept_lines
    new_head request_line rewrite_request_for_origin write_lines dial_inner host_and_port
    judged_again open_tunnel phase_two send_inner turn_away display classify_v6 classify_v6_net
    is_broadcast is_documentation is_link_local is_loopback6 is_multicast is_multicast6 is_private
    is_public is_unspecified is_unspecified6 to_ipv4_mapped parse from_utf8 into_bytes decimal find
    first_part is_digit is_whitespace scan_digits split split_once str_eq to_ascii_lowercase
    to_ascii_uppercase to_lower to_upper trim_end trim_start evaluate evaluate_rules rule_matches
    host_matches methods_match opt_path_matches
tunnel_connects = refl

handle_plain-All-IsGated_example :
    All
      (IsGated out state peer get_head)
      (connections (handle_plain out state peer get_head raw).effects)
handle_plain-All-IsGated_example = handle_plain-All-IsGated out state peer get_head raw

handle_plain-Logged_example :
    (d : EgressDecision) × (entries (handle_plain out state peer get_head raw).effects ≡ d ∷ [])
    × ((d.decision ≡ deny) ⊎ ((d.decision ≡ allow) × (peer.dial ≡ connected)))
handle_plain-Logged_example = handle_plain-Logged out state peer get_head raw plain_runs.1

rewrite-head_text_example :
    rewrite_request_for_origin (into_bytes (head_text old lines) ++ 1 ∷ 2 ∷ []) get_head
    ≡ ok (
        into_bytes (
          line_of get_head.method get_head.path get_head.http_version
          ++ write_lines (without_proxy_only lines)
          ++ crlf)
        ++ 1 ∷ 2 ∷ [])
unfolding write_lines
rewrite-head_text_example =
    rewrite-head_text get_head old lines (1 ∷ 2 ∷ []) (ground arith) (ground arith)
      (is_ascii→IsScalar (head_text old lines) refl) refl
