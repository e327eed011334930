-- ===== src/Egress/Proxy/Tunnel.antt =====
-- `handle_connect`: a CONNECT request, checked again for the request inside the tunnel.
use zeptocapsule.Common.{ℕ, Option, none, some, ◌++◌, if◌then◌else◌}
use zeptocapsule.Common.Result.{Result, ok, err}
use zeptocapsule.Text.{Str, codes, decimal}
use zeptocapsule.Text.Utf8.{Bytes}
use zeptocapsule.Egress.Types.{EgressAction, allow, deny, Method}
use zeptocapsule.Egress.Types
use zeptocapsule.Egress.Rules.{Evaluation, evaluate}
use zeptocapsule.Egress.Ssrf.{IpAddr}
use zeptocapsule.Egress.Proxy.{ProxyError, display}
use zeptocapsule.Egress.Proxy.Head.{
  HeadParse, ParsedHead, is_connect, parse_request_head, parse_authority,
}
use zeptocapsule.Egress.Proxy.Resolve.{
  Outside, ProxyState, ResolvedEval, resolve_judge, resolve_and_eval,
}
use zeptocapsule.Egress.Proxy.Rewrite.{rewrite_request_for_origin, path_or_root}
use zeptocapsule.Egress.Proxy.Effects.{
  reply, connect, forward, relay, Run, emit, lift, attempt, ◌>>=◌, ◌>>◌,
}
use zeptocapsule.Egress.Proxy.Plain.{
  Dial, connected, Peer, log_decision, method_or_get, is_deny, handle_plain,
}

-- What the environment does on a tunnel: `outer` is the client's connection, `inner` the tunnel and the
-- upstream connection; `leaf_for` the certificate for a host, the handshakes, and the bytes of the inner head.
pub record TunnelPeer : Type 0 where
  pub outer : Peer
  pub inner : Peer
  pub leaf_for : Str → Result ProxyError (Unit {0})
  pub accept : Result ProxyError (Unit {0})
  pub inner_head_bytes : Result ProxyError Bytes
  pub server_name : Str → Result ProxyError (Unit {0})
  pub upstream_tls : Result ProxyError (Unit {0})

-- `let _ = ..`: an error is dropped
abbrev pub ignored : Run (Unit {0}) → Run (Unit {0})
ignored m = record { effects = m.effects; result = ok tt }

-- a reply without a body, and the entry that denies
unfoldable pub turn_away : Peer → Method → Str → Str → Option Str → Option Str → Run (Unit {0})
turn_away peer method url text rule reason = do
  ignored (attempt peer.client_write (reply text))
  log_decision peer method url deny rule reason

abbrev pub text_403 : Str
text_403 = codes "HTTP/1.1 403 Forbidden\r\nContent-Length: 0\r\n\r\n"

abbrev pub text_502 : Str
text_502 = codes "HTTP/1.1 502 Bad Gateway\r\nContent-Length: 0\r\n\r\n"

abbrev pub text_200 : Str
text_200 = codes "HTTP/1.1 200 Connection Established\r\n\r\n"

unfoldable pub host_and_port : Str → ℕ → Str
host_and_port host port = host ++ codes ":" ++ decimal port

module _ (tls : TunnelPeer) (host : Str) (port : ℕ) (ip : IpAddr) where
  -- upstream is connected: its handshake, the rewritten head, the entry, then relay
  unfoldable pub send_inner : Method → Str → Option Str → Bytes → ParsedHead → Run (Unit {0})
  send_inner method url rule bytes head = do
    lift (tls.server_name host)
    lift tls.upstream_tls
    sent ← lift (rewrite_request_for_origin bytes head)
    attempt tls.inner.upstream_write (forward sent)
    log_decision tls.inner method url allow rule none
    emit relay

  unfoldable pub dial_inner : Dial → Method → Str → Option Str → Bytes → ParsedHead → Run (Unit {0})
  dial_inner connected method url rule bytes head =
      emit (connect ip port) >> send_inner method url rule bytes head
  dial_inner failed method url rule bytes head =
      turn_away tls.inner method url text_502 rule (some (codes "upstream connect/timeout"))

module _ {M E : Type 0} (out : Outside M E) (state : ProxyState M) where
  -- the rules and the judge for a request whose address is checked already
  unfoldable pub judged_again : Method → Str → Str → Evaluation × (EgressAction × Option Str)
  judged_again method host path =
      let eval =
        evaluate out.globs state.policy (record { method = method; host = host; path = path }) in
      (eval, resolve_judge out state eval.action method host path)

  -- phase 2, with the request inside the tunnel
  unfoldable pub phase_two : TunnelPeer → Str → ℕ → IpAddr → Bytes → ParsedHead → Run (Unit {0})
  phase_two tls host port ip bytes head =
      let method = method_or_get (Types.parse head.method) in
      let path = path_or_root head.path in
      let (eval, (decision, reason)) = judged_again method host path in
      if is_deny decision
      then turn_away tls.inner method (host ++ path) text_403 eval.matched_rule reason
      else dial_inner tls host port ip tls.inner.dial method (host ++ path) eval.matched_rule bytes
          head

  -- the tunnel is up: the client's handshake and the inner head
  unfoldable pub open_tunnel :
      (Bytes → HeadParse) → TunnelPeer → Str → ℕ → ResolvedEval → Run (Unit {0})
  open_tunnel httparse tls host port phase1 = do
    log_decision tls.outer Method.connect (host_and_port host port) allow phase1.matched_rule
        phase1.judge_reason
    attempt tls.outer.client_write (reply text_200)
    lift (tls.leaf_for host)
    lift tls.accept
    bytes ← lift tls.inner_head_bytes
    head ← lift (parse_request_head httparse bytes)
    phase_two tls host port phase1.ip bytes head

  -- phase 1, with the path `/`
  unfoldable pub phase_one :
      (Bytes → HeadParse) → TunnelPeer → Str → ℕ → Result ProxyError ResolvedEval → Run (Unit {0})
  phase_one httparse tls host port (err e) =
      turn_away tls.outer Method.connect (host_and_port host port) text_502 none
        (some (codes "resolve: " ++ display e))
  phase_one httparse tls host port (ok phase1) =
      if is_deny phase1.action
      then turn_away tls.outer Method.connect (host_and_port host port) text_403 phase1.matched_rule
          phase1.judge_reason
      else open_tunnel httparse tls host port phase1

  unfoldable pub handle_connect : (Bytes → HeadParse) → TunnelPeer → ParsedHead → Run (Unit {0})
  handle_connect httparse tls head = do
    (host, port) ← lift (parse_authority head 443)
    phase_one httparse tls host port
        (resolve_and_eval out state Method.connect host (codes "/") port)

  unfoldable pub serve : (Bytes → HeadParse) → TunnelPeer → Bytes → ParsedHead → Run (Unit {0})
  serve httparse tls header_bytes parsed =
      if is_connect parsed.method
      then handle_connect httparse tls parsed
      else handle_plain out state tls.outer parsed header_bytes

  -- `header_bytes` is what is read up to the empty line.
  unfoldable pub handle_connection :
      (Bytes → HeadParse) → TunnelPeer → Result ProxyError Bytes → Run (Unit {0})
  handle_connection httparse tls read = do
    header_bytes ← lift read
    parsed ← lift (parse_request_head httparse header_bytes)
    serve httparse tls header_bytes parsed
