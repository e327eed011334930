-- ===== src/Egress/Proxy/Plain.antt =====
-- `handle_plain`: a request that is not CONNECT.
use zeptocapsule.Common.{
  ℕ, ◌≡◌, ◌≢◌, Bool, true, false, Option, none, some, ◌++◌, length, if◌then◌else◌, ◌==◌,
}
use zeptocapsule.Common.Result.{Result, ok, err}
use zeptocapsule.Text.{Str, codes, decimal}
use zeptocapsule.Text.Utf8.{Bytes, into_bytes}
use zeptocapsule.Egress.Types.{EgressAction, allow, deny, judge, Method, get, EgressDecision}
use zeptocapsule.Egress.Types
use zeptocapsule.Egress.Proxy.{ProxyError, display}
use zeptocapsule.Egress.Proxy.Head.{ParsedHead, parse_authority}
use zeptocapsule.Egress.Proxy.Resolve.{Outside, ProxyState, ResolvedEval, resolve_and_eval}
use zeptocapsule.Egress.Proxy.Rewrite.{rewrite_request_for_origin, path_or_root}
use zeptocapsule.Egress.Proxy.Effects.{
  reply, connect, forward, log, relay, Run, emit, lift, attempt, ◌>>=◌, ◌>>◌,
}

-- how the attempt to connect upstream ends
pub data Dial : Type 0 where
  connected : Dial
  refused : Str → Dial
  timed_out : Dial

-- What the environment does on one connection: the writes to the client and upstream, the attempt
-- to connect, and the time and latency of the audit entry.
pub record Peer : Type 0 where
  pub client_write : Result ProxyError (Unit {0})
  pub dial : Dial
  pub upstream_write : Result ProxyError (Unit {0})
  pub ts : ℕ
  pub latency_us : ℕ

unfoldable pub status_line : ℕ → Str
status_line status =
    if status == 403
    then codes "HTTP/1.1 403 Forbidden"
    else if status == 404
    then codes "HTTP/1.1 404 Not Found"
    else if status == 502
    then codes "HTTP/1.1 502 Bad Gateway"
    else if status == 504
    then codes "HTTP/1.1 504 Gateway Timeout"
    else codes "HTTP/1.1 500 Internal Server Error"

unfoldable pub error_payload : ℕ → Str → Str
error_payload status body =
    status_line status
    ++ codes "\r\nContent-Type: text/plain\r\nContent-Length: "
    ++ decimal (length (into_bytes body))
    ++ codes "\r\nConnection: close\r\n\r\n"
    ++ body

unfoldable pub write_error : Peer → ℕ → Str → Run (Unit {0})
write_error peer status body = attempt peer.client_write (reply (error_payload status body))

abbrev pub entry : Peer → Method → Str → EgressAction → Option Str → Option Str → EgressDecision
entry peer method url decision matched_rule judge_reason = record {
  ts = peer.ts;
  method = method;
  url = url;
  decision = decision;
  matched_rule = matched_rule;
  judge_reason = judge_reason;
  latency_us = peer.latency_us;
}

unfoldable pub log_decision :
    Peer → Method → Str → EgressAction → Option Str → Option Str → Run (Unit {0})
log_decision peer method url decision matched_rule judge_reason =
    emit (log (entry peer method url decision matched_rule judge_reason))

abbrev pub method_or_get : Option Method → Method
method_or_get none = get
method_or_get (some m) = m

abbrev pub is_deny : EgressAction → Bool
is_deny deny = true
is_deny action = false

pub is_deny-eq-false : (a : EgressAction) → is_deny a ≡ false → a ≢ deny
is_deny-eq-false allow h = λ e. cc
is_deny-eq-false deny h = cc
is_deny-eq-false judge h = λ e. cc

module _ (peer : Peer) (method : Method) (url : Str) where
  -- an error reply, and the entry that denies
  unfoldable pub refuse : ℕ → Str → Option Str → Option Str → Run (Unit {0})
  refuse status body rule reason = do
    write_error peer status body
    log_decision peer method url deny rule reason

  -- upstream is connected: send, log, then relay
  unfoldable pub send : ResolvedEval → Bytes → Run (Unit {0})
  send eval sent = do
    attempt peer.upstream_write (forward sent)
    log_decision peer method url allow eval.matched_rule eval.judge_reason
    emit relay

  -- after the rules: `port` is the port of the request, `head` and `raw` its head and its bytes
  unfoldable pub proceed : Dial → ℕ → Bytes → ParsedHead → ResolvedEval → Run (Unit {0})
  proceed connected port raw head eval =
      emit (connect eval.ip port) >> (lift (rewrite_request_for_origin raw head) >>= send eval)
  proceed (refused e) port raw head eval =
      refuse 502 (codes "upstream connect failed") eval.matched_rule
        (some (codes "upstream: " ++ e))
  proceed timed_out port raw head eval =
      refuse 504 (codes "upstream timeout") eval.matched_rule (some (codes "upstream timeout"))

  unfoldable pub decided : ℕ → Bytes → ParsedHead → Result ProxyError ResolvedEval → Run (Unit {0})
  decided port raw head (err e) =
      refuse 502 (codes "DNS or SSRF check failed") none (some (codes "resolve: " ++ display e))
  decided port raw head (ok eval) =
      if is_deny eval.action
      then refuse 403 (codes "Egress denied by ZeptoCapsule policy") eval.matched_rule
          eval.judge_reason
      else proceed peer.dial port raw head eval

module _ {M E : Type 0} (out : Outside M E) (state : ProxyState M) where
  unfoldable pub handle_plain : Peer → ParsedHead → Bytes → Run (Unit {0})
  handle_plain peer head raw = do
    (host, port) ← lift (parse_authority head 80)
    let method = method_or_get (Types.parse head.method)
    let eval = resolve_and_eval out state method host (path_or_root head.path) port
    decided peer method (host ++ head.path) port raw head eval
