-- ===== src/Egress/Proxy/Gate.antt =====
-- What `handle_plain` connects to and what it logs.
use zeptocapsule.Common.{ℕ, ◌≡◌, refl, ◌∙◌, ◌⊎◌, inl, inr, Option, [], ◌∷◌, if_intro}
use zeptocapsule.Common.Result.{Result, ok, err}
use zeptocapsule.Text.{Str}
use zeptocapsule.Text.Utf8.{Bytes}
use zeptocapsule.Egress.Types.{allow, deny, Method, EgressDecision}
use zeptocapsule.Egress.Proxy.{ProxyError}
use zeptocapsule.Egress.Proxy.Head.{ParsedHead, parse_authority}
use zeptocapsule.Egress.Proxy.Resolve.{Outside, ProxyState, ResolvedEval}
use zeptocapsule.Egress.Proxy.Rewrite.{rewrite_request_for_origin}
use zeptocapsule.Egress.Proxy.Effects.{
  reply, connect, forward, Run, emit, lift, attempt, ◌>>=◌, entries, entries-continue,
  entries-attempt,
}
use zeptocapsule.Egress.Proxy.Plain.{
  Dial, connected, refused, timed_out, Peer, entry, write_error, log_decision, error_payload,
  is_deny, refuse, send, proceed, decided, handle_plain,
}

module _ (peer : Peer) (method : Method) (url : Str) where
  refuse-entries :
      (status : ℕ) (body : Str) (rule reason : Option Str)
      → (refuse peer method url status body rule reason).result ≡ ok tt
      → entries (refuse peer method url status body rule reason).effects
        ≡ entry peer method url deny rule reason ∷ []
  unfolding refuse write_error log_decision
  refuse-entries status body rule reason h =
      let (t, wrote, rest, same) = entries-continue (write_error peer status body) _ h in
      same
      ∙ rw (entries-attempt peer.client_write (reply (error_payload status body)) refl, entries)
          refl

  -- what is logged on return: one entry, which allows only if the attempt to connect succeeded
  abbrev Logged : Dial → Run (Unit {0}) → Type 0
  Logged dial run =
      (d : EgressDecision) × (entries run.effects ≡ d ∷ [])
      × ((d.decision ≡ deny) ⊎ ((d.decision ≡ allow) × (dial ≡ connected)))

  send-entries :
      (eval : ResolvedEval) (sent : Bytes)
      → (send peer method url eval sent).result ≡ ok tt
      → entries (send peer method url eval sent).effects
        ≡ entry peer method url allow eval.matched_rule eval.judge_reason ∷ []
  unfolding send log_decision
  send-entries eval sent h =
      let (t, wrote, rest, same) =
        entries-continue (attempt peer.upstream_write (forward sent)) _ h in
      same ∙ rw (entries-attempt peer.upstream_write (forward sent) refl) refl

  proceed-Logged :
      (dial : Dial) (port : ℕ) (raw : Bytes) (head : ParsedHead) (eval : ResolvedEval)
      → (proceed peer method url dial port raw head eval).result ≡ ok tt
      → Logged dial (proceed peer method url dial port raw head eval)
  unfolding proceed
  proceed-Logged connected port raw head eval h =
      let (t, start, more, same) =
        entries-continue (emit (connect eval.ip port))
          (λ _. lift (rewrite_request_for_origin raw head) >>= send peer method url eval) h in
      let (sent, made, last, same1) =
        entries-continue (lift (rewrite_request_for_origin raw head)) (send peer method url eval)
          more in
      (
        entry peer method url allow eval.matched_rule eval.judge_reason,
        same ∙ (same1 ∙ send-entries eval sent last),
        inr (refl, refl),
      )
  proceed-Logged (refused e) port raw head eval h = (_, refuse-entries _ _ _ _ h, inl refl)
  proceed-Logged timed_out port raw head eval h = (_, refuse-entries _ _ _ _ h, inl refl)

  decided-Logged :
      (port : ℕ) (raw : Bytes) (head : ParsedHead) (r : Result ProxyError ResolvedEval)
      → (decided peer method url port raw head r).result ≡ ok tt
      → Logged peer.dial (decided peer method url port raw head r)
  unfolding decided
  decided-Logged port raw head (err e) h = (_, refuse-entries _ _ _ _ h, inl refl)
  decided-Logged port raw head (ok eval) h =
      if_intro (λ run. run.result ≡ ok tt → Logged peer.dial run) (is_deny eval.action)
        (λ denies h. (_, refuse-entries _ _ _ _ h, inl refl))
        (λ allows h. proceed-Logged peer.dial port raw head eval h) h

module _ {M E : Type 0} (out : Outside M E) (state : ProxyState M) (peer : Peer) where
  -- Where `handle_plain` returns without error, it has written exactly one audit entry, which denies, or
  -- allows and then the attempt to connect has succeeded.
  pub handle_plain-Logged :
      (head : ParsedHead) (raw : Bytes)
      → (handle_plain out state peer head raw).result ≡ ok tt
      → (d : EgressDecision) × (entries (handle_plain out state peer head raw).effects ≡ d ∷ [])
        × ((d.decision ≡ deny) ⊎ ((d.decision ≡ allow) × (peer.dial ≡ connected)))
  unfolding handle_plain
  handle_plain-Logged head raw h =
      let ((host, port), parsed, rest, same) =
        entries-continue (lift (parse_authority head 80)) _ h in
      let (d, logged, kind) = decided-Logged peer _ _ port raw head _ rest in
      (d, same ∙ logged, kind)
