-- ===== src/Egress/Proxy/Pinned.antt =====
-- Which addresses `handle_plain` connects to.
use zeptocapsule.Common.{ℕ, ◌≡◌, ◌≢◌, refl, ◌⊎◌, inl, inr, Option, [], ◌∷◌, ◌++◌, ap, All, if_intro}
use zeptocapsule.Common.Result.{Result, ok, err}
use zeptocapsule.Text.{Str}
use zeptocapsule.Text.Utf8.{Bytes}
use zeptocapsule.Egress.Types.{EgressAction, allow, deny, judge, Method}
use zeptocapsule.Egress.Types
use zeptocapsule.Egress.Ssrf.{IpAddr}
use zeptocapsule.Egress.Proxy.{ProxyError}
use zeptocapsule.Egress.Proxy.Head.{ParsedHead, parse_authority}
use zeptocapsule.Egress.Proxy.Resolve.{
  Outside, ProxyState, ResolvedEval, resolve_and_eval, IsChecked, resolve_and_eval-IsChecked,
}
use zeptocapsule.Egress.Proxy.Rewrite.{rewrite_request_for_origin, path_or_root}
use zeptocapsule.Egress.Proxy.Effects.{
  forward, Run, lift, attempt, ◌>>=◌, connections, connections-attempt, connections-continue,
}
use zeptocapsule.Egress.Proxy.Plain.{
  is_deny-eq-false, Dial, connected, refused, timed_out, Peer, write_error, log_decision,
  method_or_get, is_deny, refuse, send, proceed, decided, handle_plain,
}

module _ (peer : Peer) (method : Method) (url : Str) where
  refuse-connections :
      (status : ℕ) (body : Str) (rule reason : Option Str)
      → connections (refuse peer method url status body rule reason).effects ≡ []
  unfolding refuse write_error log_decision
  refuse-connections status body rule reason =
      connections-continue (write_error peer status body).effects
        (write_error peer status body).result _ (connections-attempt peer.client_write _ refl)
        (λ t e. refl)

  send-connections :
      (eval : ResolvedEval) (sent : Bytes)
      → connections (send peer method url eval sent).effects ≡ []
  unfolding send log_decision
  send-connections eval sent =
      connections-continue (attempt peer.upstream_write (forward sent)).effects
        (attempt peer.upstream_write (forward sent)).result _
        (connections-attempt peer.upstream_write (forward sent) refl) (λ t e. refl)

  -- the only connection is to the evaluation's address
  proceed-connections :
      (dial : Dial) (port : ℕ) (raw : Bytes) (head : ParsedHead) (eval : ResolvedEval)
      → (connections (proceed peer method url dial port raw head eval).effects ≡ [])
        ⊎ (connections (proceed peer method url dial port raw head eval).effects
            ≡ (eval.ip, port) ∷ [])
  unfolding proceed
  proceed-connections connected port raw head eval = inr (
      ap (λ cs. (eval.ip, port) ∷ cs)
        (connections-continue [] (rewrite_request_for_origin raw head) (send peer method url eval)
          refl (λ sent e. send-connections eval sent)))
  proceed-connections (refused e) port raw head eval = inl (refuse-connections _ _ _ _)
  proceed-connections timed_out port raw head eval = inl (refuse-connections _ _ _ _)

  -- a run connects nowhere, or to the address of an evaluation that does not deny
  abbrev Pinned : ℕ → Result ProxyError ResolvedEval → Run (Unit {0}) → Type 0
  Pinned port r run =
      (connections run.effects ≡ [])
      ⊎ ((eval : ResolvedEval) × (r ≡ ok eval)
          × (eval.action ≢ deny)
          × (connections run.effects ≡ (eval.ip, port) ∷ []))

  decided-Pinned :
      (port : ℕ) (raw : Bytes) (head : ParsedHead) (r : Result ProxyError ResolvedEval)
      → Pinned port r (decided peer method url port raw head r)
  unfolding decided
  decided-Pinned port raw head (err e) = inl (refuse-connections _ _ _ _)
  decided-Pinned port raw head (ok eval) =
      if_intro (λ run. Pinned port (ok eval) run) (is_deny eval.action)
        (λ denies. inl (refuse-connections _ _ _ _))
        (λ allows. elim (proceed-connections peer.dial port raw head eval) [
          | inl nowhere ↦ inl nowhere
          | inr there ↦ inr (eval, refl, is_deny-eq-false eval.action allows, there)
        ])

module _ {M E : Type 0} (out : Outside M E) (state : ProxyState M) (peer : Peer)
    (head : ParsedHead) where
  -- The address and the port that an evaluation checked, of the host and the port that the request names.
  pub IsGated : IpAddr × ℕ → Type 0
  IsGated (ip, port) =
      (host : Str) × (eval : ResolvedEval) × (parse_authority head 80 ≡ ok (host, port))
      × (eval.ip ≡ ip)
      × (eval.action ≢ deny)
      × IsChecked out state (method_or_get (Types.parse head.method)) host (path_or_root head.path)
          port eval

  handle_plain-IsGated_at :
      (r : Result ProxyError (Str × ℕ)) (raw : Bytes)
      → parse_authority head 80 ≡ r
      → All IsGated (
          connections
            (lift r >>= λ authority.
              decided peer
                (method_or_get (Types.parse head.method))
                (authority.0 ++ head.path)
                authority.1
                raw
                head
                (resolve_and_eval out state
                  (method_or_get (Types.parse head.method))
                  authority.0
                  (path_or_root head.path)
                  authority.1)).effects)
  unfolding IsGated
  handle_plain-IsGated_at (err e) raw parsed = tt
  handle_plain-IsGated_at (ok (host, port)) raw parsed =
      let method = method_or_get (Types.parse head.method) in
      let evaluated = resolve_and_eval out state method host (path_or_root head.path) port in
      elim (decided-Pinned peer method (host ++ head.path) port raw head evaluated) [
        | inl nowhere ↦ rw nowhere tt
        | inr (eval, same, allowed, there) ↦ rw there (
          (
            host,
            eval,
            parsed,
            refl,
            allowed,
            resolve_and_eval-IsChecked out state method host (path_or_root head.path) port eval same
                allowed,
          ),
          tt,
        )
      ]

  -- Every connection that `handle_plain` opens is to the host and port that the request names, at the
  -- first address that the name resolves to, which is not a refused one where private networks are
  -- blocked, and the rules and the judge have not denied the request.
  pub handle_plain-All-IsGated :
      (raw : Bytes) → All IsGated (connections (handle_plain out state peer head raw).effects)
  unfolding handle_plain
  handle_plain-All-IsGated raw = handle_plain-IsGated_at (parse_authority head 80) raw refl
