-- ===== src/Egress/Judge/Decide.antt =====
-- `JudgeClient::decide`: one request to the judge, behind the circuit breaker.
use zeptocapsule.Common.{
  ℕ, ◌≡◌, ◌≢◌, ◌⊎◌, inl, inr, true, Option, ◌++◌, arith, Bool-cases, if◌then◌else◌,
}
use zeptocapsule.Text.{Str, codes}
use zeptocapsule.Egress.Types.{allow, deny, judge, Method, JudgeConfig}
use zeptocapsule.Common.Result.{ok, err, ◌>>=◌, ok_of_chain, Result-cases}
use zeptocapsule.Egress.Judge.{JudgeOutcome, Judged, display}
use zeptocapsule.Egress.Judge.Endpoint.{ParsedUrl, parse_endpoint}
use zeptocapsule.Egress.Judge.Outcome.{
  SerdeJson, Says, parse_judge_outcome, parse_judge_outcome_sound,
}
use zeptocapsule.Egress.Judge.Breaker.{CircuitBreaker, allow_call, record_success, record_failure}

pub record JudgeRequest : Type 0 where
  pub method : Method
  pub host : Str
  pub path : Str
  pub body_excerpt : Option Str

-- What is outside: the JSON crate, and the exchange with the endpoint (the request's body, the
-- connection, the timeout and the response's head), which gives the response's body or an error.
pub record Outside (V : Type 0) : Type 0 where
  pub json : SerdeJson V
  pub exchange : JudgeConfig → ParsedUrl → JudgeRequest → Judged Str

-- The times and the interleaving of one call: the instants at which the breaker is asked and at
-- which a failure is recorded, and what other requests do to the breaker in between.
pub record Timing : Type 0 where
  pub asked : ℕ
  pub ended : ℕ
  pub meanwhile : CircuitBreaker → CircuitBreaker

unfoldable pub fallback : JudgeConfig → Str → JudgeOutcome
fallback config reason = record { decision = config.fallback_on_unavailable; reason = reason }

module _ {V : Type 0} (out : Outside V) where
  unfoldable pub call_upstream : JudgeConfig → JudgeRequest → Judged JudgeOutcome
  call_upstream config req = do
    url ← parse_endpoint config.endpoint
    raw ← out.exchange config url req
    parse_judge_outcome out.json raw

  unfoldable pub settle :
      JudgeConfig → ℕ → CircuitBreaker → Judged JudgeOutcome → CircuitBreaker × JudgeOutcome
  settle config ended b (ok outcome) = (record_success b, outcome)
  settle config ended b (err e) =
      (record_failure ended b, fallback config (codes "judge error: " ++ display e))

  unfoldable pub decide :
      JudgeConfig → JudgeRequest → Timing → CircuitBreaker → CircuitBreaker × JudgeOutcome
  unfolding settle fallback
  decide config req timing b =
      let (b', admitted) = allow_call timing.asked b in
      if admitted
      then settle config timing.ended (timing.meanwhile b') (call_upstream config req)
      else (b', fallback config (codes "circuit breaker open"))

  -- The endpoint was asked, and its answer says this.
  pub record Answered (config : JudgeConfig) (req : JudgeRequest) (text : Str) : Type 0 where
    pub url : ParsedUrl
    pub raw : Str
    pub endpoint : parse_endpoint config.endpoint ≡ ok url
    pub response : out.exchange config url req ≡ ok raw
    pub says : Says out.json raw text

module _ {V : Type 0} (out : Outside V) where
  call_upstream_sound :
      (config : JudgeConfig) (req : JudgeRequest) (o : JudgeOutcome)
      → call_upstream out config req ≡ ok o
      → (Answered out config req (codes "allow") × (o.decision ≡ allow))
        ⊎ (Answered out config req (codes "deny") × (o.decision ≡ deny))
  unfolding call_upstream
  call_upstream_sound config req o h =
      let (url, e1, k1) = ok_of_chain _ (parse_endpoint config.endpoint) h in
      let (raw, e2, k2) = ok_of_chain _ (out.exchange config url req) k1 in
      let answered = λ (t : Str) (s : Says out.json raw t).
        let a : Answered out config req t = record {
          url = url;
          raw = raw;
          endpoint = e1;
          response = e2;
          says = s;
        } in
        a in
      elim (parse_judge_outcome_sound out.json raw o k2) [
        | inl (s, e) ↦ inl (answered (codes "allow") s, e)
        | inr (s, e) ↦ inr (answered (codes "deny") s, e)
      ]

  -- Where the fallback is to deny, the judge allows a request only if the breaker admitted the
  -- call and the endpoint was asked about it and answered with the decision "allow".
  pub decide_fails_closed :
      (config : JudgeConfig) (req : JudgeRequest) (timing : Timing) (b : CircuitBreaker)
      → config.fallback_on_unavailable ≡ deny
      → (decide out config req timing b).1.decision ≢ deny
      → ((allow_call timing.asked b).1 ≡ true)
        × Answered out config req (codes "allow")
        × ((decide out config req timing b).1.decision ≡ allow)
  unfolding decide
  decide_fails_closed config req timing b f h = elim (Bool-cases (allow_call timing.asked b).1) [
    | inr refused ↦ absurd (h (ground arith))
    | inl admitted ↦ elim (Result-cases (call_upstream out config req)) [
      | inr (e, failed) ↦ absurd (h (ground arith))
      | inl (o, done) ↦ elim (call_upstream_sound config req o done) [
        | inl (answered, allows) ↦ (admitted, answered, ground arith)
        | inr (answered, denies) ↦ absurd (h (ground arith))
      ]
    ]
  ]

  -- The judge's decision is `Judge` again only if that is the configured fallback.
  pub decide-ne-judge :
      (config : JudgeConfig) (req : JudgeRequest) (timing : Timing) (b : CircuitBreaker)
      → config.fallback_on_unavailable ≢ judge
      → (decide out config req timing b).1.decision ≢ judge
  unfolding decide
  decide-ne-judge config req timing b f = elim (Bool-cases (allow_call timing.asked b).1) [
    | inr refused ↦ ground arith
    | inl admitted ↦ elim (Result-cases (call_upstream out config req)) [
      | inr (e, failed) ↦ ground arith
      | inl (o, done) ↦ elim (call_upstream_sound config req o done) [
        | inl (answered, allows) ↦ ground arith
        | inr (answered, denies) ↦ ground arith
      ]
    ]
  ]
