-- ===== src/Egress/Judge/Outcome.antt =====
-- `parse_judge_outcome`: the judge's answer, which must be strict JSON with a decision.
use mathlib.Core.Path.{subst}
use zeptocapsule.Common.{
  ℕ, ◌≡◌, ◌⊎◌, inl, inr, Option, none, some, ◌++◌, arith, Bool-cases, if◌then◌else◌,
}
use zeptocapsule.Text.{Str, codes, str_eq}
use zeptocapsule.Text.Laws.{str_eq→eq}
use zeptocapsule.Egress.Types.{EgressAction, allow, deny}
use zeptocapsule.Common.Result.{ok, err, ◌>>=◌, ok_or, ok_or-eq-ok, ok_of_chain}
use zeptocapsule.Egress.Judge.{JudgeError, JudgeOutcome, Judged, malformed_response, schema}

-- what `serde_json::from_str` returns: a value, or an error's text
pub data FromStr (V : Type 0) : Type 0 where
  value : V → FromStr V
  invalid : Str → FromStr V

-- The serde_json crate: `get` is `Value::get` at a key, `get_index` at an index.
pub record SerdeJson (V : Type 0) : Type 0 where
  pub from_str : Str → FromStr V
  pub get : Str → V → Option V
  pub get_index : ℕ → V → Option V
  pub as_str : V → Option Str

abbrev and_then : {A B : Type 0} → Option A → (A → Option B) → Option B
and_then none f = none
and_then (some a) f = f a

unfoldable pub parsed : {V : Type 0} → (Str → JudgeError) → FromStr V → Judged V
parsed fail (value v) = ok v
parsed fail (invalid e) = err (fail e)

-- `match decision_str`
unfoldable pub decision_of : Str → Judged EgressAction
decision_of text =
    if str_eq text (codes "allow")
    then ok allow
    else if str_eq text (codes "deny")
    then ok deny
    else err (schema (codes "decision must be 'allow' or 'deny', got '" ++ text ++ codes "'"))

abbrev pub reason_or : Option Str → Str
reason_or none = codes "(no reason)"
reason_or (some r) = r

module _ {V : Type 0} (json : SerdeJson V) where
  -- `choices[0].message.content`
  unfoldable pub content_of : V → Option Str
  content_of v = and_then (json.get (codes "choices") v) λ c. and_then (json.get_index 0 c) λ first.
      and_then (json.get (codes "message") first)
        λ m. and_then (json.get (codes "content") m) json.as_str

  unfoldable pub text_at : Str → V → Option Str
  text_at key v = and_then (json.get key v) json.as_str

  unfoldable pub parse_judge_outcome : Str → Judged JudgeOutcome
  parse_judge_outcome response = do
    v ←
        parsed (λ e. malformed_response (codes "response is not JSON: " ++ e))
          (json.from_str response)
    content ← ok_or (malformed_response (codes "missing choices[0].message.content")) (content_of v)
    inner ← parsed (λ e. schema (codes "inner JSON: " ++ e)) (json.from_str content)
    text ← ok_or (schema (codes "missing decision")) (text_at (codes "decision") inner)
    decision ← decision_of text
    ok (record { decision = decision; reason = reason_or (text_at (codes "reason") inner) })

  -- The answer says so: the response and its content are JSON, and the decision's text is this one.
  pub record Says (response : Str) (text : Str) : Type 0 where
    pub outer : V
    pub content : Str
    pub inner : V
    pub response_json : json.from_str response ≡ value outer
    pub has_content : content_of outer ≡ some content
    pub content_json : json.from_str content ≡ value inner
    pub has_decision : text_at (codes "decision") inner ≡ some text

decision_of_sound :
    (text : Str) (a : EgressAction)
    → decision_of text ≡ ok a
    → ((text ≡ codes "allow") × (a ≡ allow)) ⊎ ((text ≡ codes "deny") × (a ≡ deny))
unfolding decision_of
decision_of_sound text a h = elim (Bool-cases (str_eq text (codes "allow"))) [
  | inl y ↦ inl (str_eq→eq text (codes "allow") y, ground arith)
  | inr n ↦ elim (Bool-cases (str_eq text (codes "deny"))) [
    | inl y ↦ inr (str_eq→eq text (codes "deny") y, ground arith)
    | inr m ↦ ground arith
  ]
]

parsed-eq-ok :
    {V : Type 0} (fail : Str → JudgeError) (r : FromStr V) {v : V}
    → parsed fail r ≡ ok v
    → r ≡ value v
unfolding parsed
parsed-eq-ok fail (value v) h = cc
parsed-eq-ok fail (invalid e) h = cc

module _ {V : Type 0} (json : SerdeJson V) where
  -- An outcome is returned only for an answer whose decision is the text "allow" or "deny", and it
  -- is the decision that the text names.
  pub parse_judge_outcome_sound :
      (response : Str) (o : JudgeOutcome)
      → parse_judge_outcome json response ≡ ok o
      → (Says json response (codes "allow") × (o.decision ≡ allow))
        ⊎ (Says json response (codes "deny") × (o.decision ≡ deny))
  unfolding parse_judge_outcome
  parse_judge_outcome_sound response o h =
      let (v, e1, k1) = ok_of_chain _ (parsed _ (json.from_str response)) h in
      let (content, e2, k2) = ok_of_chain _ (ok_or _ (content_of json v)) k1 in
      let (inner, e3, k3) = ok_of_chain _ (parsed _ (json.from_str content)) k2 in
      let (text, e4, k4) = ok_of_chain _ (ok_or _ (text_at json (codes "decision") inner)) k3 in
      let (a, e5, k5) = ok_of_chain _ (decision_of text) k4 in
      let d = decision_of_sound text a e5 in
      let says : Says json response text = record {
        outer = v;
        content = content;
        inner = inner;
        response_json = parsed-eq-ok _ (json.from_str response) e1;
        has_content = ok_or-eq-ok _ (content_of json v) e2;
        content_json = parsed-eq-ok _ (json.from_str content) e3;
        has_decision = ok_or-eq-ok _ (text_at json (codes "decision") inner) e4;
      } in
      elim d [
        | inl (t, e) ↦ inl (subst (Says json response) t says, cc (e, k5))
        | inr (t, e) ↦ inr (subst (Says json response) t says, cc (e, k5))
      ]
