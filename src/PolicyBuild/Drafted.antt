-- ===== src/PolicyBuild/Drafted.antt =====
-- The drafted policy allows what was observed, and nothing else.
use zeptocapsule.Common.{
  ◌≡◌, ◌≢◌, refl, sym, ap, ◌∙◌, ◌↔◌, ◌⊎◌, inl, inr, true, Bool-cases, List, [], ◌∷◌, map,
}
use zeptocapsule.Common.Result.{ok}
use zeptocapsule.Text.{Str, to_ascii_lowercase}
use zeptocapsule.Text.Laws.{to_ascii_lowercase_idem}
use zeptocapsule.Egress.Types.{allow, deny, Method, EgressDecision}
use zeptocapsule.Egress.Rules.{Globset, CompiledPolicy, Request, Evaluation, compile, evaluate}
use zeptocapsule.Egress.Rules.Matching.{OneOf, RuleApplies}
use zeptocapsule.Egress.Rules.FirstMatch.{Decides, evaluate-Decides}
use zeptocapsule.PolicyBuild.{
  Table, host_from_url, is_allow, insert_named, observe, collect, to_rule, build_policy,
}
use zeptocapsule.PolicyBuild.Table.{Seen, insert_host_iff}

-- An entry of the log that allowed the method for the host, in lower case.
abbrev pub Observed : List EgressDecision → Str → Method → Type 0
Observed [] k n = ⊥
Observed (d ∷ log) k n =
    ((is_allow d.decision ≡ true)
      × (host_from_url d.url ≢ [])
      × (to_ascii_lowercase (host_from_url d.url) ≡ k)
      × (d.method ≡ n))
    ⊎ Observed log k n

insert_named_iff :
    (host : Str) (m : Method) (table : Table) (k : Str) (n : Method)
    → Seen (insert_named host m table) k n
      ↔ (((host ≢ []) × (to_ascii_lowercase host ≡ k) × (m ≡ n)) ⊎ Seen table k n)
insert_named_iff [] m table k n =
    ((λ s. inr s), λ s. elim s [ inl (ne, e, f) ↦ absurd (ne refl) | inr old ↦ old ])
insert_named_iff (c ∷ host) m table k n =
    let (to, from) = insert_host_iff (to_ascii_lowercase (c ∷ host)) m table k n in
    (
      (λ s. elim (to s) [ inl (e, f) ↦ inl ((λ a. cc), e, f) | inr old ↦ inr old ]),
      λ s. elim s [ inl (ne, e, f) ↦ from (inl (e, f)) | inr old ↦ from (inr old) ],
    )

observe_iff :
    (d : EgressDecision) (table : Table) (k : Str) (n : Method)
    → Seen (observe d table) k n ↔ (
        ((is_allow d.decision ≡ true)
          × (host_from_url d.url ≢ [])
          × (to_ascii_lowercase (host_from_url d.url) ≡ k)
          × (d.method ≡ n))
        ⊎ Seen table k n)
unfolding observe
observe_iff d table k n = elim (Bool-cases (is_allow d.decision)) [
  | inl allows ↦
      (let (to, from) = insert_named_iff (host_from_url d.url) d.method table k n in
        rw allows (
          (λ s. elim (to s) [ inl (ne, e, f) ↦ inl (refl, ne, e, f) | inr old ↦ inr old ]),
          λ s. elim s [ inl (a, ne, e, f) ↦ from (inl (ne, e, f)) | inr old ↦ from (inr old) ],
        ))
  | inr denies ↦ rw denies ((λ s. inr s), λ s. elim s [ inl (a, ne, e, f) ↦ cc | inr old ↦ old ])
]

-- The table holds what was observed.
collect_iff :
    (log : List EgressDecision) (table : Table) (k : Str) (n : Method)
    → Seen (collect log table) k n ↔ (Observed log k n ⊎ Seen table k n)
unfolding collect
collect_iff [] table k n = ((λ s. inr s), λ s. elim s [ inl a ↦ absurd a | inr old ↦ old ])
collect_iff (d ∷ log) table k n =
    let (to, from) = collect_iff log (observe d table) k n in
    let (to_one, from_one) = observe_iff d table k n in
    (
      (λ s. elim (to s) [
        | inl more ↦ inl (inr more)
        | inr now ↦ elim (to_one now) [ inl new ↦ inl (inl new) | inr old ↦ inr old ]
      ]),
      λ s. elim s [
        | inl seen ↦ elim seen [
          | inl new ↦ from (inr (from_one (inl new)))
          | inr more ↦ from (inl more)
        ]
        | inr old ↦ from (inr (from_one (inr old)))
      ],
    )

-- Every key of the table is in lower case.
Observed-lowercase :
    (log : List EgressDecision) (k : Str) (n : Method) → Observed log k n → to_ascii_lowercase k ≡ k
Observed-lowercase [] k n h = absurd h
Observed-lowercase (d ∷ log) k n (inl (a, ne, e, f)) =
    rw (← e) (to_ascii_lowercase_idem (host_from_url d.url))
Observed-lowercase (d ∷ log) k n (inr h) = Observed-lowercase log k n h

module _ {M E : Type 0} (g : Globset M E) where
  -- A drafted rule applies to the hosts that are its key but for case, with one of its methods.
  applies_iff :
      (k : Str) (ms : List Method) (req : Request)
      → RuleApplies g (to_rule (k, ms)) req
        ↔ ((to_ascii_lowercase req.host ≡ to_ascii_lowercase k) × OneOf ms req.method)
  applies_iff k ms req =
      ((λ a. (a.host, a.method)), λ (h, m). record { host = h; method = m; path = tt })

  -- a key of the table that is the request's host but for case, with the request's method
  abbrev Found : Table → Request → Type 0
  Found table req =
      (k : Str) × (to_ascii_lowercase req.host ≡ to_ascii_lowercase k) × Seen table k req.method

  Decides-iff :
      (table : Table) (req : Request) (e : Evaluation)
      → Decides g deny (map to_rule table) req e
      → (e.action ≡ allow) ↔ Found table req
  Decides-iff [] req e h =
      ((λ a. (let d = ap (λ (v : Evaluation). v.action) h in cc)), λ (k, same, s). absurd s)
  Decides-iff ((k, ms) ∷ table) req e h =
      let (to, from) = applies_iff k ms req in
      elim h [
        | inl (applies, is) ↦
            (let (same, m) = to applies in
              ((λ a. (k, same, inl (refl, m))), λ f. ap (λ (v : Evaluation). v.action) is))
        | inr (none_here, later) ↦
            (let (to_later, from_later) = Decides-iff table req e later in
              (
                (λ a. let (j, same, s) = to_later a in (j, same, inr s)),
                λ (j, same, s). elim s [
                  | inl (eq, m) ↦ absurd (none_here (from (rw eq same, m)))
                  | inr s' ↦ from_later (j, same, s')
                ],
              ))
      ]

  -- A compiled draft allows a request exactly if an allowed entry of the log has its method and, but for
  -- the case of ASCII letters, its host; the path does not matter.
  pub build_policy_iff :
      (log : List EgressDecision) (c : CompiledPolicy M) (req : Request)
      → compile g (build_policy log) ≡ ok c
      → ((evaluate g c req).action ≡ allow) ↔ Observed log (to_ascii_lowercase req.host) req.method
  unfolding build_policy
  build_policy_iff log c req h =
      let (to, from) =
        Decides-iff (collect log []) req (evaluate g c req)
          (evaluate-Decides g (build_policy log) c req h) in
      (
        (λ a.
            let (k, same, s) = to a in
            let (to_log, from_log) = collect_iff log [] k req.method in
            let o : Observed log k req.method = (elim (to_log s) [
              | inl o ↦ o
              | inr x ↦ absurd x
            ]) in
            rw (same ∙ Observed-lowercase log k req.method o) o),
        λ o.
            let (to_log, from_log) = collect_iff log [] (to_ascii_lowercase req.host) req.method in
            from (
              to_ascii_lowercase req.host,
              sym (to_ascii_lowercase_idem req.host),
              from_log (inl o),
            ),
      )
