-- ===== src/Egress/Rules/FirstMatch.antt =====
-- The engine decides by the first rule that covers the request, and by the default action if none does.
use zeptocapsule.Common.{
  ap, ◌≡◌, refl, ◌⊎◌, inl, inr, none, some, List, [], ◌∷◌, ◌++◌, arith, Bool-cases,
}
use zeptocapsule.Text.{Str, to_ascii_lowercase}
use zeptocapsule.Egress.Types.{EgressAction, Method, EgressRule, EgressPolicy}
use zeptocapsule.Common.Result.{ok, ok_injective, ok_of_chain}
use zeptocapsule.Egress.Rules.{
  Globset, CompiledHost, CompiledRule, CompiledPolicy, Request, Evaluation, compile_rule,
  compile_rules, compile, host_matches, rule_matches, evaluate_rules, evaluate,
}
use zeptocapsule.Egress.Rules.Matching.{RuleApplies, compile_rule-IsCompiled, rule_iff}

module _ {M E : Type 0} (g : Globset M E) where
  -- What the policy's author is promised: rules are read from the top, and the first match wins.
  abbrev pub Decides : EgressAction → List EgressRule → Request → Evaluation → Type 0
  Decides fallback [] req e = e ≡ record { action = fallback; matched_rule = none }
  Decides fallback (r ∷ rs) req e =
      (RuleApplies g r req × (e ≡ record { action = r.action; matched_rule = some r.id }))
      ⊎ (¬ RuleApplies g r req × Decides fallback rs req e)

module _ {M E : Type 0} (g : Globset M E) where
  evaluate_rules-Decides :
      (fallback : EgressAction) (rs : List EgressRule) (cs : List (CompiledRule M)) (req : Request)
      → compile_rules g rs ≡ ok cs
      → Decides g fallback rs req (evaluate_rules g fallback cs req)
  unfolding compile_rules evaluate_rules
  evaluate_rules-Decides fallback [] cs req h = rw (← ok_injective h)
  evaluate_rules-Decides fallback (r ∷ rs) cs req h =
      let (c, hc, more) = ok_of_chain _ (compile_rule g r) h in
      let (cs', hcs, eq) = ok_of_chain _ (compile_rules g rs) more in
      let k = compile_rule-IsCompiled g r c hc in
      let covers = rule_iff g r c req hc in
      rw (← ok_injective eq) (elim (Bool-cases (rule_matches g c req)) [
        | inl t ↦ inl (covers.0 t, rw (t, k.action, k.id) refl)
        | inr f ↦
            inr (λ a. cc (f, covers.1 a), rw f (evaluate_rules-Decides fallback rs cs' req hcs))
      ])

  -- Where a policy compiles, the engine's answer is the answer of the first rule, from the top,
  -- that covers the request as written, and the default action with no rule if none covers it.
  pub evaluate-Decides :
      (p : EgressPolicy) (c : CompiledPolicy M) (req : Request)
      → compile g p ≡ ok c
      → Decides g p.default_action p.rules req (evaluate g c req)
  unfolding compile evaluate
  evaluate-Decides p c req h =
      let (cs, hcs, eq) = ok_of_chain _ (compile_rules g p.rules) h in
      rw (← ok_injective eq) (evaluate_rules-Decides p.default_action p.rules cs req hcs)

  -- The answer depends on the host only up to the case of its letters.
  host_case :
      (m : CompiledHost M) (a b : Str)
      → to_ascii_lowercase a ≡ to_ascii_lowercase b
      → host_matches g m a ≡ host_matches g m b
  unfolding host_matches
  host_case (CompiledHost.exact s) a b h = rw h
  host_case (CompiledHost.suffix s) a b h = rw h
  host_case (CompiledHost.glob m) a b h = ap (g.is_match m) h

  evaluate_rules_case :
      (fallback : EgressAction) (cs : List (CompiledRule M)) (m : Method) (a b path : Str)
      → to_ascii_lowercase a ≡ to_ascii_lowercase b
      → evaluate_rules g fallback cs (record { method = m; host = a; path = path })
        ≡ evaluate_rules g fallback cs (record { method = m; host = b; path = path })
  unfolding evaluate_rules rule_matches
  evaluate_rules_case fallback [] m a b path h = refl
  evaluate_rules_case fallback (c ∷ cs) m a b path h =
      rw (host_case c.host a b h, evaluate_rules_case fallback cs m a b path h) refl

  -- Two requests whose hosts differ only in the case of ASCII letters get the same answer.
  pub evaluate_case :
      (c : CompiledPolicy M) (m : Method) (a b path : Str)
      → to_ascii_lowercase a ≡ to_ascii_lowercase b
      → evaluate g c (record { method = m; host = a; path = path })
        ≡ evaluate g c (record { method = m; host = b; path = path })
  unfolding evaluate
  evaluate_case c m a b path h = evaluate_rules_case c.default_action c.rules m a b path h

  -- A rule that covers nothing new cannot change an earlier match: what is added at the end of a
  -- rule list decides only the requests that no earlier rule matched.
  pub evaluate_rules-append :
      (fallback : EgressAction) (cs more : List (CompiledRule M)) (req : Request)
      → evaluate_rules g fallback (cs ++ more) req
        ≡ elim (evaluate_rules g fallback cs req).matched_rule [
          | none ↦ evaluate_rules g fallback more req
          | some id ↦ evaluate_rules g fallback cs req
        ]
  unfolding evaluate_rules
  evaluate_rules-append fallback [] more req = refl
  evaluate_rules-append fallback (c ∷ cs) more req =
      ground (arith, evaluate_rules-append fallback cs more req)
