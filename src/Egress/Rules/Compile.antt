-- ===== src/Egress/Rules/Compile.antt =====
-- Which policies compile, and which error a policy that does not compile gives.
use zeptocapsule.Common.{◌≡◌, refl, ◌↔◌, Option, none, some, List, [], ◌∷◌, arith, All}
use zeptocapsule.Text.{Str, to_ascii_lowercase}
use zeptocapsule.Egress.Types.{HostMatch, PathMatch, EgressRule, EgressPolicy}
use zeptocapsule.Common.Result.{ok, ok_of_chain}
use zeptocapsule.Egress.Rules.{
  Globset, matcher, CompiledHost, CompiledPath, CompiledPolicy, Compiled, compile_host,
  compile_path, compile_rule, compile_rules, compile,
}

module _ {M E : Type 0} (g : Globset M E) where
  abbrev pub Accepts : Str → Type 0
  Accepts pat = (m : M) × (g.new pat ≡ matcher m)

  abbrev pub HostIsValid : HostMatch → Type 0
  HostIsValid (HostMatch.glob pat) = Accepts (to_ascii_lowercase pat)
  HostIsValid hm = Unit

  abbrev pub PathIsValid : Option PathMatch → Type 0
  PathIsValid (some (PathMatch.glob pat)) = Accepts pat
  PathIsValid pm = Unit

  -- The globs of a rule are accepted by the glob compiler, the host's in lower case.
  abbrev pub GlobsAreValid : EgressRule → Type 0
  GlobsAreValid r = HostIsValid r.host_match × PathIsValid r.path_match

module _ {M E : Type 0} (g : Globset M E) where
  abbrev IsOk : {A : Type 0} → Compiled E A → Type 0
  IsOk {A} m = (a : A) × (m ≡ ok a)

  compile_host_iff : (id : Str) (hm : HostMatch) → IsOk (compile_host g id hm) ↔ HostIsValid g hm
  unfolding compile_host
  compile_host_iff id (HostMatch.exact s) =
      (λ _. tt, λ _. (CompiledHost.exact (to_ascii_lowercase s), refl))
  compile_host_iff id (HostMatch.suffix s) =
      (λ _. tt, λ _. (CompiledHost.suffix (to_ascii_lowercase s), refl))
  compile_host_iff id (HostMatch.glob pat) =
      (λ h. ground arith, λ h. (CompiledHost.glob h.0, rw (h.1, compile_host)))

  compile_path_iff :
      (id : Str) (pm : Option PathMatch) → IsOk (compile_path g id pm) ↔ PathIsValid g pm
  unfolding compile_path
  compile_path_iff id none = (λ _. tt, λ _. (none, refl))
  compile_path_iff id (some (PathMatch.exact s)) =
      (λ _. tt, λ _. (some (CompiledPath.exact s), refl))
  compile_path_iff id (some (PathMatch.prefix s)) =
      (λ _. tt, λ _. (some (CompiledPath.prefix s), refl))
  compile_path_iff id (some (PathMatch.glob pat)) =
      (λ h. ground arith, λ h. (some (CompiledPath.glob h.0), rw (h.1, compile_path)))

  compile_rule_iff : (r : EgressRule) → IsOk (compile_rule g r) ↔ GlobsAreValid g r
  unfolding compile_rule
  compile_rule_iff r =
      let hi = compile_host_iff r.id r.host_match in
      let pi = compile_path_iff r.id r.path_match in
      (
        λ (c, h).
            let (host, hh, more) = ok_of_chain _ (compile_host g r.id r.host_match) h in
            let (path, hp, eq) = ok_of_chain _ (compile_path g r.id r.path_match) more in
            (hi.0 (host, hh), pi.0 (path, hp)),
        λ (hh, hp).
            let (host, eh) = hi.1 hh in
            let (path, ep) = pi.1 hp in
            (
              record {
                id = r.id;
                host = host;
                methods = r.method_match;
                path = path;
                action = r.action;
              },
              rw (eh, ep),
            ),
      )

  compile_rules_iff : (rs : List EgressRule) → IsOk (compile_rules g rs) ↔ All (GlobsAreValid g) rs
  unfolding compile_rules
  compile_rules_iff [] = (λ _. tt, λ _. ([], refl))
  compile_rules_iff (r ∷ rs) =
      let ri = compile_rule_iff r in
      let ih = compile_rules_iff rs in
      (
        λ (cs, h).
            let (c, hc, more) = ok_of_chain _ (compile_rule g r) h in
            let (cs', hcs, eq) = ok_of_chain _ (compile_rules g rs) more in
            (ri.0 (c, hc), ih.0 (cs', hcs)),
        λ (hr, hs). let (c, ec) = ri.1 hr in let (cs, es) = ih.1 hs in (c ∷ cs, rw (ec, es)),
      )

  -- A policy compiles exactly if the glob compiler accepts every glob in it.
  pub compile_iff :
      (p : EgressPolicy)
      → ((c : CompiledPolicy M) × (compile g p ≡ ok c)) ↔ All (GlobsAreValid g) p.rules
  unfolding compile
  compile_iff p =
      let ri = compile_rules_iff p.rules in
      (
        λ (c, h). let (cs, hcs, eq) = ok_of_chain _ (compile_rules g p.rules) h in ri.0 (cs, hcs),
        λ h.
            let (cs, e) = ri.1 h in
            (record { default_action = p.default_action; rules = cs }, rw e),
      )
