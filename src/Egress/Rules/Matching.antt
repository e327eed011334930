-- ===== src/Egress/Rules/Matching.antt =====
-- The tests of a compiled rule against what the policy's author wrote.
use mathlib.Core.Path.{subst}
use zeptocapsule.Common.{
  sym, ◌≡◌, refl, ◌↔◌, ◌⊎◌, inl, inr, true, Option, none, some, List, [], ◌∷◌, arith, Bool-cases,
  ◌==◌,
}
use zeptocapsule.Text.{Str, to_ascii_lowercase}
use zeptocapsule.Text.Laws.{IsSuffix, IsPrefix, str_eq_iff, ends_with_iff, starts_with_iff}
use zeptocapsule.Egress.Types.{Method, rank, HostMatch, PathMatch, EgressRule}
use zeptocapsule.Common.Result.{ok, ok_injective}
use zeptocapsule.Egress.Rules.{
  Globset, matcher, CompiledHost, CompiledPath, CompiledRule, Request, contains, compile_host,
  compile_path, compile_rule, host_matches, path_matches, methods_match, opt_path_matches,
  rule_matches,
}

-- The method is one of the list.
abbrev pub OneOf : List Method → Method → Type 0
OneOf [] m = ⊥
OneOf (n ∷ ms) m = (n ≡ m) ⊎ OneOf ms m

pub rank_injective : (a b : Method) → rank a ≡ rank b → a ≡ b
rank_injective a b h = ground arith

contains→OneOf : (ms : List Method) (m : Method) → contains ms m ≡ true → OneOf ms m
unfolding contains
contains→OneOf [] m h = cc
contains→OneOf (n ∷ ms) m h = elim (Bool-cases (rank n == rank m)) [
  | inl e ↦ inl (rank_injective n m (ground arith))
  | inr e ↦ inr (contains→OneOf ms m (ground arith))
]

OneOf→contains : (ms : List Method) (m : Method) → OneOf ms m → contains ms m ≡ true
unfolding contains
OneOf→contains [] m h = elim h [ ]
OneOf→contains (n ∷ ms) m (inl e) = rw e (ground arith)
OneOf→contains (n ∷ ms) m (inr h) = ground (arith, OneOf→contains ms m h)

abbrev pub MethodApplies : Option (List Method) → Method → Type 0
MethodApplies none m = Unit
MethodApplies (some ms) m = OneOf ms m

module _ {M E : Type 0} (g : Globset M E) where
  -- What a host pattern says of a host, whatever the letters' case.
  abbrev pub HostApplies : HostMatch → Str → Type 0
  HostApplies (HostMatch.exact s) host = to_ascii_lowercase host ≡ to_ascii_lowercase s
  HostApplies (HostMatch.suffix s) host = IsSuffix (to_ascii_lowercase s) (to_ascii_lowercase host)
  HostApplies (HostMatch.glob pat) host =
      (m : M) × (g.new (to_ascii_lowercase pat) ≡ matcher m)
      × (g.is_match m (to_ascii_lowercase host) ≡ true)

  abbrev pub PathApplies : Option PathMatch → Str → Type 0
  PathApplies none path = Unit
  PathApplies (some (PathMatch.exact s)) path = path ≡ s
  PathApplies (some (PathMatch.prefix s)) path = IsPrefix s path
  PathApplies (some (PathMatch.glob pat)) path =
      (m : M) × (g.new pat ≡ matcher m) × (g.is_match m path ≡ true)

  -- The rule, as its author wrote it, covers the request.
  pub record RuleApplies (r : EgressRule) (req : Request) : Type 0 where
    pub host : HostApplies r.host_match req.host
    pub method : MethodApplies r.method_match req.method
    pub path : PathApplies r.path_match req.path

contains_iff : (ms : List Method) (m : Method) → (contains ms m ≡ true) ↔ OneOf ms m
contains_iff ms m = (contains→OneOf ms m, OneOf→contains ms m)

module _ {M E : Type 0} (g : Globset M E) where
  host_iff :
      (id : Str) (hm : HostMatch) (c : CompiledHost M) (host : Str)
      → compile_host g id hm ≡ ok c
      → (host_matches g c host ≡ true) ↔ HostApplies g hm host
  unfolding compile_host host_matches
  host_iff id (HostMatch.exact s) c host h = rw (← ok_injective h) (str_eq_iff _ _)
  host_iff id (HostMatch.suffix s) c host h = rw (← ok_injective h) (ends_with_iff _ _)
  host_iff id (HostMatch.glob pat) c host h = (λ t. ground arith, λ t. ground arith)

  path_iff :
      (id : Str) (pm : Option PathMatch) (c : Option (CompiledPath M)) (path : Str)
      → compile_path g id pm ≡ ok c
      → (opt_path_matches g c path ≡ true) ↔ PathApplies g pm path
  unfolding compile_path opt_path_matches path_matches
  path_iff id none c path h = rw (← ok_injective h) (λ _. tt, λ _. refl)
  path_iff id (some (PathMatch.exact s)) c path h = rw (← ok_injective h) (str_eq_iff _ _)
  path_iff id (some (PathMatch.prefix s)) c path h = rw (← ok_injective h) (starts_with_iff _ _)
  path_iff id (some (PathMatch.glob pat)) c path h = (λ t. ground arith, λ t. ground arith)

  method_iff :
      (mm : Option (List Method)) (m : Method) → (methods_match g mm m ≡ true) ↔ MethodApplies mm m
  unfolding methods_match
  method_iff none m = (λ _. tt, λ _. refl)
  method_iff (some ms) m = contains_iff ms m

  -- The compiled form of a rule: its parts are compiled, and the rest is copied.
  pub record IsCompiled (r : EgressRule) (c : CompiledRule M) : Type 0 where
    pub host : compile_host g r.id r.host_match ≡ ok c.host
    pub path : compile_path g r.id r.path_match ≡ ok c.path
    pub methods : c.methods ≡ r.method_match
    pub id : c.id ≡ r.id
    pub action : c.action ≡ r.action

  pub compile_rule-IsCompiled :
      (r : EgressRule) (c : CompiledRule M) → compile_rule g r ≡ ok c → IsCompiled r c
  unfolding compile_rule
  compile_rule-IsCompiled r c h = ground arith

  tests_iff :
      (c : CompiledRule M) (req : Request)
      → (rule_matches g c req ≡ true) ↔ (
          (host_matches g c.host req.host ≡ true)
          × (methods_match g c.methods req.method ≡ true)
          × (opt_path_matches g c.path req.path ≡ true))
  unfolding rule_matches
  tests_iff c req = (λ t. ground arith, λ t. ground arith)

  -- A compiled rule matches exactly the requests that the rule, as written, covers.
  pub rule_iff :
      (r : EgressRule) (c : CompiledRule M) (req : Request)
      → compile_rule g r ≡ ok c
      → (rule_matches g c req ≡ true) ↔ RuleApplies g r req
  rule_iff r c req h =
      let k = compile_rule-IsCompiled r c h in
      let hi = host_iff r.id r.host_match c.host req.host k.host in
      let pi = path_iff r.id r.path_match c.path req.path k.path in
      let mi = method_iff c.methods req.method in
      let applies = λ (ms : Option (List Method)). MethodApplies ms req.method in
      let ti = tests_iff c req in
      (
        λ t.
            let (a, b, d) = ti.0 t in
            record { host = hi.0 a; method = subst applies k.methods (mi.0 b); path = pi.0 d },
        λ t. ti.1 (hi.1 t.host, mi.1 (subst applies (sym k.methods) t.method), pi.1 t.path),
      )
