-- ===== src/Egress/Rules.antt =====
-- src/egress/rules.rs: compiling a policy, and evaluating a request.
pub mod Matching
pub mod Compile
pub mod FirstMatch
mod Tests
use zeptocapsule.Common.{
  ◌≡◌, refl, Bool, true, false, ◌&&◌, ◌||◌, not, Option, none, some, List, [], ◌∷◌, if◌then◌else◌,
}
use zeptocapsule.Common.Result.{Result, ok, err, ◌>>=◌}
use zeptocapsule.Text.{Str, str_eq, to_ascii_lowercase, starts_with, ends_with}
use zeptocapsule.Egress.Types.{
  EgressAction, Method, method_eq, HostMatch, PathMatch, EgressRule, EgressPolicy,
}

-- What `Glob::new` and `compile_matcher` return: a matcher of type `M`, or an error of type `E`.
pub data GlobResult (M E : Type 0) : Type 0 where
  matcher : M → GlobResult M E
  invalid : E → GlobResult M E

-- The globset crate.
pub record Globset (M E : Type 0) : Type 0 where
  pub new : Str → GlobResult M E
  pub is_match : M → Str → Bool

pub record Request : Type 0 where
  pub method : Method
  pub host : Str
  pub path : Str

pub record Evaluation : Type 0 where
  pub action : EgressAction
  pub matched_rule : Option Str

-- the rule's id, the pattern and the cause
pub data CompileError (E : Type 0) : Type 0 where
  host_glob path_glob : Str → Str → E → CompileError E

pub data CompiledHost (M : Type 0) : Type 0 where
  exact suffix : Str → CompiledHost M
  glob : M → CompiledHost M

pub data CompiledPath (M : Type 0) : Type 0 where
  exact prefix : Str → CompiledPath M
  glob : M → CompiledPath M

pub record CompiledRule (M : Type 0) : Type 0 where
  pub id : Str
  pub host : CompiledHost M
  pub methods : Option (List Method)
  pub path : Option (CompiledPath M)
  pub action : EgressAction

pub record CompiledPolicy (M : Type 0) : Type 0 where
  pub default_action : EgressAction
  pub rules : List (CompiledRule M)

-- A result of `compile`.
abbrev pub Compiled : Type 0 → Type 0 → Type 0
Compiled E A = Result (CompileError E) A

-- `ms.contains(&m)`
unfoldable pub contains : List Method → Method → Bool
contains [] m = false
contains (n ∷ ms) m = method_eq n m || contains ms m

module _ {M E : Type 0} (g : Globset M E) where
  unfoldable pub compile_host : Str → HostMatch → Compiled E (CompiledHost M)
  compile_host id (HostMatch.exact s) = ok (CompiledHost.exact (to_ascii_lowercase s))
  compile_host id (HostMatch.suffix s) = ok (CompiledHost.suffix (to_ascii_lowercase s))
  compile_host id (HostMatch.glob pat) = elim (g.new (to_ascii_lowercase pat)) [
    | matcher m ↦ ok (CompiledHost.glob m)
    | invalid e ↦ err (host_glob id pat e)
  ]

  unfoldable pub compile_path : Str → Option PathMatch → Compiled E (Option (CompiledPath M))
  compile_path id none = ok none
  compile_path id (some (PathMatch.exact s)) = ok (some (CompiledPath.exact s))
  compile_path id (some (PathMatch.prefix s)) = ok (some (CompiledPath.prefix s))
  compile_path id (some (PathMatch.glob pat)) = elim (g.new pat) [
    | matcher m ↦ ok (some (CompiledPath.glob m))
    | invalid e ↦ err (path_glob id pat e)
  ]

  unfoldable pub compile_rule : EgressRule → Compiled E (CompiledRule M)
  compile_rule r = do
    host ← compile_host r.id r.host_match
    path ← compile_path r.id r.path_match
    ok (record { id = r.id; host = host; methods = r.method_match; path = path; action = r.action })

  unfoldable pub compile_rules : List EgressRule → Compiled E (List (CompiledRule M))
  compile_rules [] = ok []
  compile_rules (r ∷ rs) = do c ← compile_rule r; cs ← compile_rules rs; ok (c ∷ cs)

  unfoldable pub compile : EgressPolicy → Compiled E (CompiledPolicy M)
  compile p = do
    rules ← compile_rules p.rules
    ok (record { default_action = p.default_action; rules = rules })

  unfoldable pub host_matches : CompiledHost M → Str → Bool
  host_matches (CompiledHost.exact s) host = str_eq (to_ascii_lowercase host) s
  host_matches (CompiledHost.suffix s) host = ends_with (to_ascii_lowercase host) s
  host_matches (CompiledHost.glob m) host = g.is_match m (to_ascii_lowercase host)

  unfoldable pub path_matches : CompiledPath M → Str → Bool
  path_matches (CompiledPath.exact s) path = str_eq path s
  path_matches (CompiledPath.prefix s) path = starts_with path s
  path_matches (CompiledPath.glob m) path = g.is_match m path

  unfoldable pub methods_match : Option (List Method) → Method → Bool
  methods_match none m = true
  methods_match (some ms) m = contains ms m

  unfoldable pub opt_path_matches : Option (CompiledPath M) → Str → Bool
  opt_path_matches none path = true
  opt_path_matches (some p) path = path_matches p path

  unfoldable pub rule_matches : CompiledRule M → Request → Bool
  rule_matches rule req =
      if not (host_matches rule.host req.host)
      then false
      else if not (methods_match rule.methods req.method)
      then false
      else if not (opt_path_matches rule.path req.path)
      then false
      else true

  unfoldable pub evaluate_rules : EgressAction → List (CompiledRule M) → Request → Evaluation
  evaluate_rules fallback [] req = record { action = fallback; matched_rule = none }
  evaluate_rules fallback (r ∷ rs) req =
      if rule_matches r req
      then record { action = r.action; matched_rule = some r.id }
      else evaluate_rules fallback rs req

  unfoldable pub evaluate : CompiledPolicy M → Request → Evaluation
  evaluate p req = evaluate_rules p.default_action p.rules req
