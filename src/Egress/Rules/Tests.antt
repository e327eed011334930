-- ===== src/Egress/Rules/Tests.antt =====
-- The rule engine at a small policy: a glob matcher that knows one pattern stands in for globset.
use zeptocapsule.Common.{◌≡◌, refl, ◌↔◌, true, none, some, [], ◌∷◌, All, if◌then◌else◌}
use zeptocapsule.Text.{Str, codes, str_eq, starts_with, ends_with, to_ascii_lowercase}
use zeptocapsule.Egress.Types.{
  allow, deny, Method, get, post, HostMatch, PathMatch, EgressRule, EgressPolicy,
}
use zeptocapsule.Common.Result.{ok, err}
use zeptocapsule.Egress.Rules.{
  Globset, matcher, invalid, CompiledHost, CompiledPath, CompiledPolicy, CompiledRule, host_glob,
  Request, contains, compile, compile_rules, compile_rule, compile_host, compile_path, evaluate,
  evaluate_rules, rule_matches, host_matches, path_matches, methods_match, opt_path_matches,
}
use zeptocapsule.Egress.Rules.FirstMatch.{Decides, evaluate-Decides}
use zeptocapsule.Egress.Rules.Compile.{GlobsAreValid, compile_iff}

-- a pattern is its text, and "[" is invalid; a matcher matches the text itself
abbrev globs : Globset Str (Unit {0})
globs = record {
  new = λ p. if starts_with p (codes "[") then invalid tt else matcher p;
  is_match = λ m s. str_eq m s;
}

abbrev files : EgressRule
files = record {
  id = codes "deny-files";
  host_match = HostMatch.exact (codes "api.openai.com");
  method_match = none;
  path_match = some (PathMatch.prefix (codes "/v1/files"));
  action = deny;
}

abbrev rest : EgressRule
rest = record {
  id = codes "allow-rest";
  host_match = HostMatch.suffix (codes ".openai.com");
  method_match = some (post ∷ []);
  path_match = none;
  action = allow;
}

abbrev policy : EgressPolicy
policy = record {
  default_action = deny;
  rules = files ∷ rest ∷ [];
  judge = none;
  block_private_networks = true;
}

abbrev compiled_files : CompiledRule Str
compiled_files = record {
  id = codes "deny-files";
  host = CompiledHost.exact (codes "api.openai.com");
  methods = none;
  path = some (CompiledPath.prefix (codes "/v1/files"));
  action = deny;
}

abbrev compiled_rest : CompiledRule Str
compiled_rest = record {
  id = codes "allow-rest";
  host = CompiledHost.suffix (codes ".openai.com");
  methods = some (post ∷ []);
  path = none;
  action = allow;
}

abbrev compiled : CompiledPolicy Str
compiled = record { default_action = deny; rules = compiled_files ∷ compiled_rest ∷ [] }

compiles : compile globs policy ≡ ok compiled
unfolding compile compile_rules compile_rule compile_host compile_path to_ascii_lowercase
compiles = refl

abbrev request : Method → Str → Request
request m path = record { method = m; host = codes "API.openai.com"; path = path }

first_match_wins :
    evaluate globs compiled (request post (codes "/v1/files/x"))
    ≡ record { action = deny; matched_rule = some (codes "deny-files") }
unfolding evaluate evaluate_rules rule_matches host_matches path_matches methods_match
    opt_path_matches to_ascii_lowercase str_eq starts_with ends_with
first_match_wins = refl

method_filter : (evaluate globs compiled (request post (codes "/v1/chat"))).action ≡ allow
unfolding evaluate evaluate_rules rule_matches host_matches path_matches methods_match
    opt_path_matches to_ascii_lowercase str_eq starts_with ends_with contains
method_filter = refl

bad_glob :
    compile globs (record policy {
      rules = record files { host_match = HostMatch.glob (codes "[invalid") } ∷ [];
    })
    ≡ err (host_glob (codes "deny-files") (codes "[invalid") tt)
unfolding compile compile_rules compile_rule compile_host compile_path to_ascii_lowercase
    starts_with
bad_glob = refl

evaluate-Decides_example :
    Decides globs deny
      (files ∷ rest ∷ [])
      (request get (codes "/"))
      (evaluate globs compiled (request get (codes "/")))
evaluate-Decides_example = evaluate-Decides globs policy compiled (request get (codes "/")) compiles

compile_iff_example :
    ((c : CompiledPolicy Str) × (compile globs policy ≡ ok c))
    ↔ All (GlobsAreValid globs) (files ∷ rest ∷ [])
compile_iff_example = compile_iff globs policy
