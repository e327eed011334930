-- ===== src/PolicyBuild/Tests.antt =====
-- A log of the program's own tests: two allowed requests to one host, in different case, and a denied one.
use zeptocapsule.Common.{◌≡◌, refl, ◌↔◌, none, some, List, [], ◌∷◌}
use zeptocapsule.Common.Result.{ok}
use zeptocapsule.Text.{Str, codes, str_eq, to_ascii_lowercase, first_part, rfind, split_once}
use zeptocapsule.Egress.Types.{allow, deny, Method, get, post, EgressAction, EgressDecision}
use zeptocapsule.Egress.Rules.{
  Globset, matcher, CompiledHost, CompiledPolicy, compile, evaluate, compile_host, compile_path,
  compile_rule, compile_rules,
}
use zeptocapsule.PolicyBuild.{
  host_from_url, build_policy, collect, insert_host, insert_method, observe,
}
use zeptocapsule.PolicyBuild.Drafted.{Observed, build_policy_iff}

abbrev globs : Globset Str (Unit {0})
globs = record { new = λ p. matcher p; is_match = λ m s. str_eq m s }

abbrev decision : Method → Str → EgressAction → EgressDecision
decision method url action = record {
  ts = 0;
  method = method;
  url = url;
  decision = action;
  matched_rule = none;
  judge_reason = none;
  latency_us = 0;
}

abbrev log : List EgressDecision
log =
    decision post (codes "API.x.com/v1/x") allow
    ∷ decision get (codes "api.x.com:443") allow
    ∷ decision get (codes "evil.com/x") deny
    ∷ []

abbrev drafted : CompiledPolicy Str
drafted = record {
  default_action = deny;
  rules =
      record {
        id = codes "allow-api.x.com";
        host = CompiledHost.exact (codes "api.x.com");
        methods = some (get ∷ post ∷ []);
        path = none;
        action = allow;
      }
      ∷ [];
}

drafts : compile globs (build_policy log) ≡ ok drafted
unfolding compile compile_rules build_policy collect observe host_from_url rfind first_part
    split_once insert_host str_eq to_ascii_lowercase compile_rule compile_host compile_path
    insert_method
drafts = refl

-- the text behind "://" is taken for the host, also in a path
scheme_in_path : host_from_url (codes "good.com/r?u=http://evil.com/x") ≡ codes "evil.com"
unfolding host_from_url rfind first_part split_once
scheme_in_path = refl

build_policy_iff_example :
    ((evaluate globs drafted
        (record { method = get; host = codes "api.X.com"; path = codes "/" })).action
      ≡ allow)
    ↔ Observed log (to_ascii_lowercase (codes "api.X.com")) get
build_policy_iff_example =
    build_policy_iff globs log drafted
      (record { method = get; host = codes "api.X.com"; path = codes "/" }) drafts
