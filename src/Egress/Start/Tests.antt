-- ===== src/Egress/Start/Tests.antt =====
-- A gate with a judge and one glob.
use zeptocapsule.Common.{true, none, some, [], ◌∷◌}
use zeptocapsule.Common.Program.{Every}
use zeptocapsule.Text.{Str, codes, str_eq}
use zeptocapsule.Egress.Types.{deny, judge, HostMatch, EgressPolicy}
use zeptocapsule.Egress.Rules.{Globset, matcher}
use zeptocapsule.Egress.Start.{start_egress, start_ns_egress, start_fc_egress, veth_kind, tap_kind}
use zeptocapsule.Egress.Start.Undone.{EndsBare, see, closed, Ends, start-Undone}

abbrev globs : Globset Str (Unit {0})
globs = record { new = λ p. matcher p; is_match = λ m s. str_eq m s }

abbrev policy : EgressPolicy
policy = record {
  default_action = deny;
  rules =
      record {
        id = codes "ask";
        host_match = HostMatch.glob (codes "*.example.com");
        method_match = none;
        path_match = none;
        action = judge;
      }
      ∷ [];
  judge = some (record {
    endpoint = codes "https://judge.example.com/v1";
    model = codes "small";
    api_key_env = codes "JUDGE_KEY";
    policy_text = codes "no uploads";
    timeout = 5;
    fallback_on_unavailable = deny;
  });
  block_private_networks = true;
}

abbrev no_cause : Unit {0} → Str
no_cause e = []

start-Undone_example :
    Every see closed (start_ns_egress globs no_cause policy) (Ends veth_kind)
    × Every see closed (start_fc_egress globs no_cause policy) (Ends tap_kind)
    × Every see closed (start_egress globs no_cause policy) EndsBare
start-Undone_example = start-Undone globs no_cause policy
