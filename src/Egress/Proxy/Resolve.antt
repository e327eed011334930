-- ===== src/Egress/Proxy/Resolve.antt =====
-- `resolve_and_eval` and `resolve_judge`: the name's first address is checked, then the rules, then the judge.
use zeptocapsule.Common.{
  ap, ℕ, ◌≡◌, ◌≢◌, refl, Bool, true, false, ◌&&◌, Option, none, some, List, [], ◌∷◌, ◌++◌, arith,
  if◌then◌else◌,
}
use zeptocapsule.Common.Result.{Result, ok, err, ok_injective}
use zeptocapsule.Text.{Str, codes}
use zeptocapsule.Egress.Types.{EgressAction, deny, Method}
use zeptocapsule.Egress.Rules.{Globset, CompiledPolicy, evaluate}
use zeptocapsule.Egress.Ssrf.{IpAddr, Ipnet, is_private_or_metadata}
use zeptocapsule.Egress.Judge.{JudgeOutcome}
use zeptocapsule.Egress.Judge.Decide.{JudgeRequest}
use zeptocapsule.Egress.Proxy.{ProxyError, bad_request}

-- What is outside: globset, ipnet and the name service, whose errors are texts.
pub record Outside (M E : Type 0) : Type 0 where
  pub globs : Globset M E
  pub nets : Ipnet
  pub lookup_host : Str → ℕ → Result Str (List IpAddr)

-- The judge, if one is configured, is what it decides on each request at the time.
pub record ProxyState (M : Type 0) : Type 0 where
  pub policy : CompiledPolicy M
  pub block_private_networks : Bool
  pub default_action : EgressAction
  pub judge : Option (JudgeRequest → JudgeOutcome)

pub record ResolvedEval : Type 0 where
  pub action : EgressAction
  pub matched_rule : Option Str
  pub judge_reason : Option Str
  pub ip : IpAddr

module _ {M E : Type 0} (out : Outside M E) (state : ProxyState M) where
  abbrev consult : Option (JudgeRequest → JudgeOutcome) → JudgeRequest → EgressAction × Option Str
  consult none req = (state.default_action, none)
  consult (some decide) req = let o = decide req in (o.decision, some o.reason)

  unfoldable pub resolve_judge : EgressAction → Method → Str → Str → EgressAction × Option Str
  resolve_judge EgressAction.judge method host path =
      consult state.judge
        (record { method = method; host = host; path = path; body_excerpt = none })
  resolve_judge other method host path = (other, none)

  -- the rules and the judge at the address that the connection is pinned to
  unfoldable pub eval_at : IpAddr → Method → Str → Str → ResolvedEval
  eval_at ip method host path =
      if state.block_private_networks && is_private_or_metadata out.nets ip
      then record {
        action = deny;
        matched_rule = some (codes "ssrf-block");
        judge_reason = none;
        ip = ip;
      }
      else (let eval =
            evaluate out.globs state.policy
              (record { method = method; host = host; path = path }) in
          let (action, judge_reason) = resolve_judge eval.action method host path in
          record {
            action = action;
            matched_rule = eval.matched_rule;
            judge_reason = judge_reason;
            ip = ip;
          })

  -- what the name service gave: only the first address is used
  pub eval_first : Result Str (List IpAddr) → Method → Str → Str → Result ProxyError ResolvedEval
  eval_first (err e) method host path = err (bad_request (codes "dns: " ++ e))
  eval_first (ok []) method host path = err (bad_request (codes "dns returned no addrs"))
  eval_first (ok (ip ∷ more)) method host path = ok (eval_at ip method host path)

  unfoldable pub resolve_and_eval : Method → Str → Str → ℕ → Result ProxyError ResolvedEval
  unfolding eval_first
  resolve_and_eval method host path port = eval_first (out.lookup_host host port) method host path

module _ {M E : Type 0} (out : Outside M E) (state : ProxyState M) where
  -- What was checked of an evaluation that does not deny: its address is the first that the name
  -- resolves to, it is not a refused one where private networks are blocked, and the action is what
  -- the rules or the judge gave.
  pub record IsChecked (method : Method) (host path : Str) (port : ℕ) (eval : ResolvedEval)
      : Type 0 where
    pub more : List IpAddr
    pub resolved : out.lookup_host host port ≡ ok (eval.ip ∷ more)
    pub not_private :
        state.block_private_networks ≡ true → is_private_or_metadata out.nets eval.ip ≡ false
    pub decided :
        eval.action
        ≡ (resolve_judge out state
            (evaluate out.globs state.policy
              (record { method = method; host = host; path = path })).action
            method
            host
            path).0

  eval_at_action :
      (ip : IpAddr) (method : Method) (host path : Str)
      → (eval_at out state ip method host path).action ≢ deny
      → ((eval_at out state ip method host path).ip ≡ ip)
        × (state.block_private_networks ≡ true → is_private_or_metadata out.nets ip ≡ false)
        × ((eval_at out state ip method host path).action
            ≡ (resolve_judge out state
                (evaluate out.globs state.policy
                  (record { method = method; host = host; path = path })).action
                method
                host
                path).0)
  unfolding eval_at
  eval_at_action ip method host path h = (ground arith, λ b. ground arith, ground arith)

  eval_first-eq-ok :
      (r : Result Str (List IpAddr)) (method : Method) (host path : Str) (eval : ResolvedEval)
      → eval_first out state r method host path ≡ ok eval
      → (ip : IpAddr) × (more : List IpAddr) × (r ≡ ok (ip ∷ more))
        × (eval_at out state ip method host path ≡ eval)
  unfolding eval_first
  eval_first-eq-ok (err e) method host path eval h = cc
  eval_first-eq-ok (ok []) method host path eval h = cc
  eval_first-eq-ok (ok (ip ∷ more)) method host path eval h = (ip, more, refl, ok_injective h)

  -- An evaluation that does not deny has passed every check.
  pub resolve_and_eval-IsChecked :
      (method : Method) (host path : Str) (port : ℕ) (eval : ResolvedEval)
      → resolve_and_eval out state method host path port ≡ ok eval
      → eval.action ≢ deny
      → IsChecked method host path port eval
  unfolding resolve_and_eval
  resolve_and_eval-IsChecked method host path port eval h allowed =
      let (ip, more, resolved, same) =
        eval_first-eq-ok (out.lookup_host host port) method host path eval h in
      let checks =
        eval_at_action ip method host path
          (λ e. allowed (cc (e, ap (λ (r : ResolvedEval). r.action) same))) in
      let same_ip : eval.ip ≡ ip = cc (checks.0, ap (λ (r : ResolvedEval). r.ip) same) in
      record {
        more = more;
        resolved = cc (resolved, same_ip);
        not_private = λ b. cc (checks.1 b, same_ip);
        decided = cc (checks.2, ap (λ (r : ResolvedEval). r.action) same);
      }
