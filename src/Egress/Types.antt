-- ===== src/Egress/Types.antt =====
-- src/egress/types.rs: actions, methods, rules and policies.
use zeptocapsule.Common.{ℕ, Bool, true, false, Option, none, some, List, [], ◌==◌, if◌then◌else◌}
use zeptocapsule.Text.{Str, codes, str_eq, to_ascii_uppercase}

pub data EgressAction : Type 0 where
  allow deny judge : EgressAction

pub data Method : Type 0 where
  get post put delete patch head options connect trace : Method

unfoldable pub as_str : Method → Str
as_str get = codes "GET"
as_str post = codes "POST"
as_str put = codes "PUT"
as_str delete = codes "DELETE"
as_str patch = codes "PATCH"
as_str head = codes "HEAD"
as_str options = codes "OPTIONS"
as_str connect = codes "CONNECT"
as_str trace = codes "TRACE"

-- the match of `Method::parse` on the upper-case text
method_of : Str → Option Method
unfolding str_eq
method_of s =
    if str_eq s (codes "GET")
    then some get
    else if str_eq s (codes "POST")
    then some post
    else if str_eq s (codes "PUT")
    then some put
    else if str_eq s (codes "DELETE")
    then some delete
    else if str_eq s (codes "PATCH")
    then some patch
    else if str_eq s (codes "HEAD")
    then some head
    else if str_eq s (codes "OPTIONS")
    then some options
    else if str_eq s (codes "CONNECT")
    then some connect
    else if str_eq s (codes "TRACE")
    then some trace
    else none

unfoldable pub parse : Str → Option Method
unfolding method_of to_ascii_uppercase
parse s = method_of (to_ascii_uppercase s)

-- the position of a method in its declaration, by which `==` and `<` compare
abbrev pub rank : Method → ℕ
rank get = 0
rank post = 1
rank put = 2
rank delete = 3
rank patch = 4
rank head = 5
rank options = 6
rank connect = 7
rank trace = 8

abbrev pub method_eq : Method → Method → Bool
method_eq a b = rank a == rank b

pub data HostMatch : Type 0 where
  exact suffix glob : Str → HostMatch

pub data PathMatch : Type 0 where
  prefix exact glob : Str → PathMatch

pub record EgressRule : Type 0 where
  pub id : Str
  pub host_match : HostMatch
  pub method_match : Option (List Method)
  pub path_match : Option PathMatch
  pub action : EgressAction

-- The timeout is in whole seconds, as it is stored.
pub record JudgeConfig : Type 0 where
  pub endpoint : Str
  pub model : Str
  pub api_key_env : Str
  pub policy_text : Str
  pub timeout : ℕ
  pub fallback_on_unavailable : EgressAction

pub record EgressPolicy : Type 0 where
  pub default_action : EgressAction
  pub rules : List EgressRule
  pub judge : Option JudgeConfig
  pub block_private_networks : Bool

unfoldable pub deny_all : EgressPolicy
deny_all = record {
  default_action = EgressAction.deny;
  rules = [];
  judge = none;
  block_private_networks = true;
}

unfoldable pub allow_all : EgressPolicy
allow_all = record {
  default_action = EgressAction.allow;
  rules = [];
  judge = none;
  block_private_networks = false;
}

-- An audit entry. The time and the latency are numbers of microseconds.
pub record EgressDecision : Type 0 where
  pub ts : ℕ
  pub method : Method
  pub url : Str
  pub decision : EgressAction
  pub matched_rule : Option Str
  pub judge_reason : Option Str
  pub latency_us : ℕ
