-- ===== src/PolicyBuild.antt =====
-- src/bin/zk-policy-build.rs: an allowlist drafted from audit entries.
pub mod Table
pub mod Drafted
mod Tests
use zeptocapsule.Common.{
  ℕ, Bool, true, false, ◌&&◌, ◌||◌, Option, none, some, List, [], ◌∷◌, ◌++◌, map, take, ltb, ◌==◌,
  if◌then◌else◌,
}
use zeptocapsule.Common.Result.{Result, ok, err}
use zeptocapsule.Text.{Str, codes, str_eq, to_ascii_lowercase, split_once, first_part, rfind}
use zeptocapsule.Egress.Types.{
  EgressAction, allow, deny, judge, Method, rank, HostMatch, EgressRule, EgressPolicy,
  EgressDecision,
}

-- what stands behind a scheme, if there is one
abbrev pub without_scheme : Str → Str
without_scheme url = elim (split_once (codes "://") url) [ some (scheme, rest) ↦ rest | none ↦ url ]

abbrev pub without_port : Str → Str
without_port s = elim (rfind b':' s) [ some i ↦ take i s | none ↦ s ]

unfoldable pub host_from_url : Str → Str
host_from_url url = without_port (first_part b'/' (without_scheme url))

-- `BTreeSet::insert`, by the order of declaration
unfoldable pub insert_method : Method → List Method → List Method
insert_method m [] = m ∷ []
insert_method m (n ∷ ms) =
    let rest = insert_method m ms in
    if rank m == rank n then n ∷ ms else if ltb (rank m) (rank n) then m ∷ n ∷ ms else n ∷ rest

-- the order of texts by code points, which is that of their UTF-8 bytes
unfoldable pub str_lt : Str → Str → Bool
str_lt s [] = false
str_lt [] (d ∷ t) = true
str_lt (c ∷ s) (d ∷ t) = ltb c d || (c == d && str_lt s t)

-- the hosts in order, each with its methods
abbrev pub Table : Type 0
Table = List (Str × List Method)

-- `by_host.entry(host).or_default().insert(method)`
unfoldable pub insert_host : Str → Method → Table → Table
insert_host h m [] = (h, insert_method m []) ∷ []
insert_host h m ((k, ms) ∷ table) =
    let rest = insert_host h m table in
    if str_eq h k
    then (k, insert_method m ms) ∷ table
    else if str_lt h k
    then (h, insert_method m []) ∷ (k, ms) ∷ table
    else (k, ms) ∷ rest

abbrev pub is_allow : EgressAction → Bool
is_allow allow = true
is_allow deny = false
is_allow judge = false

abbrev insert_named : Str → Method → Table → Table
insert_named [] m table = table
insert_named (c ∷ host) m table = insert_host (to_ascii_lowercase (c ∷ host)) m table

-- one turn of the loop over the log
unfoldable pub observe : EgressDecision → Table → Table
observe d table =
    if is_allow d.decision then insert_named (host_from_url d.url) d.method table else table

unfoldable pub collect : List EgressDecision → Table → Table
collect [] table = table
collect (d ∷ log) table = collect log (observe d table)

abbrev pub to_rule : Str × List Method → EgressRule
to_rule (host, methods) = record {
  id = codes "allow-" ++ host;
  host_match = HostMatch.exact host;
  method_match = some methods;
  path_match = none;
  action = allow;
}

unfoldable pub build_policy : List EgressDecision → EgressPolicy
build_policy log = record {
  default_action = deny;
  rules = map to_rule (collect log []);
  judge = none;
  block_private_networks = true;
}

pub record Args : Type 0 where
  pub log : Option Str
  pub output : Option Str
  pub help : Bool

-- the arguments after the program's name
unfoldable pub parse_args : List Str → Args → Result Str Args
parse_args [] args = ok args
parse_args (a ∷ []) args =
    if str_eq a (codes "--help") || str_eq a (codes "-h")
    then ok (record args { help = true })
    else if str_eq a (codes "--log")
    then err (codes "--log requires a value")
    else if str_eq a (codes "--output") || str_eq a (codes "-o")
    then err (codes "--output requires a value")
    else err (codes "unknown argument: " ++ a)
parse_args (a ∷ v ∷ more) args =
    let helped = parse_args (v ∷ more) (record args { help = true }) in
    let logged = parse_args more (record args { log = some v }) in
    let written = parse_args more (record args { output = some v }) in
    if str_eq a (codes "--help") || str_eq a (codes "-h")
    then helped
    else if str_eq a (codes "--log")
    then logged
    else if str_eq a (codes "--output") || str_eq a (codes "-o")
    then written
    else err (codes "unknown argument: " ++ a)
