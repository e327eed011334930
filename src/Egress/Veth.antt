-- ===== src/Egress/Veth.antt =====
-- src/egress/netns.rs: the veth pair of a capsule in a network namespace.
pub mod Balance
pub mod Subnets
mod Tests
use zeptocapsule.Common.{
  Option, none, some, ℕ, ◌+◌, ◌*◌, ◌%◌, ◌^◌, List, [], ◌∷◌, ◌++◌, ltb, if◌then◌else◌,
}
use zeptocapsule.Common.Result.{Result, ok, err}
use zeptocapsule.Text.{Str, codes, decimal}
use zeptocapsule.Egress.Ssrf.{Ipv4, ipv4}
use zeptocapsule.Egress.Slots.{Round, exhausted, retry, taken, round}

-- `ip_failed` and `nsenter_failed` have the command, the exit code's text and the error output.
pub data NetnsError : Type 0 where
  ip_failed nsenter_failed : (cmd code stderr : Str) → NetnsError
  io : Str → NetnsError
  pool_exhausted : NetnsError

pub record VethSetup : Type 0 where
  pub slot : ℕ
  pub host_iface : Str
  pub guest_iface : Str
  pub host_ip : Ipv4
  pub guest_ip : Ipv4
  pub prefix_len : ℕ

-- `slot.saturating_mul(4)` of a u8, and its wrapping sums
abbrev pub base_of : ℕ → ℕ
base_of slot = if ltb 255 (slot * 4) then 255 else slot * 4

unfoldable pub from_slot : ℕ → VethSetup
from_slot slot = record {
  slot = slot;
  host_iface = codes "zk_h_" ++ decimal slot;
  guest_iface = codes "zk_g_" ++ decimal slot;
  host_ip = ipv4 169 254 32 ((base_of slot + 1) % 2 ^ 8);
  guest_ip = ipv4 169 254 32 ((base_of slot + 2) % 2 ^ 8);
  prefix_len = 30;
}

unfoldable pub show_ip : Ipv4 → Str
show_ip ip =
    decimal ip.a
    ++ codes "."
    ++ decimal ip.b
    ++ codes "."
    ++ decimal ip.c
    ++ codes "."
    ++ decimal ip.d

-- What is done, in order: a command is run on the host or in the capsule's namespace, or a slot is released.
pub data NetEffect : Type 0 where
  run_ip run_nsenter : List Str → NetEffect
  release : ℕ → NetEffect

pub record Net (A : Type 0) : Type 0 where
  pub effects : List NetEffect
  pub result : Result NetnsError A

abbrev pub done : {A : Type 0} → A → Net A
done a = record { effects = []; result = ok a }

abbrev pub after : {A B : Type 0} → List NetEffect → Result NetnsError A → (A → Net B) → Net B
after before (ok a) next =
    let n = next a in record { effects = before ++ n.effects; result = n.result }
after before (err e) next = record { effects = before; result = err e }

infixl 5 ◌>>=◌ ◌>>◌
abbrev pub ◌>>=◌ : {A B : Type 0} → Net A → (A → Net B) → Net B
m >>= next = after m.effects m.result next

abbrev pub ◌>>◌ : {A B : Type 0} → Net A → Net B → Net B
m >> rest = m >>= λ _. rest

-- a command whose result the environment gives
abbrev pub ip : List Str → Result NetnsError (Unit {0}) → Net (Unit {0})
ip args r = record { effects = run_ip args ∷ []; result = r }

abbrev pub nsenter : List Str → Result NetnsError (Unit {0}) → Net (Unit {0})
nsenter args r = record { effects = run_nsenter args ∷ []; result = r }

-- `let _ = ..`
abbrev pub ignored : Net (Unit {0}) → Net (Unit {0})
ignored m = record { effects = m.effects; result = ok tt }

abbrev pub release_slot : ℕ → Net (Unit {0})
release_slot slot = record { effects = release slot ∷ []; result = ok tt }

abbrev pub link_del : VethSetup → List Str
link_del setup = codes "link" ∷ codes "del" ∷ setup.host_iface ∷ []

-- the results of the commands of one setup, in order; `del_again` is that of the last cleanup
pub record IpResults : Type 0 where
  pub del : Result NetnsError (Unit {0})
  pub add : Result NetnsError (Unit {0})
  pub addr : Result NetnsError (Unit {0})
  pub up : Result NetnsError (Unit {0})
  pub del_again : Result NetnsError (Unit {0})

-- a command; on its error the pair is deleted and the slot released
unfoldable pub or_undo :
    IpResults → VethSetup → List Str → Result NetnsError (Unit {0}) → Net (Unit {0})
or_undo env setup args (ok t) = ip args (ok t)
or_undo env setup args (err e) = do
  ip args (ok tt)
  ignored (ip (link_del setup) env.del_again)
  release_slot setup.slot
  record { effects = []; result = err e }

-- the rest of `setup_host_side`, once a slot is allocated
unfoldable pub setup_slot : IpResults → ℕ → Net VethSetup
setup_slot env slot = do
  let setup = from_slot slot
  ignored (ip (link_del setup) env.del)
  ip
      (codes "link"
        ∷ codes "add"
        ∷ setup.host_iface
        ∷ codes "type"
        ∷ codes "veth"
        ∷ codes "peer"
        ∷ codes "name"
        ∷ setup.guest_iface
        ∷ [])
      env.add
  or_undo env setup
      (codes "addr"
        ∷ codes "add"
        ∷ (show_ip setup.host_ip ++ codes "/" ++ decimal setup.prefix_len)
        ∷ codes "dev"
        ∷ setup.host_iface
        ∷ [])
      env.addr
  or_undo env setup (codes "link" ∷ codes "set" ∷ setup.host_iface ∷ codes "up" ∷ []) env.up
  done setup

-- The loop of the allocator: the words at each round's load and exchange are given, and no result is
-- reached where they run out.
unfoldable pub allocate_slot : List (ℕ × ℕ) → Option (Result NetnsError ℕ)
allocate_slot [] = none
allocate_slot ((loaded, current) ∷ words) =
    let more = allocate_slot words in
    elim (round loaded current) [
      | exhausted ↦ some (err pool_exhausted)
      | retry ↦ more
      | taken slot bits ↦ some (ok slot)
    ]

unfoldable pub setup_host_side : IpResults → Result NetnsError ℕ → Net VethSetup
setup_host_side env allocated = after [] allocated (setup_slot env)

-- in the child's namespace, by its process id
unfoldable pub move_guest_into_netns :
    VethSetup → ℕ → (List Str → Result NetnsError (Unit {0})) → Net (Unit {0})
move_guest_into_netns setup child_pid env =
    let to_child =
      codes "link" ∷ codes "set" ∷ setup.guest_iface ∷ codes "netns" ∷ decimal child_pid ∷ [] in
    let addr =
      codes "ip"
      ∷ codes "addr"
      ∷ codes "add"
      ∷ (show_ip setup.guest_ip ++ codes "/" ++ decimal setup.prefix_len)
      ∷ codes "dev"
      ∷ setup.guest_iface
      ∷ [] in
    let up = codes "ip" ∷ codes "link" ∷ codes "set" ∷ setup.guest_iface ∷ codes "up" ∷ [] in
    let lo = codes "ip" ∷ codes "link" ∷ codes "set" ∷ codes "lo" ∷ codes "up" ∷ [] in
    let route =
      codes "ip"
      ∷ codes "route"
      ∷ codes "add"
      ∷ codes "default"
      ∷ codes "via"
      ∷ show_ip setup.host_ip
      ∷ [] in
    ip to_child (env to_child)
    >> nsenter addr (env addr)
    >> nsenter up (env up)
    >> nsenter lo (env lo)
    >> nsenter route (env route)

unfoldable pub teardown : VethSetup → Result NetnsError (Unit {0}) → Net (Unit {0})
teardown setup del = ignored (ip (link_del setup) del) >> release_slot setup.slot
