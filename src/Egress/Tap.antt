-- ===== src/Egress/Tap.antt =====
-- src/egress/fc_net.rs: the TAP device of a capsule in a microVM. Its pool of slots is that of Slots.
use zeptocapsule.Common.{ℕ, ◌+◌, ◌*◌, ◌^◌, ◌%◌, List, [], ◌∷◌, ◌++◌, ltb, if◌then◌else◌}
use zeptocapsule.Common.Result.{Result, ok, err, by_result}
use zeptocapsule.Common.Program.{Program, ret, raise, ask, attempt, lift, ◌>>=◌, ◌>>◌}
use zeptocapsule.Text.{Str, codes, decimal}
use zeptocapsule.Egress.Ssrf.{Ipv4, ipv4}
use zeptocapsule.Egress.Veth.{show_ip, base_of}
pub mod Balance

-- `ip_failed` has the command, the exit code's text and the error output.
pub data FcNetError : Type 0 where
  ip_failed : (cmd code stderr : Str) → FcNetError
  io : Str → FcNetError
  pool_exhausted : FcNetError

pub record TapSetup : Type 0 where
  pub slot : ℕ
  pub iface : Str
  pub host_ip : Ipv4
  pub guest_ip : Ipv4
  pub prefix_len : ℕ

-- the sums wrap in a release build
unfoldable pub from_slot : ℕ → TapSetup
from_slot slot = record {
  slot = slot;
  iface = codes "zk_tap_" ++ decimal slot;
  host_ip = ipv4 169 254 33 ((base_of slot + 1) % 2 ^ 8);
  guest_ip = ipv4 169 254 33 ((base_of slot + 2) % 2 ^ 8);
  prefix_len = 30;
}

-- `allocate_slot` answers by the loop of Slots.
pub data TapCall : Type 0 where
  allocate_slot : TapCall
  run_ip : List Str → TapCall
  release_slot : ℕ → TapCall

abbrev pub TapAns : TapCall → Type 0
TapAns allocate_slot = Result FcNetError ℕ
TapAns (run_ip args) = Result FcNetError (Unit {0})
TapAns (release_slot slot) = Unit {0}

abbrev pub TapM : Type 0 → Type 0
TapM A = Program TapCall TapAns FcNetError A

abbrev pub link_del : TapSetup → List Str
link_del setup = codes "link" ∷ codes "del" ∷ setup.iface ∷ []

-- the device is deleted, as far as it can be, and the slot released
unfoldable pub teardown : TapSetup → TapM (Unit {0})
teardown setup = ask (run_ip (link_del setup)) >> ask (release_slot setup.slot)

-- a command, whose error takes the device and the slot back
abbrev pub or_undo : TapSetup → Result FcNetError (Unit {0}) → TapM (Unit {0})
or_undo setup (ok t) = ret tt
or_undo setup (err e) = teardown setup >> raise e

-- from `tuntap add` on
unfoldable pub add_device : TapSetup → TapM TapSetup
unfolding teardown
add_device setup = do
  added ← ask (
      run_ip (
        codes "tuntap"
        ∷ codes "add"
        ∷ codes "mode"
        ∷ codes "tap"
        ∷ codes "name"
        ∷ setup.iface
        ∷ []))
  lift added
  given ← ask (
      run_ip (
        codes "addr"
        ∷ codes "add"
        ∷ (show_ip setup.host_ip ++ codes "/" ++ decimal setup.prefix_len)
        ∷ codes "dev"
        ∷ setup.iface
        ∷ []))
  or_undo setup given
  up ← ask (run_ip (codes "link" ∷ codes "set" ∷ setup.iface ∷ codes "up" ∷ []))
  or_undo setup up
  ret setup

-- A device that an earlier run left is deleted, as far as it can be.
unfoldable pub setup_tap : TapM TapSetup
setup_tap = do
  allocated ← ask allocate_slot
  slot ← lift allocated
  ask (run_ip (link_del (from_slot slot)))
  add_device (from_slot slot)
