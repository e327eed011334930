-- ===== src/Egress/Veth/Tests.antt =====
-- Slots 0 and 1, and a setup whose pair is not created.
use zeptocapsule.Common.{◌/◌, ◌≡◌, ◌≢◌, arith}
use zeptocapsule.Common.Result.{ok, err}
use zeptocapsule.Text.{codes}
use zeptocapsule.Egress.Ssrf.{bits4}
use zeptocapsule.Egress.Veth.{io, from_slot, IpResults, setup_host_side}
use zeptocapsule.Egress.Veth.Subnets.{from_slot_disjoint}
use zeptocapsule.Egress.Veth.Balance.{Ends, setup_host_side-Ends}

abbrev no_pair : IpResults
no_pair = record {
  del = ok tt;
  add = err (io (codes "ip"));
  addr = ok tt;
  up = ok tt;
  del_again = ok tt;
}

setup_host_side-Ends_example : Ends no_pair 3 (setup_host_side no_pair (ok 3))
setup_host_side-Ends_example = setup_host_side-Ends no_pair 3

from_slot_disjoint_example :
    (bits4 (from_slot 0).host_ip / 4 ≡ bits4 (from_slot 0).guest_ip / 4)
    × (bits4 (from_slot 0).host_ip ≢ bits4 (from_slot 0).guest_ip)
    × (bits4 (from_slot 0).host_ip / 4 ≢ bits4 (from_slot 1).host_ip / 4)
from_slot_disjoint_example = from_slot_disjoint 0 1 (omega arith) (omega arith) (omega arith)
