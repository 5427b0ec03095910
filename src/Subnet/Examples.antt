-- ===== src/Subnet/Examples.antt =====
-- The theorems about the subnet limits at concrete inputs, and tests of the source.
use p2p_service.Prelude.{◌≤◌, ◌≡◌, refl, false, [], ◌∷◌, List, String_discrete}
use p2p_service.HashMap
use p2p_service.Samples.{sample_net}
use p2p_service.Subnet.{
  Octets, SubnetLimits, Octets-discrete, new, subnet, on_connection, on_disconnection, reject,
  count_of,
}
use p2p_service.Subnet.Counts
use p2p_service.Subnet.Counts.{Conn, Reach, start, opens, closes, open_in}
use p2p_service.Subnet.Cap
use p2p_service.Subnet.Cap.{admitted_in}

program : Unit {0}
unfolding new subnet on_connection on_disconnection HashMap.get HashMap.insert HashMap.remove
    Octets-discrete count_of open_in admitted_in String_discrete
program = tt

abbrev lan : Octets
lan = record { a = 10; b = 0; c = 0 }

-- With a cap of 1, `lan1` is let in and `lan2` is rejected, as in `over_cap_rejected`.
abbrev one_slot : SubnetLimits
one_slot = (on_connection sample_net (new 1) "lan1" false).0

second_rejected : (on_connection sample_net one_slot "lan2" false).1 ≡ reject
unfolding program
second_rejected = refl

abbrev conns : List (Conn sample_net)
conns =
    record {
      addr = "lan1";
      exempt = false;
      verdict = (on_connection sample_net (new 1) "lan1" false).1;
    }
    ∷ []

one_open : Reach sample_net 1 one_slot conns
one_open = opens "lan1" false start

none_open : Reach sample_net 1 (on_disconnection sample_net one_slot "lan1") []
none_open =
    closes []
      (record {
        addr = "lan1";
        exempt = false;
        verdict = (on_connection sample_net (new 1) "lan1" false).1;
      })
      [] refl one_open

counts_drain_example : (on_disconnection sample_net one_slot "lan1").counts ≡ []
counts_drain_example = Counts.counts_drain sample_net 1 none_open

verdict_lem_example : (on_connection sample_net one_slot "lan2" false).1 ≡ reject
unfolding program
verdict_lem_example = Cap.verdict_lem sample_net 1 "lan2" false one_open

admitted_in-le-limit_example : admitted_in sample_net lan conns ≤ 1
admitted_in-le-limit_example = Cap.admitted_in-le-limit sample_net 1 lan one_open
