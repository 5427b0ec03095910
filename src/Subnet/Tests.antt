-- ===== src/Subnet/Tests.antt =====
-- The unit tests of src/p2p/subnet.rs. How an address is made from its text is libp2p's, so `ip4_addr`
-- and `dns_addr` are parameters; the tests rely on the components of such addresses.
use p2p_service.Prelude.{ℕ, ◌≡◌, Bool, true, false, not, ◌&&◌, [], ◌∷◌, arith}
use p2p_service.HashMap
use p2p_service.Net.{Net, ip4, tcp, other}
use p2p_service.Subnet.{
  Verdict, allow, reject, Octets-discrete, new, subnet, on_connection, on_disconnection, count_of,
  connect, disconnect, first_ip4,
}

abbrev is_allow : Verdict → Bool
is_allow allow = true
is_allow reject = false

module _ (net : Net) (ip4_addr : ℕ → ℕ → ℕ → ℕ → net.Multiaddr) (dns_addr : net.Multiaddr) where
  unfoldable pub below_cap_allowed : Bool
  below_cap_allowed =
      let addr1 = ip4_addr 10 0 0 1 in
      let addr2 = ip4_addr 10 0 0 2 in
      let (limits, first) = on_connection net (new 2) addr1 false in
      let (limits, second) = on_connection net limits addr2 false in
      is_allow first && is_allow second

  unfoldable pub over_cap_rejected : Bool
  over_cap_rejected =
      let addr1 = ip4_addr 10 0 0 1 in
      let addr2 = ip4_addr 10 0 0 2 in
      let addr3 = ip4_addr 10 0 0 3 in
      let (limits, first) = on_connection net (new 2) addr1 false in
      let (limits, second) = on_connection net limits addr2 false in
      let (limits, third) = on_connection net limits addr3 false in
      is_allow first && is_allow second && not (is_allow third)

  unfoldable pub different_subnets_separate_counts : Bool
  different_subnets_separate_counts =
      let addr1 = ip4_addr 10 0 0 1 in
      let addr2 = ip4_addr 10 0 1 1 in
      let (limits, first) = on_connection net (new 1) addr1 false in
      let (limits, second) = on_connection net limits addr2 false in
      is_allow first && is_allow second

  unfoldable pub exempt_bypasses_cap_but_still_counts : Bool
  exempt_bypasses_cap_but_still_counts =
      let addr1 = ip4_addr 192 168 1 1 in
      let addr_exempt = ip4_addr 192 168 1 2 in
      let addr3 = ip4_addr 192 168 1 3 in
      let (limits, first) = on_connection net (new 1) addr1 false in
      let (limits, second) = on_connection net limits addr_exempt true in
      let (limits, third) = on_connection net limits addr3 false in
      is_allow first && is_allow second && not (is_allow third)

  unfoldable pub disconnection_frees_slot : Bool
  disconnection_frees_slot =
      let addr1 = ip4_addr 10 1 0 1 in
      let addr2 = ip4_addr 10 1 0 2 in
      let (limits, first) = on_connection net (new 1) addr1 false in
      let (limits, second) = on_connection net limits addr2 false in
      let limits = on_disconnection net limits addr2 in
      let limits = on_disconnection net limits addr1 in
      let addr3 = ip4_addr 10 1 0 3 in
      let (limits, third) = on_connection net limits addr3 false in
      is_allow first && not (is_allow second) && is_allow third

  unfoldable pub non_ipv4_always_allowed : Bool
  non_ipv4_always_allowed =
      let (limits, first) = on_connection net (new 0) dns_addr false in is_allow first

  unfoldable pub reject_increments_count_keeps_balance : Bool
  reject_increments_count_keeps_balance =
      let addr_a = ip4_addr 172 16 0 1 in
      let addr_b = ip4_addr 172 16 0 2 in
      let addr_c = ip4_addr 172 16 0 3 in
      let (limits, a) = on_connection net (new 1) addr_a false in
      let (limits, b) = on_connection net limits addr_b false in
      let limits = on_disconnection net limits addr_b in
      let (limits, c) = on_connection net limits addr_c false in
      is_allow a && not (is_allow b) && not (is_allow c)

  module _ (made : (a b c d : ℕ) → net.iter (ip4_addr a b c d) ≡ ip4 a b c d ∷ tcp 4025 ∷ [])
      (named : net.iter dns_addr ≡ other ∷ tcp 4025 ∷ []) where
    program : Unit {0}
    unfolding new on_connection connect on_disconnection disconnect count_of subnet first_ip4
        HashMap.get HashMap.insert HashMap.remove Octets-discrete
    program = tt

    below_cap_allowed_lem : below_cap_allowed ≡ true
    unfolding below_cap_allowed program
    below_cap_allowed_lem = ground (arith, made 10 0 0 1, made 10 0 0 2)

    over_cap_rejected_lem : over_cap_rejected ≡ true
    unfolding over_cap_rejected program
    over_cap_rejected_lem = ground (arith, made 10 0 0 1, made 10 0 0 2, made 10 0 0 3)

    different_subnets_separate_counts_lem : different_subnets_separate_counts ≡ true
    unfolding different_subnets_separate_counts program
    different_subnets_separate_counts_lem = ground (arith, made 10 0 0 1, made 10 0 1 1)

    exempt_bypasses_cap_but_still_counts_lem : exempt_bypasses_cap_but_still_counts ≡ true
    unfolding exempt_bypasses_cap_but_still_counts program
    exempt_bypasses_cap_but_still_counts_lem =
        ground (arith, made 192 168 1 1, made 192 168 1 2, made 192 168 1 3)

    disconnection_frees_slot_lem : disconnection_frees_slot ≡ true
    unfolding disconnection_frees_slot program
    disconnection_frees_slot_lem = ground (arith, made 10 1 0 1, made 10 1 0 2, made 10 1 0 3)

    non_ipv4_always_allowed_lem : non_ipv4_always_allowed ≡ true
    unfolding non_ipv4_always_allowed program
    non_ipv4_always_allowed_lem = ground (arith, named)

    reject_increments_count_keeps_balance_lem : reject_increments_count_keeps_balance ≡ true
    unfolding reject_increments_count_keeps_balance program
    reject_increments_count_keeps_balance_lem =
        ground (arith, made 172 16 0 1, made 172 16 0 2, made 172 16 0 3)
