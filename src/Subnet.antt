-- ===== src/Subnet.antt =====
-- src/p2p/subnet.rs. A subnet is the triple of the first three octets.
pub mod Counts
pub mod Cap
pub mod Tests
mod Examples
use p2p_service.Prelude.{
  ℕ, ◌+◌, ◌-◌, ◌≡◌, ap, Bool, true, not, ◌&&◌, Option, none, some, List, [], ◌∷◌, leb, ◌==◌,
  if◌then◌else◌, ℕ_discrete,
}
use p2p_service.HashMap
use p2p_service.HashMap.{HashMap}
use p2p_service.Net.{Net, Protocol, ip4}

pub data Verdict : Type 0 where
  allow reject : Verdict

-- `[u8; 3]`
pub record Octets : Type 0 where
  pub a : ℕ
  pub b : ℕ
  pub c : ℕ

same_octets : (x y : Octets) → Dec (x.a ≡ y.a) → Dec (x.b ≡ y.b) → Dec (x.c ≡ y.c) → Dec (x ≡ y)
same_octets x y (yes p) (yes q) (yes r) = yes (λ i. record { a = p i; b = q i; c = r i })
same_octets x y (no h) q r = no (λ e. h (ap (λ (o : Octets). o.a) e))
same_octets x y (yes p) (no h) r = no (λ e. h (ap (λ (o : Octets). o.b) e))
same_octets x y (yes p) (yes q) (no h) = no (λ e. h (ap (λ (o : Octets). o.c) e))

unfoldable pub Octets-discrete : Discrete Octets
unfolding same_octets ℕ_discrete
Octets-discrete x y = same_octets x y (ℕ_discrete x.a y.a) (ℕ_discrete x.b y.b) (ℕ_discrete x.c y.c)

pub record SubnetLimits : Type 0 where
  pub cap : ℕ
  pub counts : HashMap Octets ℕ

unfoldable pub new : ℕ → SubnetLimits
new cap = record { cap = cap; counts = [] }

-- `find_map` over the components: the first IPv4 one.
unfoldable pub first_ip4 : {P : Type 0} → List (Protocol P) → Option Octets
first_ip4 [] = none
first_ip4 (ip4 a b c d ∷ ps) = some (record { a = a; b = b; c = c })
first_ip4 (_ ∷ ps) = first_ip4 ps

unfoldable pub subnet : (net : Net) → net.Multiaddr → Option Octets
unfolding first_ip4
subnet net addr = first_ip4 (net.iter addr)

-- `counts.entry(subnet).or_insert(0)`
unfoldable pub count_of : SubnetLimits → Octets → ℕ
count_of l s = elim (HashMap.get Octets-discrete s l.counts) [ none ↦ 0 | some n ↦ n ]

-- The body of `on_connection` once the subnet is known.
unfoldable pub connect : SubnetLimits → Octets → Bool → SubnetLimits × Verdict
connect l s exempt =
    let count = count_of l s in
    (
      record l { counts = HashMap.insert Octets-discrete s (count + 1) l.counts },
      if not exempt && leb l.cap count then reject else allow,
    )

-- The body of `on_disconnection` once the subnet is known.
unfoldable pub disconnect : SubnetLimits → Octets → SubnetLimits
disconnect l s = elim (HashMap.get Octets-discrete s l.counts) [
  | none ↦ l
  | some n ↦
      if n - 1 == 0
      then record l { counts = HashMap.remove Octets-discrete s l.counts }
      else record l { counts = HashMap.insert Octets-discrete s (n - 1) l.counts }
]

module _ (net : Net) where
  unfoldable pub on_connection : SubnetLimits → net.Multiaddr → Bool → SubnetLimits × Verdict
  unfolding connect
  on_connection l addr exempt = elim (subnet net addr) [
    | none ↦ (l, allow)
    | some s ↦ connect l s exempt
  ]

  unfoldable pub on_disconnection : SubnetLimits → net.Multiaddr → SubnetLimits
  unfolding disconnect
  on_disconnection l addr = elim (subnet net addr) [ none ↦ l | some s ↦ disconnect l s ]
