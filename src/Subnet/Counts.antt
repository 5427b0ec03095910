-- ===== src/Subnet/Counts.antt =====
-- The counters against the connections that are open: over every sequence of connections and
-- disconnections, each counter is the number of open connections of its subnet.
use p2p_service.Prelude.{
  ℕ, ◌+◌, ◌-◌, ◌≡◌, ◌≢◌, refl, ap, ltb, Bool, Option, none, some, List, [], ◌∷◌, ◌++◌, ite, arith,
  Option-cases, inl, inr,
}
use p2p_service.HashMap
use p2p_service.HashMap.{IsUnique, contains_key}
use p2p_service.HashMap.Laws.{get-insert, get-remove}
use p2p_service.Net.{Net}
use p2p_service.Subnet.{
  Verdict, Octets, Octets-discrete, SubnetLimits, new, subnet, count_of, connect, disconnect,
  on_connection, on_disconnection,
}

-- A connection that is open: its remote address, whether its peer is exempt, and the verdict that
-- it was given.
pub record Conn (net : Net) : Type 0 where
  pub addr : net.Multiaddr
  pub exempt : Bool
  pub verdict : Verdict

-- 1 if the subnet is `s`, else 0.
abbrev pub hits : Octets → Option Octets → ℕ
hits s none = 0
hits s (some t) = ite (Octets-discrete s t) 1 0

-- The number of open connections in the subnet `s`.
unfoldable pub open_in : (net : Net) → Octets → List (Conn net) → ℕ
open_in net s [] = 0
open_in net s (c ∷ cs) = hits s (subnet net c.addr) + open_in net s cs

-- The limits and the open connections after any history in which only open connections close.
pub data Reach (net : Net) (limit : ℕ) : SubnetLimits → List (Conn net) → Type 0 where
  start : Reach net limit (new limit) []
  opens :
      {l : SubnetLimits} {cs : List (Conn net)} (addr : net.Multiaddr) (exempt : Bool)
      → Reach net limit l cs
      → Reach net limit (on_connection net l addr exempt).0 (
          record { addr = addr; exempt = exempt; verdict = (on_connection net l addr exempt).1 }
          ∷ cs)
  closes :
      {l : SubnetLimits} (xs : List (Conn net)) (c : Conn net) (ys : List (Conn net))
      {cs : List (Conn net)}
      → cs ≡ xs ++ c ∷ ys
      → Reach net limit l cs
      → Reach net limit (on_disconnection net l c.addr) (xs ++ ys)

-- What one connection and one disconnection do to every counter.
pub count_of-connect :
    (l : SubnetLimits) (s t : Octets) (exempt : Bool)
    → count_of (connect l t exempt).0 s ≡ count_of l s + hits s (some t)
unfolding count_of connect
count_of-connect l s t exempt = grind (arith, get-insert Octets-discrete t s)

pub count_of-disconnect :
    (l : SubnetLimits) (s t : Octets) → count_of (disconnect l t) s ≡ count_of l s - hits s (some t)
unfolding count_of disconnect
count_of-disconnect l s t =
    grind (arith, get-insert Octets-discrete t s, get-remove Octets-discrete t s)

count_of-on_connection :
    (net : Net) (l : SubnetLimits) (addr : net.Multiaddr) (exempt : Bool) (s : Octets)
    → count_of (on_connection net l addr exempt).0 s ≡ count_of l s + hits s (subnet net addr)
unfolding on_connection
count_of-on_connection net l addr exempt s = elim (Option-cases (subnet net addr)) [
  | inl e ↦ rw (e, on_connection) (omega arith)
  | inr (t, e) ↦ rw (e, on_connection) (count_of-connect l s t exempt)
]

count_of-on_disconnection :
    (net : Net) (l : SubnetLimits) (addr : net.Multiaddr) (s : Octets)
    → count_of (on_disconnection net l addr) s ≡ count_of l s - hits s (subnet net addr)
unfolding on_disconnection
count_of-on_disconnection net l addr s = elim (Option-cases (subnet net addr)) [
  | inl e ↦ rw (e, on_disconnection) (omega arith)
  | inr (t, e) ↦ rw (e, on_disconnection) (count_of-disconnect l s t)
]

open_in-append :
    (net : Net) (s : Octets) (xs ys : List (Conn net))
    → open_in net s (xs ++ ys) ≡ open_in net s xs + open_in net s ys
unfolding open_in
open_in-append net s [] ys = omega arith
open_in-append net s (c ∷ xs) ys = omega (arith, open_in-append net s xs ys)

-- Over every history in which only open connections close, each counter is the number of open
-- connections of its subnet.
pub count_of-eq-open_in :
    (net : Net) (limit : ℕ) {l : SubnetLimits} {cs : List (Conn net)} (s : Octets)
    → Reach net limit l cs
    → count_of l s ≡ open_in net s cs
unfolding open_in
count_of-eq-open_in net limit s start = unfold count_of new HashMap.get in refl
count_of-eq-open_in net limit s (opens {l} {cs} addr exempt r) =
    omega (arith, count_of-on_connection net l addr exempt s, count_of-eq-open_in net limit s r)
count_of-eq-open_in net limit s (closes {l} xs c ys e r) = omega (
  arith,
  count_of-on_disconnection net l c.addr s,
  count_of-eq-open_in net limit s r,
  ap (open_in net s) e,
  open_in-append net s xs (c ∷ ys),
  open_in-append net s xs ys,
)

-- No entry of the table is zero.
abbrev pub IsPositive : SubnetLimits → Type 0
IsPositive l = (s : Octets) → HashMap.get Octets-discrete s l.counts ≢ some 0

connect-IsPositive :
    (l : SubnetLimits) (t : Octets) (exempt : Bool)
    → IsPositive l
    → IsPositive (connect l t exempt).0
unfolding connect
connect-IsPositive l t exempt h s = λ z. grind (arith, get-insert Octets-discrete t s, h s)

disconnect-IsPositive : (l : SubnetLimits) (t : Octets) → IsPositive l → IsPositive (disconnect l t)
unfolding disconnect
disconnect-IsPositive l t h s =
    λ z. grind (arith, get-insert Octets-discrete t s, get-remove Octets-discrete t s, h s)

Reach-IsPositive :
    (net : Net) (limit : ℕ) {l : SubnetLimits} {cs : List (Conn net)}
    → Reach net limit l cs
    → IsPositive l
unfolding on_connection on_disconnection
Reach-IsPositive net limit start = unfold new HashMap.get in λ s z. cc
Reach-IsPositive net limit (opens {l} addr exempt r) = elim (Option-cases (subnet net addr)) [
  | inl e ↦ rw (e, on_connection) (Reach-IsPositive net limit r)
  | inr (t, e) ↦
      rw (e, on_connection) (connect-IsPositive l t exempt (Reach-IsPositive net limit r))
]
Reach-IsPositive net limit (closes {l} xs c ys e' r) = elim (Option-cases (subnet net c.addr)) [
  | inl e ↦ rw (e, on_disconnection) (Reach-IsPositive net limit r)
  | inr (t, e) ↦ rw (e, on_disconnection) (disconnect-IsPositive l t (Reach-IsPositive net limit r))
]

-- After any history in which only open connections close, a subnet has an entry in the table
-- exactly while it has an open connection.
pub contains_key-open_in :
    (net : Net) (limit : ℕ) {l : SubnetLimits} {cs : List (Conn net)} (s : Octets)
    → Reach net limit l cs
    → contains_key Octets-discrete s l.counts ≡ ltb 0 (open_in net s cs)
unfolding count_of
contains_key-open_in net limit {l} s r =
    grind (arith, count_of-eq-open_in net limit s r, Reach-IsPositive net limit r s)

first_is_there :
    (m : HashMap.HashMap Octets ℕ)
    → ((s : Octets) → HashMap.get Octets-discrete s m ≡ none)
    → m ≡ []
unfolding HashMap.get
first_is_there [] h = refl
first_is_there ((s, n) ∷ m) h = ground (arith, h s)

-- After any history in which only open connections close, when the last one has closed, nothing is
-- left in the table of counters.
pub counts_drain : (net : Net) (limit : ℕ) {l : SubnetLimits} → Reach net limit l [] → l.counts ≡ []
unfolding open_in
counts_drain net limit {l} r =
    first_is_there l.counts λ s. ground (arith, contains_key-open_in net limit s r)
