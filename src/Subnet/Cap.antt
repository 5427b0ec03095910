-- ===== src/Subnet/Cap.antt =====
-- The cap: which connections are rejected, and what the verdicts guarantee.
use p2p_service.Prelude.{
  ℕ, ◌+◌, ◌≤◌, ◌≡◌, refl, ap, ◌∙◌, Bool, true, false, not, ◌&&◌, none, some, List, [], ◌∷◌, ◌++◌,
  arith, leb, if◌then◌else◌, Option-cases, inl, inr,
}
use p2p_service.Net.{Net}
use p2p_service.Subnet.{
  Verdict, allow, reject, Octets, SubnetLimits, new, subnet, connect, disconnect, on_connection,
  on_disconnection,
}
use p2p_service.Subnet.Counts.{
  Conn, Reach, start, opens, closes, hits, open_in, count_of-eq-open_in,
}

cap-on_connection :
    (net : Net) (l : SubnetLimits) (addr : net.Multiaddr) (exempt : Bool)
    → (on_connection net l addr exempt).0.cap ≡ l.cap
unfolding on_connection connect
cap-on_connection net l addr exempt = ground arith

cap-on_disconnection :
    (net : Net) (l : SubnetLimits) (addr : net.Multiaddr)
    → (on_disconnection net l addr).cap ≡ l.cap
unfolding on_disconnection disconnect
cap-on_disconnection net l addr = ground arith

cap-Reach :
    (net : Net) (limit : ℕ) {l : SubnetLimits} {cs : List (Conn net)}
    → Reach net limit l cs
    → l.cap ≡ limit
cap-Reach net limit start = unfold new in refl
cap-Reach net limit (opens {l} addr exempt r) =
    cap-on_connection net l addr exempt ∙ cap-Reach net limit r
cap-Reach net limit (closes {l} xs c ys e r) =
    cap-on_disconnection net l c.addr ∙ cap-Reach net limit r

-- After any history in which only open connections close, a connection is rejected exactly if its
-- peer is not exempt and its subnet, which must be an IPv4 one, has as many open connections as
-- the limit already.
pub verdict_lem :
    (net : Net) (limit : ℕ) {l : SubnetLimits} {cs : List (Conn net)} (addr : net.Multiaddr)
    (exempt : Bool)
    → Reach net limit l cs
    → (on_connection net l addr exempt).1 ≡ elim (subnet net addr) [
      | none ↦ allow
      | some s ↦ if not exempt && leb limit (open_in net s cs) then reject else allow
    ]
unfolding on_connection connect
verdict_lem net limit {l} {cs} addr exempt r = elim (Option-cases (subnet net addr)) [
  | inl e ↦ rw (e, on_connection)
  | inr (s, e) ↦
      rw (e, on_connection) (rw (count_of-eq-open_in net limit s r, cap-Reach net limit r) refl)
]

-- Whether the connection takes one of its subnet's slots.
abbrev pub takes_slot : (net : Net) → Conn net → Bool
takes_slot net c = not c.exempt && is_allow c.verdict
  where
    is_allow : Verdict → Bool
    is_allow allow = true
    is_allow reject = false

-- The open connections of the subnet that were let in and are not exempt.
unfoldable pub admitted_in : (net : Net) → Octets → List (Conn net) → ℕ
admitted_in net s [] = 0
admitted_in net s (c ∷ cs) =
    (if takes_slot net c then hits s (subnet net c.addr) else 0) + admitted_in net s cs

admitted_in-le-open_in :
    (net : Net) (s : Octets) (cs : List (Conn net)) → admitted_in net s cs ≤ open_in net s cs
unfolding admitted_in open_in
admitted_in-le-open_in net s [] = omega arith
admitted_in-le-open_in net s (c ∷ cs) = ground (arith, admitted_in-le-open_in net s cs)

admitted_in-append :
    (net : Net) (s : Octets) (xs ys : List (Conn net))
    → admitted_in net s (xs ++ ys) ≡ admitted_in net s xs + admitted_in net s ys
unfolding admitted_in
admitted_in-append net s [] ys = omega arith
admitted_in-append net s (c ∷ xs) ys = omega (arith, admitted_in-append net s xs ys)

-- Over every history of connections and disconnections in which only open connections close, never
-- more than the limit of open connections of one subnet were let in, exempt ones apart.
pub admitted_in-le-limit :
    (net : Net) (limit : ℕ) {l : SubnetLimits} {cs : List (Conn net)} (s : Octets)
    → Reach net limit l cs
    → admitted_in net s cs ≤ limit
unfolding admitted_in
admitted_in-le-limit net limit s start = omega arith
admitted_in-le-limit net limit s (opens {l} {cs} addr exempt r) = ground (
  arith,
  verdict_lem net limit addr exempt r,
  admitted_in-le-limit net limit s r,
  admitted_in-le-open_in net s cs,
)
admitted_in-le-limit net limit s (closes {l} xs c ys e r) = omega (
  arith,
  admitted_in-le-limit net limit s r,
  ap (admitted_in net s) e,
  admitted_in-append net s xs (c ∷ ys),
  admitted_in-append net s xs ys,
)
