-- ===== src/Network/Dials/Table.antt =====
-- Counts of senders in the table of dials (`pending_dials` of src/p2p/network.rs).
use p2p_service.Prelude.{ℕ, ◌+◌, ◌≤◌, ◌≡◌, refl, none, List, [], ◌∷◌, ◌++◌, ite, ℕ_discrete, arith}
use p2p_service.HashMap
use p2p_service.HashMap.{HashMap, IsUnique}
use p2p_service.Network.Events.{addrs_or_default}

-- How often a number stands in a list.
unfoldable pub count : ℕ → List ℕ → ℕ
count n [] = 0
count n (x ∷ xs) = ite (ℕ_discrete n x) 1 0 + count n xs

pub count-append : (n : ℕ) (xs ys : List ℕ) → count n (xs ++ ys) ≡ count n xs + count n ys
unfolding count
count-append n [] ys = omega arith
count-append n (x ∷ xs) ys = omega (arith, count-append n xs ys)

-- How often a sender waits in the table of dials.
unfoldable pub waits : {P : Type 0} → ℕ → HashMap P (List ℕ) → ℕ
waits n [] = 0
waits n ((p, senders) ∷ m) = count n senders + waits n m

module _ {P : Type 0} (dec : Discrete P) where
  pub waits-insert :
      (n : ℕ) (p : P) (senders : List ℕ) (m : HashMap P (List ℕ))
      → waits n (HashMap.insert dec p senders m) + count n (addrs_or_default (HashMap.get dec p m))
        ≡ waits n m + count n senders
  unfolding waits HashMap.insert HashMap.get count
  waits-insert n p senders [] = omega arith
  waits-insert n p senders ((q, old) ∷ m) = ground (arith, waits-insert n p senders m)

  waits-remove_absent :
      (n : ℕ) (p : P) (m : HashMap P (List ℕ))
      → HashMap.get dec p m ≡ none
      → waits n (HashMap.remove dec p m) ≡ waits n m
  unfolding waits HashMap.remove HashMap.get
  waits-remove_absent n p [] h = refl
  waits-remove_absent n p ((q, old) ∷ m) h = ground (arith, waits-remove_absent n p m)

  pub waits-remove :
      (n : ℕ) (p : P) (m : HashMap P (List ℕ))
      → IsUnique dec m
      → waits n (HashMap.remove dec p m) + count n (addrs_or_default (HashMap.get dec p m))
        ≡ waits n m
  unfolding waits HashMap.remove HashMap.get count
  waits-remove n p [] u = omega arith
  waits-remove n p ((q, old) ∷ m) u =
      ground (arith, waits-remove n p m u.1, waits-remove_absent n p m)

  -- Those that wait for one peer are among all.
  pub count-le-waits :
      (n : ℕ) (p : P) (m : HashMap P (List ℕ))
      → count n (addrs_or_default (HashMap.get dec p m)) ≤ waits n m
  unfolding waits HashMap.get count
  count-le-waits n p [] = omega arith
  count-le-waits n p ((q, old) ∷ m) = ground (arith, count-le-waits n p m)
