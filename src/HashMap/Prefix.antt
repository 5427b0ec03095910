-- ===== src/HashMap/Prefix.antt =====
-- The first entries of a map (`std::collections::HashMap`).
use p2p_service.Prelude.{
  ◌≡◌, refl, none, [], ◌∷◌, map, ℕ, zero, suc, take, false, arith, if◌then◌else◌,
}
use p2p_service.HashMap
use p2p_service.HashMap.{HashMap}
use p2p_service.HashSet.{contains, IsDistinct}

module _ {K V : Type 0} (dec : Discrete K) where
  -- A key of the first entries of a map has the value that it has in the map.
  pub get-take :
      (k : K) (n : ℕ) (m : HashMap K V)
      → HashMap.get dec k (take n m)
        ≡ (if contains dec k (map (λ e. e.0) (take n m)) then HashMap.get dec k m else none)
  unfolding HashMap.get contains
  get-take k zero m = refl
  get-take k (suc n) [] = refl
  get-take k (suc n) ((j, v) ∷ m) = ground (arith, get-take k n m)

  pub get-absent :
      (k : K) (m : HashMap K V)
      → contains dec k (map (λ e. e.0) m) ≡ false
      → HashMap.get dec k m ≡ none
  unfolding HashMap.get contains
  get-absent k [] h = refl
  get-absent k ((j, v) ∷ m) h = ground (arith, get-absent k m)

  pub take-IsDistinct :
      (n : ℕ) (m : HashMap K V)
      → IsDistinct dec (map (λ e. e.0) m)
      → IsDistinct dec (map (λ e. e.0) (take n m))
        × ((k : K)
            → contains dec k (map (λ e. e.0) m) ≡ false
            → contains dec k (map (λ e. e.0) (take n m)) ≡ false)
  unfolding contains
  take-IsDistinct zero m u = (tt, λ k h. refl)
  take-IsDistinct (suc n) [] u = (tt, λ k h. refl)
  take-IsDistinct (suc n) ((j, v) ∷ m) u =
      let ih = take-IsDistinct n m u.1 in ((ih.1 j u.0, ih.0), λ k h. ground (arith, ih.1 k))
