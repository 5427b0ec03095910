-- ===== src/Prelude/Every.antt =====
-- A property of every member of a list.
use mathlib.Core.List.{List, [], ◌∷◌, ◌++◌, map}
use Prim.Native.Nat.{ℕ, zero, suc}
use p2p_service.Prelude.Lists.{take}

unfoldable pub Each {ℓ} : {A : Type ℓ} → (A → Type 0) → List A → Type 0
Each P [] = Unit
Each P (x ∷ xs) = P x × Each P xs

module _ {ℓ} {A : Type ℓ} where
  pub Each-append : (P : A → Type 0) (xs ys : List A) → Each P xs → Each P ys → Each P (xs ++ ys)
  unfolding Each
  Each-append P [] ys h k = k
  Each-append P (x ∷ xs) ys h k = (h.0, Each-append P xs ys h.1 k)

  pub Each-take : (P : A → Type 0) (n : ℕ) (xs : List A) → Each P xs → Each P (take n xs)
  unfolding Each
  Each-take P zero xs h = tt
  Each-take P (suc n) [] h = tt
  Each-take P (suc n) (x ∷ xs) h = (h.0, Each-take P n xs h.1)

  pub Each-imp : (P Q : A → Type 0) → ((x : A) → P x → Q x) → (xs : List A) → Each P xs → Each Q xs
  unfolding Each
  Each-imp P Q f [] h = tt
  Each-imp P Q f (x ∷ xs) h = (f x h.0, Each-imp P Q f xs h.1)

pub Each-map {ℓ κ} :
    {A : Type ℓ} {B : Type κ} (P : B → Type 0) (f : A → B) (xs : List A)
    → Each (λ x. P (f x)) xs
    → Each P (map f xs)
unfolding Each
Each-map P f [] h = tt
Each-map P f (x ∷ xs) h = (h.0, Each-map P f xs h.1)
