-- ===== src/HashMap.antt =====
-- `std::collections::HashMap`, as an association list. The order of the list stands for the
-- unspecified order of iteration; nothing depends on it. `insert` replaces the value of a key that
-- is there, `remove` drops every entry of its key.
pub mod Laws
pub mod Values
pub mod Entries
pub mod Prefix
use p2p_service.Prelude.{
  ℕ, Bool, true, false, List, [], ◌∷◌, Option, none, some, ite, length, is_some, if◌then◌else◌, ◌≡◌,
  map,
}

abbrev pub HashMap {ℓ} : Type ℓ → Type ℓ → Type ℓ
HashMap K V = List (K × V)

abbrev pub keys {ℓ} : {K V : Type ℓ} → HashMap K V → List K
keys = map (λ e. e.0)

module _ {ℓ} {K V : Type ℓ} (dec : Discrete K) where
  unfoldable pub get : K → HashMap K V → Option V
  get k [] = none
  get k ((j, v) ∷ m) = ite (dec k j) (some v) (get k m)

  unfoldable pub insert : K → V → HashMap K V → HashMap K V
  insert k v [] = (k, v) ∷ []
  insert k v ((j, w) ∷ m) = ite (dec k j) ((k, v) ∷ m) ((j, w) ∷ insert k v m)

  unfoldable pub remove : K → HashMap K V → HashMap K V
  remove k [] = []
  remove k ((j, w) ∷ m) = ite (dec k j) (remove k m) ((j, w) ∷ remove k m)

  abbrev pub contains_key : K → HashMap K V → Bool
  contains_key k m = is_some (get k m)

  -- Each key stands in one entry: what the type `HashMap` guarantees.
  abbrev pub IsUnique : HashMap K V → Type ℓ
  IsUnique [] = Unit
  IsUnique ((j, w) ∷ m) = (get j m ≡ none) × IsUnique m

-- Keeps the entries whose value passes the test.
unfoldable pub retain {ℓ} : {K V : Type ℓ} → (V → Bool) → HashMap K V → HashMap K V
retain p [] = []
retain p ((j, w) ∷ m) = let rest = retain p m in if p w then (j, w) ∷ rest else rest
