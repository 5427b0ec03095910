-- ===== src/HashMap/Laws.antt =====
-- The laws of the maps: what a lookup finds after each operation, sizes, and uniqueness of keys.
use p2p_service.Prelude.{
  ◌+◌, ◌≡◌, refl, Bool, [], ◌∷◌, none, some, ite, length, if◌then◌else◌, arith,
}
use p2p_service.HashMap.{HashMap, get, insert, remove, retain, contains_key, IsUnique}

module _ {ℓ} {K V : Type ℓ} (dec : Discrete K) where
  pub get-insert :
      (k j : K) (v : V) (m : HashMap K V)
      → get dec j (insert dec k v m) ≡ ite (dec j k) (some v) (get dec j m)
  unfolding get insert
  get-insert k j v [] = refl
  get-insert k j v ((i, w) ∷ m) = ground (arith, get-insert k j v m)

  pub get-remove :
      (k j : K) (m : HashMap K V) → get dec j (remove dec k m) ≡ ite (dec j k) none (get dec j m)
  unfolding get remove
  get-remove k j [] = ground arith
  get-remove k j ((i, w) ∷ m) = ground (arith, get-remove k j m)

  pub get-retain-none :
      (p : V → Bool) (k : K) (m : HashMap K V) → get dec k m ≡ none → get dec k (retain p m) ≡ none
  unfolding get retain
  get-retain-none p k [] h = refl
  get-retain-none p k ((i, w) ∷ m) h = ground (arith, get-retain-none p k m)

  -- What a lookup finds after `retain`, in a map with unique keys.
  pub get-retain :
      (p : V → Bool) (k : K) (m : HashMap K V)
      → IsUnique dec m
      → get dec k (retain p m)
        ≡ elim (get dec k m) [ none ↦ none | some v ↦ if p v then some v else none ]
  unfolding get retain
  get-retain p k [] u = refl
  get-retain p k ((i, w) ∷ m) u = ground (arith, get-retain p k m u.1, get-retain-none p k m)

  pub insert-IsUnique :
      (k : K) (v : V) (m : HashMap K V) → IsUnique dec m → IsUnique dec (insert dec k v m)
  unfolding get insert
  insert-IsUnique k v [] u = (refl, tt)
  insert-IsUnique k v ((i, w) ∷ m) u = ground (arith, insert-IsUnique k v m u.1, get-insert k i v m)

  pub remove-IsUnique : (k : K) (m : HashMap K V) → IsUnique dec m → IsUnique dec (remove dec k m)
  unfolding get remove
  remove-IsUnique k [] u = tt
  remove-IsUnique k ((i, w) ∷ m) u = ground (arith, remove-IsUnique k m u.1, get-remove k i m)

  pub retain-IsUnique :
      (p : V → Bool) (m : HashMap K V) → IsUnique dec m → IsUnique dec (retain p m)
  unfolding get retain
  retain-IsUnique p [] u = tt
  retain-IsUnique p ((i, w) ∷ m) u = ground (arith, retain-IsUnique p m u.1, get-retain-none p i m)

  pub length-insert :
      (k : K) (v : V) (m : HashMap K V)
      → length (insert dec k v m) ≡ (if contains_key dec k m then length m else length m + 1)
  unfolding get insert
  length-insert k v [] = omega arith
  length-insert k v ((i, w) ∷ m) = ground (arith, length-insert k v m)
