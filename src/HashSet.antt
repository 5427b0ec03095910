-- ===== src/HashSet.antt =====
-- `std::collections::HashSet`, as a list of its members.
pub mod Laws
use p2p_service.Prelude.{ℕ, Bool, true, false, List, [], ◌∷◌, ite, ◌≡◌, if◌then◌else◌}

abbrev pub HashSet : Type 0 → Type 0
HashSet A = List A

module _ {A : Type 0} (dec : Discrete A) where
  unfoldable pub contains : A → HashSet A → Bool
  contains a [] = false
  contains a (x ∷ xs) = ite (dec a x) true (contains a xs)

  unfoldable pub insert : A → HashSet A → HashSet A
  insert a [] = a ∷ []
  insert a (x ∷ xs) = ite (dec a x) (x ∷ xs) (x ∷ insert a xs)

  unfoldable pub remove : A → HashSet A → HashSet A
  remove a [] = []
  remove a (x ∷ xs) = ite (dec a x) (remove a xs) (x ∷ remove a xs)

  -- `iter().collect()` into a set.
  unfoldable pub from_list : List A → HashSet A
  from_list [] = []
  from_list (x ∷ xs) = insert x (from_list xs)

  -- No member stands twice in the list.
  abbrev pub IsDistinct : HashSet A → Type 0
  IsDistinct [] = Unit
  IsDistinct (x ∷ xs) = (contains x xs ≡ false) × IsDistinct xs
