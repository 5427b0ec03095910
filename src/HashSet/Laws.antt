-- ===== src/HashSet/Laws.antt =====
-- The laws of the sets.
use p2p_service.Prelude.{
  ◌+◌, ◌≤◌, ◌≡◌, refl, true, false, List, [], ◌∷◌, ◌++◌, ◌||◌, ite, if_pos, length, arith,
  if◌then◌else◌,
}
use p2p_service.HashSet.{HashSet, contains, insert, remove, from_list, IsDistinct}

module _ {A : Type 0} (dec : Discrete A) where
  pub contains-insert :
      (a b : A) (s : HashSet A)
      → contains dec b (insert dec a s) ≡ ite (dec b a) true (contains dec b s)
  unfolding contains insert
  contains-insert a b [] = refl
  contains-insert a b (x ∷ s) = ground (arith, contains-insert a b s)

  pub contains-remove :
      (a b : A) (s : HashSet A)
      → contains dec b (remove dec a s) ≡ ite (dec b a) false (contains dec b s)
  unfolding contains remove
  contains-remove a b [] = ground arith
  contains-remove a b (x ∷ s) = ground (arith, contains-remove a b s)

  pub contains-from_list :
      (a : A) (xs : List A) → contains dec a (from_list dec xs) ≡ contains dec a xs
  unfolding contains from_list
  contains-from_list a [] = refl
  contains-from_list a (x ∷ xs) =
      ground (arith, contains-insert x a (from_list dec xs), contains-from_list a xs)

  pub contains-append :
      (a : A) (xs ys : List A)
      → contains dec a (xs ++ ys) ≡ (contains dec a xs || contains dec a ys)
  unfolding contains
  contains-append a [] ys = refl
  contains-append a (x ∷ xs) ys = ground (arith, contains-append a xs ys)

  pub insert-IsDistinct :
      (a : A) (s : HashSet A) → IsDistinct dec s → IsDistinct dec (insert dec a s)
  unfolding contains insert
  insert-IsDistinct a [] d = (refl, tt)
  insert-IsDistinct a (x ∷ s) d = ground (arith, insert-IsDistinct a s d.1, contains-insert a x s)

  pub length-insert :
      (a : A) (s : HashSet A)
      → length (insert dec a s) ≡ (if contains dec a s then length s else length s + 1)
  unfolding contains insert
  length-insert a [] = omega arith
  length-insert a (x ∷ s) = ground (arith, length-insert a s)

  length-remove-le : (a : A) (s : HashSet A) → length (remove dec a s) ≤ length s
  unfolding remove
  length-remove-le a [] = omega arith
  length-remove-le a (x ∷ s) = ground (arith, length-remove-le a s)

  length-remove_member :
      (a : A) (s : HashSet A) → contains dec a s ≡ true → length (remove dec a s) + 1 ≤ length s
  unfolding contains remove
  length-remove_member a [] h = cc
  length-remove_member a (x ∷ s) h = ground (arith, length-remove_member a s, length-remove-le a s)

  pub contains_head : (x : A) (xs : List A) → contains dec x (x ∷ xs) ≡ true
  unfolding contains
  contains_head x xs = if_pos (dec x x) refl true (contains dec x xs)

  pub contains_tail :
      (a x : A) (xs : List A) → contains dec a xs ≡ true → contains dec a (x ∷ xs) ≡ true
  unfolding contains
  contains_tail a x xs h = ground arith

  -- A set without repetitions is no longer than a list that covers it.
  pub length-le_of_subset :
      (xs ys : List A)
      → IsDistinct dec xs
      → ((a : A) → contains dec a xs ≡ true → contains dec a ys ≡ true)
      → length xs ≤ length ys
  length-le_of_subset [] ys u h = omega arith
  length-le_of_subset (x ∷ xs) ys u h = omega (
    arith,
    length-remove_member x ys (h x (contains_head x xs)),
    length-le_of_subset xs (remove dec x ys) u.1 (λ a m. fewer a m (h a (contains_tail a x xs m))),
  )
    where
      fewer :
          (a : A)
          → contains dec a xs ≡ true
          → contains dec a ys ≡ true
          → contains dec a (remove dec x ys) ≡ true
      fewer a m n = ground (arith, contains-remove x a ys, u.0)

  pub remove-IsDistinct :
      (a : A) (s : HashSet A) → IsDistinct dec s → IsDistinct dec (remove dec a s)
  unfolding contains remove
  remove-IsDistinct a [] u = tt
  remove-IsDistinct a (x ∷ s) u = ground (arith, remove-IsDistinct a s u.1, contains-remove a x s)

  pub append_one-IsDistinct :
      (xs : List A) (a : A)
      → contains dec a xs ≡ false
      → IsDistinct dec xs
      → IsDistinct dec (xs ++ a ∷ [])
  unfolding contains
  append_one-IsDistinct [] a h d = (refl, tt)
  append_one-IsDistinct (x ∷ xs) a h d =
      ground (arith, append_one-IsDistinct xs a (ground arith) d.1, contains-append x xs (a ∷ []))
