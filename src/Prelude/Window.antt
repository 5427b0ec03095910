-- ===== src/Prelude/Window.antt =====
-- The last elements of a list: a bounded buffer that forgets the oldest.
use p2p_service.Prelude.Lists.{length, length-append}
use Prim.Native.Nat.{ℕ, zero, suc, ◌+◌, ◌-◌, ◌≤◌, min}
use mathlib.Core.Path.{◌≡◌, refl, sym, ap, ◌∙◌}
use mathlib.Core.List.{List, [], ◌∷◌, ◌++◌}
use native.Mathlib.Omega.{arith}

zero_sum : (m k : ℕ) → k ≡ 0 + m → m ≡ k
zero_sum m k h = omega arith

module _ {ℓ} {A : Type ℓ} where
  abbrev pub drop : ℕ → List A → List A
  drop zero xs = xs
  drop (suc n) [] = []
  drop (suc n) (x ∷ xs) = drop n xs

  -- The last `n` elements.
  unfoldable pub keep_last : ℕ → List A → List A
  keep_last n xs = drop (length xs - n) xs

  pub length-drop : (n : ℕ) (xs : List A) → length (drop n xs) ≡ length xs - n
  length-drop zero xs = omega arith
  length-drop (suc n) [] = omega arith
  length-drop (suc n) (x ∷ xs) = omega (arith, length-drop n xs)

  pub drop-append : (n : ℕ) (xs ys : List A) → n ≤ length xs → drop n xs ++ ys ≡ drop n (xs ++ ys)
  drop-append zero xs ys h = refl
  drop-append (suc n) [] ys h = absurd (omega arith)
  drop-append (suc n) (x ∷ xs) ys h = drop-append n xs ys (omega arith)

  drop-nil : (n : ℕ) → ◌≡◌ {A = List A} (drop n []) []
  drop-nil zero = refl
  drop-nil (suc n) = refl

  drop-drop : (m n k : ℕ) (xs : List A) → k ≡ n + m → drop m (drop n xs) ≡ drop k xs
  drop-drop m zero k xs h = ap (λ j. drop j xs) (zero_sum m k h)
  drop-drop m (suc n) k [] h = drop-nil m ∙ sym (drop-nil k)
  drop-drop m (suc n) zero (x ∷ xs) h = absurd (omega arith)
  drop-drop m (suc n) (suc k) (x ∷ xs) h = drop-drop m n k xs (omega arith)

  pub length-keep_last-le : (n : ℕ) (xs : List A) → length (keep_last n xs) ≤ n
  unfolding keep_last
  length-keep_last-le n xs = omega (arith, length-drop (length xs - n) xs)

  pub length-keep_last : (n : ℕ) (xs : List A) → length (keep_last n xs) ≡ min n (length xs)
  unfolding keep_last
  length-keep_last n xs = omega (arith, length-drop (length xs - n) xs)

  -- To forget twice is to forget once.
  pub keep_last-keep_last :
      (n : ℕ) (xs ys : List A) → keep_last n (keep_last n xs ++ ys) ≡ keep_last n (xs ++ ys)
  unfolding keep_last
  keep_last-keep_last n xs ys =
      let k = length xs - n in
      rw (drop-append k xs ys (omega arith))
        (drop-drop _ k _ (xs ++ ys) (omega (arith, length-drop k (xs ++ ys), length-append xs ys)))

  pub keep_last-nil : (n : ℕ) → ◌≡◌ {A = List A} (keep_last n []) []
  unfolding keep_last
  keep_last-nil n = drop-nil _
