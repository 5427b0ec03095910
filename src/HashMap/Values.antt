-- ===== src/HashMap/Values.antt =====
-- A property of every value of a map (`std::collections::HashMap`).
use mathlib.Core.Path.{subst}
use p2p_service.Prelude.{◌≡◌, none, some, [], ◌∷◌, Option, Each, ite-both}
use p2p_service.HashMap.{HashMap, get, insert, remove}

module _ {K V : Type 0} (dec : Discrete K) (P : V → Type 0) where
  abbrev pub EachValue : HashMap K V → Type 0
  EachValue = Each (λ e. P e.1)

  abbrev IsNoneOr : Option V → Type 0
  IsNoneOr none = Unit
  IsNoneOr (some v) = P v

  get-IsNoneOr : (k : K) (m : HashMap K V) → EachValue m → IsNoneOr (get dec k m)
  unfolding get Each
  get-IsNoneOr k [] h = tt
  get-IsNoneOr k ((j, w) ∷ m) h =
      ite-both IsNoneOr (dec k j) (some w) (get dec k m) h.0 (get-IsNoneOr k m h.1)

  pub get-EachValue : (k : K) (v : V) (m : HashMap K V) → EachValue m → get dec k m ≡ some v → P v
  get-EachValue k v m h e = subst IsNoneOr e (get-IsNoneOr k m h)

  pub insert-EachValue :
      (k : K) (v : V) (m : HashMap K V) → P v → EachValue m → EachValue (insert dec k v m)
  unfolding insert Each
  insert-EachValue k v [] p h = (p, tt)
  insert-EachValue k v ((j, w) ∷ m) p h =
      ite-both EachValue (dec k j) ((k, v) ∷ m) ((j, w) ∷ insert dec k v m) (p, h.1)
        (h.0, insert-EachValue k v m p h.1)

  pub remove-EachValue : (k : K) (m : HashMap K V) → EachValue m → EachValue (remove dec k m)
  unfolding remove Each
  remove-EachValue k [] h = tt
  remove-EachValue k ((j, w) ∷ m) h =
      ite-both EachValue (dec k j) (remove dec k m) ((j, w) ∷ remove dec k m)
        (remove-EachValue k m h.1) (h.0, remove-EachValue k m h.1)
