-- ===== src/HashMap/Entries.antt =====
-- A property of every entry of a map (`std::collections::HashMap`), its key included.
use mathlib.Core.Path.{subst}
use p2p_service.Prelude.{◌≡◌, sym, some_inj, some, [], ◌∷◌, Each, ite-both, if_pos, if_neg, ◌∙◌}
use p2p_service.HashMap.{HashMap, get, insert}

module _ {K V : Type 0} (dec : Discrete K) (P : K × V → Type 0) where
  pub get-Each : (k : K) (v : V) (m : HashMap K V) → Each P m → get dec k m ≡ some v → P (k, v)
  unfolding get Each
  get-Each k v [] h e = absurd (cc)
  get-Each k v ((j, w) ∷ m) h e = elim (dec k j) [
    | yes same ↦
        let found : w ≡ v = some_inj (sym (if_pos (dec k j) same _ _) ∙ e) in
        subst (λ x. P (k, x)) found (subst (λ i. P (i, w)) (sym same) h.0)
    | no other ↦ get-Each k v m h.1 (sym (if_neg (dec k j) other _ _) ∙ e)
  ]

  pub insert-Each :
      (k : K) (v : V) (m : HashMap K V) → P (k, v) → Each P m → Each P (insert dec k v m)
  unfolding insert Each
  insert-Each k v [] p h = (p, tt)
  insert-Each k v ((j, w) ∷ m) p h =
      ite-both (Each P) (dec k j) ((k, v) ∷ m) ((j, w) ∷ insert dec k v m) (p, h.1)
        (h.0, insert-Each k v m p h.1)
