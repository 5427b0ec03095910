-- ===== src/Metrics/Memory/Status.antt =====
-- What src/metrics.rs reads in a /proc/self/status of the form that Linux writes.
use p2p_service.Prelude.{
  ℕ, ◌*◌, ◌%◌, ◌^◌, ◌<◌, ◌≡◌, refl, ap, ◌∙◌, true, false, ◌||◌, some, List, [], ◌∷◌, ◌++◌, ◌==◌,
  arith, Each, Each-append, Each-imp,
}
use p2p_service.Metrics.Memory.{
  vm_rss, is_whitespace, starts_with, end_of_text, words_from, split_whitespace, parse_u64,
  second_number, kilobytes_of, usage_in, get_memory_usage,
}
use p2p_service.Metrics.Memory.Text.{
  IsLine, IsWord, IsGap, IsNumber, unlines, lines-unlines, words_from_word, words_from_gap, value,
  parse_digits-value,
}

-- " kB"
abbrev pub unit : List ℕ
unit = 32 ∷ b'k' ∷ b'B' ∷ []

-- The line of the resident set.
abbrev pub rss_line : (gap digits : List ℕ) → List ℕ
rss_line gap digits = vm_rss ++ (gap ++ (digits ++ unit))

starts_with-append : (xs ys : List ℕ) → starts_with xs (xs ++ ys) ≡ true
unfolding starts_with
starts_with-append [] ys = refl
starts_with-append (x ∷ xs) ys = ground (arith, starts_with-append xs ys)

IsNumber-IsWord : (digits : List ℕ) → IsNumber digits → IsWord digits
unfolding is_whitespace
IsNumber-IsWord digits h = Each-imp _ _ (λ c k. ground (arith, k)) digits h

-- A number starts with no sign.
parse_u64_number :
    (c : ℕ) (cs : List ℕ)
    → IsNumber (c ∷ cs)
    → value 0 (c ∷ cs) < 2 ^ 64
    → parse_u64 (c ∷ cs) ≡ some (value 0 (c ∷ cs))
unfolding parse_u64 Each
parse_u64_number c [] h k = parse_digits-value 0 (c ∷ []) h k
parse_u64_number c (e ∷ cs) h k = ground (arith, h.0, parse_digits-value 0 (c ∷ e ∷ cs) h k)

rss_words :
    (g : ℕ) (gap : List ℕ) (c : ℕ) (cs : List ℕ)
    → IsGap (g ∷ gap)
    → IsNumber (c ∷ cs)
    → split_whitespace (rss_line (g ∷ gap) (c ∷ cs)) ≡ vm_rss ∷ (c ∷ cs) ∷ (b'k' ∷ b'B' ∷ []) ∷ []
unfolding split_whitespace is_whitespace words_from end_of_text Each
rss_words g gap c cs h k =
    words_from_word [] vm_rss g (gap ++ ((c ∷ cs) ++ unit))
      (refl, (refl, (refl, (refl, (refl, (refl, tt)))))) (ground (arith, h.0))
    ∙ ap (λ ws. vm_rss ∷ ws)
        (words_from_gap gap ((c ∷ cs) ++ unit) h.1
          ∙ words_from_word [] (c ∷ cs) 32 (b'k' ∷ b'B' ∷ []) (IsNumber-IsWord (c ∷ cs) k) refl)

kilobytes_found :
    (line : List ℕ) (kb : ℕ)
    → starts_with vm_rss line ≡ true
    → second_number (split_whitespace line) ≡ some kb
    → kilobytes_of line ≡ some kb
unfolding kilobytes_of
kilobytes_found line kb found number = rw (found) number

usage_in_found :
    (line : List ℕ) (rest : List (List ℕ)) (kb : ℕ)
    → kilobytes_of line ≡ some kb
    → usage_in (line ∷ rest) ≡ (kb * 1024) % 2 ^ 64
unfolding usage_in
usage_in_found line rest kb found = rw (found, usage_in) refl

rss_kilobytes :
    (g : ℕ) (gap : List ℕ) (c : ℕ) (cs : List ℕ)
    → IsGap (g ∷ gap)
    → IsNumber (c ∷ cs)
    → value 0 (c ∷ cs) < 2 ^ 64
    → kilobytes_of (rss_line (g ∷ gap) (c ∷ cs)) ≡ some (value 0 (c ∷ cs))
rss_kilobytes g gap c cs h k small =
    kilobytes_found (rss_line (g ∷ gap) (c ∷ cs)) _ (starts_with-append vm_rss _) (
      ap second_number (rss_words g gap c cs h k)
      ∙ unfold second_number in parse_u64_number c cs k small)

-- Lines of other fields are passed over.
usage_in_later :
    (before : List (List ℕ)) (rest : List (List ℕ))
    → Each (λ l. starts_with vm_rss l ≡ false) before
    → usage_in (before ++ rest) ≡ usage_in rest
unfolding usage_in kilobytes_of Each
usage_in_later [] rest h = refl
usage_in_later (l ∷ before) rest h = rw (h.0) (usage_in_later before rest h.1)

IsGap-IsLine : (gap : List ℕ) → IsGap gap → IsLine gap
IsGap-IsLine gap h = Each-imp _ _ (λ c k. ground (arith, k)) gap h

IsNumber-IsLine : (digits : List ℕ) → IsNumber digits → IsLine digits
IsNumber-IsLine digits h = Each-imp _ _ (λ c k. ground (arith, k)) digits h

rss_line-IsLine : (gap digits : List ℕ) → IsGap gap → IsNumber digits → IsLine (rss_line gap digits)
unfolding Each
rss_line-IsLine gap digits h k =
    let ends : ℕ → Type 0 = λ c. ((c == 10) || (c == 13)) ≡ false in
    Each-append ends vm_rss (gap ++ (digits ++ unit))
      (refl, (refl, (refl, (refl, (refl, (refl, tt))))))
      (Each-append ends gap (digits ++ unit) (IsGap-IsLine gap h)
        (Each-append ends digits unit (IsNumber-IsLine digits k) (refl, (refl, (refl, tt)))))

-- Of a status file whose lines hold no line break, in which no line before it begins with VmRSS:,
-- and one is VmRSS: with blanks or tabs, the digits of a number below 2^64, and kB, the memory
-- usage is 1024 times that number, modulo 2^64.
pub get_memory_usage_status :
    (before after : List (List ℕ)) (g : ℕ) (gap : List ℕ) (c : ℕ) (cs : List ℕ)
    → Each IsLine before
    → Each IsLine after
    → Each (λ l. starts_with vm_rss l ≡ false) before
    → IsGap (g ∷ gap)
    → IsNumber (c ∷ cs)
    → value 0 (c ∷ cs) < 2 ^ 64
    → get_memory_usage (some (unlines (before ++ rss_line (g ∷ gap) (c ∷ cs) ∷ after)))
      ≡ some ((value 0 (c ∷ cs) * 1024) % 2 ^ 64)
unfolding get_memory_usage usage_in Each
get_memory_usage_status before after g gap c cs hb ha others h k small =
    let line = rss_line (g ∷ gap) (c ∷ cs) in
    let whole =
      Each-append IsLine before (line ∷ after) hb (rss_line-IsLine (g ∷ gap) (c ∷ cs) h k, ha) in
    ap some (
      ap usage_in (lines-unlines (before ++ line ∷ after) whole)
      ∙ usage_in_later before (line ∷ after) others
      ∙ usage_in_found line after _ (rss_kilobytes g gap c cs h k small))
