-- ===== src/Metrics/Memory/Text.antt =====
-- The functions on text that `get_memory_usage` of src/metrics.rs calls, on text that is put together
-- from lines and words.
use mathlib.Core.List.{append_assoc, append-nil}
use p2p_service.Prelude.{
  ℕ, ◌+◌, ◌-◌, ◌*◌, ◌^◌, ◌≤◌, ◌<◌, ◌≡◌, refl, ap, ◌∙◌, true, false, ◌&&◌, ◌||◌, some, List, [], ◌∷◌,
  ◌++◌, ◌==◌, leb, arith, Each,
}
use p2p_service.Metrics.Memory.{
  is_whitespace, strip_cr, end_of_text, lines_from, lines, words_from, push_digit, parse_digits,
}

-- No character of the text ends a line.
abbrev pub IsLine : List ℕ → Type 0
IsLine = Each (λ c. ((c == 10) || (c == 13)) ≡ false)

abbrev pub IsWord : List ℕ → Type 0
IsWord = Each (λ c. is_whitespace c ≡ false)

abbrev pub IsGap : List ℕ → Type 0
IsGap = Each (λ c. ((c == 32) || (c == 9)) ≡ true)

abbrev pub IsNumber : List ℕ → Type 0
IsNumber = Each (λ c. (leb b'0' c && leb c b'9') ≡ true)

-- Each line with its line feed.
unfoldable pub unlines : List (List ℕ) → List ℕ
unlines [] = []
unlines (line ∷ rest) = line ++ 10 ∷ unlines rest

strip_cr_line : (line : List ℕ) → IsLine line → strip_cr line ≡ line
unfolding strip_cr Each
strip_cr_line [] h = refl
strip_cr_line (c ∷ []) h = ground (arith, h.0)
strip_cr_line (c ∷ d ∷ cs) h = ap (λ cs. c ∷ cs) (strip_cr_line (d ∷ cs) h.1)

lines_from_line :
    (read line rest : List ℕ)
    → IsLine line
    → lines_from read (line ++ 10 ∷ rest) ≡ strip_cr (read ++ line) ∷ lines_from [] rest
unfolding lines_from Each
lines_from_line read [] rest h = rw (append-nil read) refl
lines_from_line read (c ∷ line) rest h =
    ground (arith, h.0, lines_from_line (read ++ c ∷ []) line rest h.1)
    ∙ ap (λ l. strip_cr l ∷ lines_from [] rest) (append_assoc read (c ∷ []) line)

-- Lines that are put together come apart as they were.
pub lines-unlines : (ls : List (List ℕ)) → Each IsLine ls → lines (unlines ls) ≡ ls
unfolding lines unlines lines_from Each end_of_text
lines-unlines [] h = refl
lines-unlines (line ∷ ls) h =
    rw (lines_from_line [] line (unlines ls) h.0, strip_cr_line line h.0)
      (ap (λ ls. line ∷ ls) (lines-unlines ls h.1))

pub words_from_word :
    (read word : List ℕ) (c : ℕ) (rest : List ℕ)
    → IsWord word
    → is_whitespace c ≡ true
    → words_from read (word ++ c ∷ rest) ≡ end_of_text (read ++ word) ++ words_from [] rest
unfolding words_from Each
words_from_word read [] c rest h k = rw (append-nil read, k) refl
words_from_word read (a ∷ word) c rest h k = rw (h.0) (
    words_from_word (read ++ a ∷ []) word c rest h.1 k
    ∙ ap (λ w. end_of_text w ++ words_from [] rest) (append_assoc read (a ∷ []) word))

pub words_from_gap :
    (gap rest : List ℕ) → IsGap gap → words_from [] (gap ++ rest) ≡ words_from [] rest
unfolding words_from is_whitespace end_of_text Each
words_from_gap [] rest h = refl
words_from_gap (c ∷ gap) rest h = ground (arith, h.0, words_from_gap gap rest h.1)

-- The number that digits stand for, after those that make `n`.
unfoldable pub value : ℕ → List ℕ → ℕ
value n [] = n
value n (c ∷ cs) = value (n * 10 + (c - b'0')) cs

value-ge : (n : ℕ) (cs : List ℕ) → n ≤ value n cs
unfolding value
value-ge n [] = omega arith
value-ge n (c ∷ cs) = omega (arith, value-ge (n * 10 + (c - b'0')) cs)

pub parse_digits-value :
    (n : ℕ) (cs : List ℕ)
    → IsNumber cs
    → value n cs < 2 ^ 64
    → parse_digits n cs ≡ some (value n cs)
unfolding parse_digits push_digit value Each
parse_digits-value n [] h k = refl
parse_digits-value n (c ∷ cs) h k =
    let m = n * 10 + (c - b'0') in
    ground (arith, h.0, value-ge m cs, k, parse_digits-value m cs h.1 k)
