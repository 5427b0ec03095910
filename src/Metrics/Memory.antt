-- ===== src/Metrics/Memory.antt =====
-- `get_memory_usage` and `update_memory_usage` of src/metrics.rs. The text of /proc/self/status is the
-- list of its characters' codes; the functions of Rust's `str` that the code calls are written out.
pub mod Text
pub mod Status
mod Examples
use p2p_service.Prelude.{
  ℕ, zero, suc, ◌+◌, ◌-◌, ◌*◌, ◌%◌, ◌^◌, Bool, true, false, ◌&&◌, ◌||◌, not, Option, none, some,
  List, [], ◌∷◌, ◌++◌, ◌==◌, leb, ltb, if◌then◌else◌, ◌>>=◌,
}
use p2p_service.Metrics.{Metrics}
use p2p_service.Metrics.Gauge.{ℤ, pos, negsuc}

-- "VmRSS:"
abbrev pub vm_rss : List ℕ
vm_rss = b'V' ∷ b'm' ∷ b'R' ∷ b'S' ∷ b'S' ∷ b':' ∷ []

-- `char::is_whitespace`
unfoldable pub is_whitespace : ℕ → Bool
is_whitespace c =
    (leb 9 c && leb c 13)
    || (c == 32)
    || (c == 133)
    || (c == 160)
    || (c == 5760)
    || (leb 8192 c && leb c 8202)
    || (c == 8232)
    || (c == 8233)
    || (c == 8239)
    || (c == 8287)
    || (c == 12288)

unfoldable pub starts_with : List ℕ → List ℕ → Bool
starts_with [] text = true
starts_with (p ∷ ps) [] = false
starts_with (p ∷ ps) (c ∷ cs) = (p == c) && starts_with ps cs

-- A line that was ended by a line feed, without the carriage return before it.
unfoldable pub strip_cr : List ℕ → List ℕ
strip_cr [] = []
strip_cr (c ∷ []) = if c == 13 then [] else c ∷ []
strip_cr (c ∷ d ∷ cs) = c ∷ strip_cr (d ∷ cs)

unfoldable pub end_of_text : List ℕ → List (List ℕ)
end_of_text [] = []
end_of_text (c ∷ cs) = (c ∷ cs) ∷ []

-- `lines`, with what of the line has been read.
unfoldable pub lines_from : (line : List ℕ) → List ℕ → List (List ℕ)
unfolding strip_cr end_of_text
lines_from line [] = end_of_text line
lines_from line (c ∷ cs) =
    let ended = lines_from [] cs in
    let longer = lines_from (line ++ c ∷ []) cs in if c == 10 then strip_cr line ∷ ended else longer

unfoldable pub lines : List ℕ → List (List ℕ)
unfolding lines_from
lines text = lines_from [] text

-- `split_whitespace`, with what of the word has been read.
unfoldable pub words_from : (word : List ℕ) → List ℕ → List (List ℕ)
unfolding is_whitespace end_of_text
words_from word [] = end_of_text word
words_from word (c ∷ cs) =
    let ended = words_from [] cs in
    let longer = words_from (word ++ c ∷ []) cs in
    if is_whitespace c then end_of_text word ++ ended else longer

unfoldable pub split_whitespace : List ℕ → List (List ℕ)
unfolding words_from
split_whitespace text = words_from [] text

-- One digit more, checked for overflow.
unfoldable pub push_digit : ℕ → ℕ → Option ℕ
push_digit n c =
    if leb b'0' c && leb c b'9' && ltb (n * 10 + (c - b'0')) (2 ^ 64)
    then some (n * 10 + (c - b'0'))
    else none

unfoldable pub parse_digits : ℕ → List ℕ → Option ℕ
unfolding push_digit
parse_digits n [] = some n
parse_digits n (c ∷ cs) = do m ← push_digit n c; parse_digits m cs

-- `parse::<u64>`: a sign `+` may come first, and there is at least one digit.
unfoldable pub parse_u64 : List ℕ → Option ℕ
unfolding parse_digits
parse_u64 [] = none
parse_u64 (c ∷ []) = parse_digits 0 (c ∷ [])
parse_u64 (c ∷ d ∷ cs) =
    let unsigned = parse_digits 0 (d ∷ cs) in
    let plain = parse_digits 0 (c ∷ d ∷ cs) in if c == b'+' then unsigned else plain

-- `parts.len() >= 2` and the parse of the second part.
unfoldable pub second_number : List (List ℕ) → Option ℕ
unfolding parse_u64
second_number (first ∷ second ∷ rest) = parse_u64 second
second_number _ = none

-- The kilobytes of a line, if it is one that the loop returns from.
unfoldable pub kilobytes_of : List ℕ → Option ℕ
unfolding starts_with second_number split_whitespace
kilobytes_of line = if starts_with vm_rss line then second_number (split_whitespace line) else none

-- The loop over the lines; the product wraps as in a release build.
unfoldable pub usage_in : List (List ℕ) → ℕ
unfolding kilobytes_of
usage_in [] = 0
usage_in (line ∷ rest) = elim (kilobytes_of line) [
  | none ↦ usage_in rest
  | some kb ↦ (kb * 1024) % 2 ^ 64
]

-- `none` is the error of reading the file.
unfoldable pub get_memory_usage : Option (List ℕ) → Option ℕ
unfolding usage_in lines
get_memory_usage none = none
get_memory_usage (some contents) = some (usage_in (lines contents))

-- `as i64`
unfoldable pub as_i64 : ℕ → ℤ
as_i64 n = if ltb n (2 ^ 63) then pos n else negsuc (2 ^ 64 - n - 1)

unfoldable pub update_memory_usage : Metrics → Option (List ℕ) → Metrics
unfolding get_memory_usage as_i64
update_memory_usage m contents = elim (get_memory_usage contents) [
  | none ↦ m
  | some usage ↦ record m { memory_usage_bytes = as_i64 usage }
]
