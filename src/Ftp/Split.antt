-- ===== src/Ftp/Split.antt =====
-- `split` of source/ftp.c: a line's first words, and the rest of it.
pub mod Fields
pub mod Correct
use ftpii.Base.{
  ℕ, zero, suc, ◌+◌, ◌-◌, Bool, true, false, not, List, [], ◌∷◌, ◌++◌, ◌==◌, leb, if◌then◌else◌,
  Bytes, length, take,
}
use mathlib.Core.List.{reverse}

-- The locals of the loop. `result` holds the strings that were begun, the newest first, so
-- `num_results` is its length and `result_pos` the length of its head.
pub record Splitting : Type 0 where
  pub result : List Bytes
  pub trim_pos : ℕ
  pub in_word : Bool

abbrev pub result_pos : List Bytes → ℕ
result_pos [] = 0
result_pos (s ∷ _) = length s

-- `result[num_results - 1][result_pos++] = *s` and the terminator behind it
abbrev pub put : ℕ → List Bytes → List Bytes
put c [] = []
put c (s ∷ ss) = (s ++ c ∷ []) ∷ ss

-- the loop's body from `if (!in_word)` on
unfoldable pub keep : ℕ → ℕ → Splitting → Splitting
keep maxsplit c t = if t.in_word then record t { result = put c t.result } else record t {
  in_word = true;
  result = put c (if leb (length t.result) maxsplit then [] ∷ t.result else t.result);
}

-- the loop's body
unfoldable pub split_step : ℕ → ℕ → ℕ → Splitting → Splitting
unfolding keep
split_step sep maxsplit c t =
    if c == sep
    then (if leb (length t.result) maxsplit
        then record t { in_word = false }
        else keep maxsplit c
            (record t { trim_pos = if t.trim_pos == 0 then result_pos t.result else t.trim_pos }))
    else keep maxsplit c (record t { trim_pos = 0 })

unfoldable pub split_loop : ℕ → ℕ → Bytes → Splitting → Splitting
split_loop sep maxsplit [] t = t
split_loop sep maxsplit (c ∷ s) t = split_loop sep maxsplit s (split_step sep maxsplit c t)

-- `if (trim_pos) result[num_results - 1][trim_pos] = 0`
abbrev pub trim : ℕ → List Bytes → List Bytes
trim zero ss = ss
trim (suc n) [] = []
trim (suc n) (s ∷ ss) = take (suc n) s ∷ ss

-- The strings of the result array; the entries behind them are set to "".
unfoldable pub split : Bytes → ℕ → ℕ → List Bytes
split s sep maxsplit =
    let t = split_loop sep maxsplit s (record { result = []; trim_pos = 0; in_word = false }) in
    reverse (trim t.trim_pos t.result)

-- An entry of the result array.
abbrev pub field : List Bytes → ℕ → Bytes
field [] i = []
field (s ∷ ss) zero = s
field (s ∷ ss) (suc i) = field ss i
