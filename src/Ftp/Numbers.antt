-- ===== src/Ftp/Numbers.antt =====
-- The numbers that clients send: `sscanf` with "%3u,%3u,…" in `ftp_PORT` and "%lli" in `ftp_REST`,
-- source/ftp.c, as the C library defines them.
pub mod Decimals
pub mod RoundTrip
pub mod Signed
use ftpii.Base.{
  ℕ, zero, suc, ◌+◌, ◌-◌, ◌*◌, ◌%◌, ◌^◌, Bool, true, false, ◌&&◌, ◌||◌, List, [], ◌∷◌, Option, none,
  some, Bytes, ltb, leb, ◌==◌, if◌then◌else◌, min,
}

abbrev pub is_space : ℕ → Bool
is_space c = c == b' ' || (leb 9 c && leb c 13)

unfoldable pub skip_spaces : Bytes → Bytes
skip_spaces [] = []
skip_spaces (c ∷ s) = if is_space c then skip_spaces s else c ∷ s

-- The value of a digit in any base up to 16; 16 if it is none.
abbrev pub digit : ℕ → ℕ
digit c =
    if leb b'0' c && leb c b'9'
    then c - b'0'
    else if leb b'a' c && leb c b'f'
    then c - b'a' + 10
    else if leb b'A' c && leb c b'F'
    then c - b'A' + 10
    else 16

-- Up to `width` digits in the base: the value, how many there were, and the rest.
unfoldable pub scan_digits : ℕ → ℕ → ℕ → ℕ → Bytes → ℕ × ℕ × Bytes
scan_digits base zero value count s = (value, count, s)
scan_digits base (suc width) value count [] = (value, count, [])
scan_digits base (suc width) value count (c ∷ s) = elim (ltb (digit c) base) [
  | true ↦ scan_digits base width (value * base + digit c) (count + 1) s
  | false ↦ (value, count, c ∷ s)
]

-- `%3u`: a sign counts towards the width, and a negative number wraps.
unfoldable pub unsigned_of : Bool → ℕ × ℕ × Bytes → Option (ℕ × Bytes)
unsigned_of negative (value, zero, s) = none
unsigned_of negative (value, suc _, s) =
    some (if negative then (2 ^ 32 - value) % 2 ^ 32 else value, s)

unfoldable pub scan_3u : Bytes → Option (ℕ × Bytes)
unfolding unsigned_of scan_digits
scan_3u [] = none
scan_3u (c ∷ s) =
    if c == b'-'
    then unsigned_of true (scan_digits 10 2 0 0 s)
    else if c == b'+'
    then unsigned_of false (scan_digits 10 2 0 0 s)
    else unsigned_of false (scan_digits 10 3 0 0 (c ∷ s))

-- `n` numbers with commas between them; `none` if there are fewer.
unfoldable pub scan_numbers : ℕ → Bytes → Option (List ℕ)
unfolding scan_3u skip_spaces
scan_numbers zero s = some []
scan_numbers (suc n) s = elim (scan_3u (skip_spaces s)) [
  | none ↦ none
  | some (value, []) ↦ elim n [ zero ↦ some (value ∷ []) | suc _ ↦ none ]
  | some (value, c ∷ rest) ↦ elim n [
    | zero ↦ some (value ∷ [])
    | suc _ ↦
        if c == b','
        then elim (scan_numbers n rest) [ some vs ↦ some (value ∷ vs) | none ↦ none ]
        else none
  ]
]

abbrev pub long_long_max : ℕ
long_long_max = 9223372036854775807

unfoldable pub magnitude_in : ℕ → Bytes → Option ℕ
unfolding scan_digits
magnitude_in base s =
    let (value, count, rest) = scan_digits base 1024 0 0 s in
    if count == 0 then none else some (min value long_long_max)

-- `%i` reads a base from the front: 0x for 16, 0 for 8, and 10 otherwise.
unfoldable pub scan_magnitude : Bytes → Option ℕ
unfolding magnitude_in
scan_magnitude [] = none
scan_magnitude (c ∷ []) = magnitude_in 10 (c ∷ [])
scan_magnitude (c ∷ d ∷ s) =
    if c == b'0'
    then (if d == b'x' || d == b'X' then magnitude_in 16 s else magnitude_in 8 (c ∷ d ∷ s))
    else magnitude_in 10 (c ∷ d ∷ s)

abbrev pub negate : ℕ → Option ℕ
negate zero = some 0
negate (suc _) = none

-- `%lli`: `none` where no number stands, and `some none` where it is below 0.
unfoldable pub scan_signed : Bytes → Option (Option ℕ)
unfolding scan_magnitude
scan_signed [] = none
scan_signed (c ∷ s) =
    if c == b'-'
    then elim (scan_magnitude s) [ none ↦ none | some n ↦ some (negate n) ]
    else elim (scan_magnitude (if c == b'+' then s else c ∷ s)) [
      | none ↦ none
      | some n ↦ some (some n)
    ]

unfoldable pub scan_lli : Bytes → Option (Option ℕ)
unfolding scan_signed skip_spaces
scan_lli s = scan_signed (skip_spaces s)
