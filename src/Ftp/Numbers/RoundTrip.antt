-- ===== src/Ftp/Numbers/RoundTrip.antt =====
-- The numbers with commas that source/ftp.c prints are read back by its `sscanf` call.
use ftpii.Base.{
  ℕ, zero, suc, ◌+◌, ◌-◌, ◌≤◌, ◌<◌, ◌≡◌, refl, sym, ap, ◌∙◌, subst, false, List, [], ◌∷◌, ◌++◌,
  arith, some, Bytes, ◌==◌, decimal, length, append_assoc, All,
}
use ftpii.Ftp.Reply.Digits.{length-decimal-le}
use ftpii.Ftp.Numbers.{scan_digits, skip_spaces, scan_3u, scan_numbers, unsigned_of}
use ftpii.Ftp.Numbers.Decimals.{
  NoDigit, scan-stop, scan-digits_of, decimal-Begins, skip_spaces-decimal, decimal_some,
}

scan_3u-digit :
    (d : ℕ) (s : Bytes)
    → b'0' ≤ d
    → scan_3u (d ∷ s) ≡ unsigned_of false (scan_digits 10 3 0 0 (d ∷ s))
unfolding scan_3u
scan_3u-digit d s low =
    let minus : (d == b'-') ≡ false = ground arith in
    let plus : (d == b'+') ≡ false = ground arith in rw (minus, plus) refl

unsigned_of-some :
    (value count : ℕ) (s : Bytes)
    → 0 < count
    → unsigned_of false (value, count, s) ≡ some (value, s)
unfolding unsigned_of
unsigned_of-some value zero s h = absurd (omega arith)
unsigned_of-some value (suc count) s h = refl

scan_3u-decimal :
    (n : ℕ) (rest : Bytes) → n < 1000 → NoDigit rest → scan_3u (decimal n ++ rest) ≡ some (n, rest)
unfolding decimal
scan_3u-decimal n rest h stop =
    let b = decimal-Begins n rest in
    let l = length-decimal-le n h in
    let digits : scan_digits 10 3 0 0 (decimal n ++ rest) ≡ (n, length (decimal n), rest) =
      scan-digits_of (n + 1) n 3 (3 - length (decimal n)) rest (omega arith) (omega (arith, l))
      ∙ scan-stop (3 - length (decimal n)) n (length (decimal n)) rest stop in
    let head : scan_3u (decimal n ++ rest)
        ≡ unsigned_of false (scan_digits 10 3 0 0 (decimal n ++ rest)) =
      subst (λ s. scan_3u s ≡ unsigned_of false (scan_digits 10 3 0 0 s)) (sym b.is_first)
        (scan_3u-digit b.first b.others b.low) in
    head
    ∙ ap (unsigned_of false) digits
    ∙ unsigned_of-some n (length (decimal n)) rest (decimal_some n)

-- The numbers with commas between them.
abbrev pub listed : ℕ → List ℕ → Bytes
listed n [] = decimal n
listed n (m ∷ ms) = decimal n ++ (b',' ∷ listed m ms)

abbrev IsSmall : ℕ → Type 0
IsSmall n = n < 1000

-- What `%3u` reads of a number, the spaces in front of it skipped.
scan-decimal :
    (n : ℕ) (rest : Bytes)
    → n < 1000
    → NoDigit rest
    → scan_3u (skip_spaces (decimal n ++ rest)) ≡ some (n, rest)
scan-decimal n rest h stop = ap scan_3u (skip_spaces-decimal n rest) ∙ scan_3u-decimal n rest h stop

scan_last :
    (s : Bytes) (n : ℕ) (rest : Bytes)
    → scan_3u (skip_spaces s) ≡ some (n, rest)
    → scan_numbers 1 s ≡ some (n ∷ [])
unfolding scan_numbers
scan_last s n [] h = rw (h, scan_numbers) refl
scan_last s n (c ∷ t) h = rw (h, scan_numbers) refl

scan_more :
    (s : Bytes) (n k : ℕ) (rest : Bytes) (vs : List ℕ)
    → scan_3u (skip_spaces s) ≡ some (n, b',' ∷ rest)
    → scan_numbers (suc k) rest ≡ some vs
    → scan_numbers (suc (suc k)) s ≡ some (n ∷ vs)
unfolding scan_numbers
scan_more s n k rest vs h e = rw (h, scan_numbers) (rw e refl)

-- What stands behind the last number does not matter, unless it is a digit.
pub scan_numbers-listed :
    (n : ℕ) (ns : List ℕ) (rest : Bytes)
    → All IsSmall (n ∷ ns)
    → NoDigit rest
    → scan_numbers (length (n ∷ ns)) (listed n ns ++ rest) ≡ some (n ∷ ns)
scan_numbers-listed n [] rest h stop =
    scan_last (decimal n ++ rest) n rest (scan-decimal n rest h.0 stop)
scan_numbers-listed n (m ∷ ms) rest h stop =
    rw (append_assoc (decimal n) (b',' ∷ listed m ms) rest) (
      scan_more (decimal n ++ (b',' ∷ (listed m ms ++ rest))) n (length ms) (listed m ms ++ rest)
        (m ∷ ms) (scan-decimal n (b',' ∷ (listed m ms ++ rest)) h.0 refl)
        (scan_numbers-listed m ms rest h.1 stop))
