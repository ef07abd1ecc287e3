-- ===== src/Ftp/Numbers/Signed.antt =====
-- The restart positions that source/ftp.c prints are read back by its `sscanf` call.
use ftpii.Base.{
  ℕ, ◌+◌, ◌-◌, ◌≤◌, ◌<◌, ◌≡◌, refl, sym, ap, ◌∙◌, subst, inl, inr, false, [], ◌∷◌, arith, some,
  Bytes, ◌==◌, Bool-cases, decimal, digits_of, length, append-nil, min,
}
use ftpii.Ftp.Numbers.{
  scan_digits, skip_spaces, long_long_max, magnitude_in, scan_magnitude, scan_signed, scan_lli,
}
use ftpii.Ftp.Numbers.Decimals.{
  length-digits_of, scan-stop, scan-digits_of, Begins, digits_of-Begins, decimal-Begins,
  skip_spaces-decimal, decimal_some,
}

above : (a b : ℕ) → b < a → (a == b) ≡ false
above a b h = ground arith

magnitude_in-some :
    (s : Bytes) (value count : ℕ) (rest : Bytes)
    → scan_digits 10 1024 0 0 s ≡ (value, count, rest)
    → 0 < count
    → value ≤ long_long_max
    → magnitude_in 10 s ≡ some value
unfolding magnitude_in
magnitude_in-some s value count rest h k l =
    let counted : (count == 0) ≡ false = above count 0 k in
    let whole : min value long_long_max ≡ value = omega arith in
    rw (h, magnitude_in) (rw counted (ap some whole))

magnitude_in-decimal : (n : ℕ) → n ≤ long_long_max → magnitude_in 10 (decimal n) ≡ some n
unfolding decimal
magnitude_in-decimal n h =
    let l : length (decimal n) ≤ 19 = length-digits_of (n + 1) n 19 (omega arith) (omega arith) in
    let digits : scan_digits 10 1024 0 0 (decimal n) ≡ (n, length (decimal n), []) =
      subst
        (λ s.
          scan_digits 10 1024 0 0 s
          ≡ scan_digits 10 (1024 - length (decimal n)) n (length (decimal n)) [])
        (append-nil (decimal n))
        (scan-digits_of (n + 1) n 1024 (1024 - length (decimal n)) [] (omega arith)
          (omega (arith, l)))
      ∙ scan-stop (1024 - length (decimal n)) n (length (decimal n)) [] tt in
    magnitude_in-some (decimal n) n (length (decimal n)) [] digits (decimal_some n) h

-- A number with no 0 in front is read in base ten.
scan_magnitude-nonzero :
    (d : ℕ) (s : Bytes) → b'0' < d → scan_magnitude (d ∷ s) ≡ magnitude_in 10 (d ∷ s)
unfolding scan_magnitude
scan_magnitude-nonzero d [] h = refl
scan_magnitude-nonzero d (c ∷ s) h = let e : (d == b'0') ≡ false = ground arith in rw e refl

scan_signed-digit :
    (d : ℕ) (s : Bytes) (n : ℕ)
    → b'0' ≤ d
    → scan_magnitude (d ∷ s) ≡ some n
    → scan_signed (d ∷ s) ≡ some (some n)
unfolding scan_signed
scan_signed-digit d s n low h =
    let minus : (d == b'-') ≡ false = above d b'-' (omega arith) in
    let plus : (d == b'+') ≡ false = above d b'+' (omega arith) in rw (minus, plus, h) refl

scan_magnitude-decimal : (n : ℕ) → n ≤ long_long_max → scan_magnitude (decimal n) ≡ some n
unfolding scan_magnitude decimal digits_of
scan_magnitude-decimal n h = elim (Bool-cases (n == 0)) [
  | inl e ↦
      let z : n ≡ 0 = ground arith in
      subst (λ m. scan_magnitude (decimal m) ≡ some m) (sym z)
        (magnitude_in-decimal 0 (omega arith))
  | inr other ↦
      let b = digits_of-Begins (n + 1) n (omega arith) in
      let some_left : 0 < n = ground arith in
      subst (λ s. scan_magnitude s ≡ magnitude_in 10 s) (sym b.is_first)
        (scan_magnitude-nonzero b.first b.others (b.no_zero some_left))
      ∙ magnitude_in-decimal n h
]

-- The restart position of `ftp_REST` is read as it was printed, in its own reply or in that of `ftp_SIZE`, if it fits
-- a `long long`.
pub scan_lli-decimal : (n : ℕ) → n ≤ long_long_max → scan_lli (decimal n) ≡ some (some n)
unfolding scan_lli
scan_lli-decimal n h =
    let plain = append-nil (decimal n) in
    let skipped : skip_spaces (decimal n) ≡ decimal n =
      subst (λ s. skip_spaces s ≡ s) plain (skip_spaces-decimal n []) in
    let b = subst (Begins n) plain (decimal-Begins n []) in
    let read = subst (λ s. scan_magnitude s ≡ some n) b.is_first (scan_magnitude-decimal n h) in
    ap scan_signed (skipped ∙ b.is_first) ∙ scan_signed-digit b.first b.others n b.low read
