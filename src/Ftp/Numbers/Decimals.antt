-- ===== src/Ftp/Numbers/Decimals.antt =====
-- The digits of a number under the `sscanf` of source/ftp.c.
use ftpii.Base.{
  ℕ, zero, suc, ◌+◌, ◌*◌, ◌/◌, ◌%◌, ◌≤◌, ◌<◌, ◌≡◌, refl, sym, ap, ◌∙◌, subst, inl, inr, true, false,
  [], ◌∷◌, ◌++◌, arith, Bytes, ltb, Bool-cases, decimal, digits_of, length, append_assoc, ◌^◌,
}
use native.Mathlib.Numerals.{unary_clauses}
use ftpii.Ftp.Reply.Digits.{last_digit, digit_more, length-digit_more}
use ftpii.Ftp.Numbers.{digit, scan_digits, is_space, skip_spaces}

-- A number ends here.
abbrev pub NoDigit : Bytes → Type 0
NoDigit [] = Unit
NoDigit (c ∷ s) = ltb (digit c) 10 ≡ false

pub scan-stop :
    (width value count : ℕ) (s : Bytes)
    → NoDigit s
    → scan_digits 10 width value count s ≡ (value, count, s)
unfolding scan_digits
scan-stop zero value count s h = refl
scan-stop (suc width) value count [] h = refl
scan-stop (suc width) value count (c ∷ s) h = rw (h, scan_digits) refl

scan-digit :
    (width value count d : ℕ) (s : Bytes)
    → ltb (digit d) 10 ≡ true
    → scan_digits 10 (suc width) value count (d ∷ s)
      ≡ scan_digits 10 width (value * 10 + digit d) (count + 1) s
unfolding scan_digits
scan-digit width value count d s h = rw (h, scan_digits) refl

digit_value : (d : ℕ) → d < 10 → digit (b'0' + d) ≡ d
digit_value d h = ground arith

-- A digit of a number, in any of the forms in which the counts come.
scan_one :
    (w width value v count n d : ℕ) (s : Bytes)
    → d < 10
    → w ≡ suc width
    → v ≡ value * 10 + d
    → n ≡ count + 1
    → scan_digits 10 w value count ((b'0' + d) ∷ s) ≡ scan_digits 10 width v n s
scan_one w width value v count n d s h ew ev en =
    let e = digit_value d h in
    let k : ltb (digit (b'0' + d)) 10 ≡ true = ground (arith, e) in
    rw (ew, ev, en) (rw e at (scan-digit width value count (b'0' + d) s k))

pub scan-digits_of :
    (fuel n w width : ℕ) (rest : Bytes)
    → n < fuel
    → w ≡ length (digits_of fuel n) + width
    → scan_digits 10 w 0 0 (digits_of fuel n ++ rest)
      ≡ scan_digits 10 width n (length (digits_of fuel n)) rest
scan-digits_of zero n w width rest h e = absurd (omega arith)
scan-digits_of (suc fuel) n w width rest h e = elim (Bool-cases (ltb n 10)) [
  | inl small ↦
      let k : n < 10 = ground arith in
      let l = last_digit fuel n k in
      let ew : w ≡ suc width = omega (arith, e, ap length l) in
      rw l (scan_one w width 0 n 0 1 n rest k ew (omega arith) (omega arith))
  | inr big ↦
      let k : 10 ≤ n = ground arith in
      let ds = digits_of fuel (n / 10) in
      let l : length (digits_of (suc fuel) n) ≡ length ds + 1 = length-digit_more fuel n k in
      let ih =
        scan-digits_of fuel (n / 10) w (suc width) ((b'0' + n % 10) ∷ rest) (omega arith)
          (omega (arith, e, l)) in
      let one =
        scan_one (suc width) width (n / 10) n (length ds) (length (digits_of (suc fuel) n)) (n % 10)
          rest (omega arith) refl (omega arith) l in
      subst
        (λ t.
          scan_digits 10 w 0 0 (t ++ rest)
          ≡ scan_digits 10 width n (length (digits_of (suc fuel) n)) rest)
        (sym (digit_more fuel n k))
        (ap (scan_digits 10 w 0 0) (append_assoc ds ((b'0' + n % 10) ∷ []) rest) ∙ ih ∙ one)
]

-- The digits begin with one, and it is no 0 unless the number is 0.
pub record Begins (n : ℕ) (s : Bytes) : Type 0 where
  pub first : ℕ
  pub others : Bytes
  pub is_first : s ≡ first ∷ others
  pub low : b'0' ≤ first
  pub high : first ≤ b'9'
  pub no_zero : 0 < n → b'0' < first

Begins-append :
    {n : ℕ} {s : Bytes} (m : ℕ) (t : Bytes) → (0 < m → 0 < n) → Begins n s → Begins m (s ++ t)
Begins-append m t h b = record {
  first = b.first;
  others = b.others ++ t;
  is_first = ap (λ x. x ++ t) b.is_first;
  low = b.low;
  high = b.high;
  no_zero = λ k. b.no_zero (h k);
}

pub digits_of-Begins : (fuel n : ℕ) → n < fuel → Begins n (digits_of fuel n)
digits_of-Begins zero n h = absurd (omega arith)
digits_of-Begins (suc fuel) n h = elim (Bool-cases (ltb n 10)) [
  | inl small ↦
      let k : n < 10 = ground arith in
      record {
        first = b'0' + n;
        others = [];
        is_first = last_digit fuel n k;
        low = omega arith;
        high = omega arith;
        no_zero = λ p. omega arith;
      }
  | inr big ↦
      let k : 10 ≤ n = ground arith in
      subst (Begins n) (sym (digit_more fuel n k)) (
        Begins-append n ((b'0' + n % 10) ∷ []) (λ p. omega arith)
          (digits_of-Begins fuel (n / 10) (omega arith)))
]

pub decimal-Begins : (n : ℕ) (rest : Bytes) → Begins n (decimal n ++ rest)
unfolding decimal
decimal-Begins n rest = Begins-append n rest (λ p. p) (digits_of-Begins (n + 1) n (omega arith))

pub skip_spaces-decimal :
    (n : ℕ) (rest : Bytes) → skip_spaces (decimal n ++ rest) ≡ decimal n ++ rest
unfolding skip_spaces
skip_spaces-decimal n rest =
    let b = decimal-Begins n rest in
    let d = b.first in
    let low = b.low in
    let e : is_space d ≡ false = ground (arith, low) in
    subst (λ s. skip_spaces s ≡ s) (sym b.is_first) (rw (e, skip_spaces) refl)

pub decimal_some : (n : ℕ) → 0 < length (decimal n)
unfolding decimal
decimal_some n =
    let b = digits_of-Begins (n + 1) n (omega arith) in omega (arith, ap length b.is_first)

pow_ten : (k : ℕ) → 10 ^ suc k ≡ 10 * 10 ^ k
pow_ten k = simp unary_clauses (omega arith)

pub length-digits_of : (fuel n k : ℕ) → 0 < k → n < 10 ^ k → length (digits_of fuel n) ≤ k
unfolding digits_of
length-digits_of zero n k p h = omega arith
length-digits_of (suc fuel) n zero p h = absurd (omega arith)
length-digits_of (suc fuel) n (suc k) p h = elim (Bool-cases (ltb n 10)) [
  | inl small ↦ let e : n < 10 = ground arith in omega (arith, ap length (last_digit fuel n e))
  | inr big ↦
      let e : 10 ≤ n = ground arith in
      let q = pow_ten k in
      let some_left : 0 < k = positive k n e h in
      let ih = length-digits_of fuel (n / 10) k some_left (omega (arith, q)) in
      omega (arith, length-digit_more fuel n e, ih)
]
  where
    positive : (j m : ℕ) → 10 ≤ m → m < 10 ^ suc j → 0 < j
    positive zero m e h = absurd (omega arith)
    positive (suc j) m e h = omega arith
