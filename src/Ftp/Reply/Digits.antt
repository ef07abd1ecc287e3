-- ===== src/Ftp/Reply/Digits.antt =====
-- How many digits `decimal` prints.
use ftpii.Base.{
  Bool-cases, inl, inr, ℕ, suc, ◌+◌, ◌-◌, ◌/◌, ◌%◌, ◌≤◌, ◌<◌, ◌≡◌, refl, ap, ◌∙◌, true, false, [],
  ◌∷◌, ◌++◌, arith, decimal, digits_of, length, length-append, ltb,
}

pub last_digit : (fuel n : ℕ) → n < 10 → digits_of (suc fuel) n ≡ (b'0' + n) ∷ []
unfolding digits_of
last_digit fuel n h = let e : ltb n 10 ≡ true = ground arith in rw (digits_of, e) refl

pub digit_more :
    (fuel n : ℕ) → 10 ≤ n → digits_of (suc fuel) n ≡ digits_of fuel (n / 10) ++ (b'0' + n % 10) ∷ []
unfolding digits_of
digit_more fuel n h = let e : ltb n 10 ≡ false = ground arith in rw (digits_of, e) refl

pub length-digit_more :
    (fuel n : ℕ) → 10 ≤ n → length (digits_of (suc fuel) n) ≡ length (digits_of fuel (n / 10)) + 1
length-digit_more fuel n h =
    ap length (digit_more fuel n h) ∙ length-append (digits_of fuel (n / 10)) ((b'0' + n % 10) ∷ [])

three_digits : (fuel n : ℕ) → 100 ≤ n → n < 1000 → length (digits_of (suc (suc (suc fuel))) n) ≡ 3
three_digits fuel n h k = omega (
  arith,
  length-digit_more (suc (suc fuel)) n (omega arith),
  length-digit_more (suc fuel) (n / 10) (omega arith),
  ap length (last_digit fuel (n / 10 / 10) (omega arith)),
)

pub length-decimal : (n : ℕ) → 100 ≤ n → n < 1000 → length (decimal n) ≡ 3
unfolding decimal
length-decimal n h k =
    let e : n + 1 ≡ suc (suc (suc (n - 2))) = omega arith in rw e (three_digits (n - 2) n h k)

two_digits : (fuel n : ℕ) → 10 ≤ n → n < 100 → length (digits_of (suc (suc fuel)) n) ≡ 2
two_digits fuel n h k =
    omega
      (arith, length-digit_more (suc fuel) n h, ap length (last_digit fuel (n / 10) (omega arith)))

decimal_one : (n : ℕ) → n < 10 → length (decimal n) ≡ 1
unfolding decimal
decimal_one n h = let e : n + 1 ≡ suc n = omega arith in rw e (ap length (last_digit n n h))

decimal_two : (n : ℕ) → 10 ≤ n → n < 100 → length (decimal n) ≡ 2
unfolding decimal
decimal_two n h k =
    let e : n + 1 ≡ suc (suc (n - 1)) = omega arith in rw e (two_digits (n - 1) n h k)

pub length-decimal-le : (n : ℕ) → n < 1000 → length (decimal n) ≤ 3
length-decimal-le n h = elim (Bool-cases (ltb n 10)) [
  | inl small ↦ omega (arith, decimal_one n (ground arith))
  | inr big ↦ elim (Bool-cases (ltb n 100)) [
    | inl small ↦ omega (arith, decimal_two n (ground arith) (ground arith))
    | inr big' ↦ omega (arith, length-decimal n (ground arith) h)
  ]
]
