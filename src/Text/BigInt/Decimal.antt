-- ===== src/Text/BigInt/Decimal.antt =====
-- String(n), and its reading back.
use straitsx.Prelude.{
  ◌&&◌, leb, ℕ, ◌≤◌, length, zero, suc, ◌+◌, ◌*◌, ◌/◌, ◌%◌, ◌<◌, ◌≡◌, refl, true, some, [], ◌∷◌,
  arith, ltb, if◌then◌else◌, Bool-cases, inl, inr,
}
use straitsx.Text.{Text}
use straitsx.Text.BigInt.{is_digit, digit_value, value_from, number_in, all_digits, is_uint}

-- The digits of n before the text; as much fuel as n + 1 is enough.
decimal_from : ℕ → ℕ → Text → Text
decimal_from zero n acc = acc
decimal_from (suc fuel) n acc =
    let digit = b'0' + n % 10 in
    let rest = decimal_from fuel (n / 10) (digit ∷ acc) in if ltb n 10 then digit ∷ acc else rest

-- String(n)
unfoldable pub to_decimal : ℕ → Text
unfolding decimal_from
to_decimal n = decimal_from (suc n) n []

value_from-digit :
    (n acc : ℕ) (s : Text)
    → value_from 10 acc ((b'0' + n % 10) ∷ s) ≡ value_from 10 (acc * 10 + n % 10) s
unfolding value_from digit_value is_digit
value_from-digit n acc s = ground arith

-- The digits that are put before a text are worth n in front of it.
value_from-decimal :
    (fuel n : ℕ) (acc : Text)
    → n < fuel
    → value_from 10 0 (decimal_from fuel n acc) ≡ value_from 10 n acc
unfolding decimal_from
value_from-decimal zero n acc h = absurd (omega arith)
value_from-decimal (suc fuel) n acc h = ground (
  arith,
  value_from-digit n 0 acc,
  value_from-digit n (n / 10) acc,
  value_from-decimal fuel (n / 10) ((b'0' + n % 10) ∷ acc),
)

all_digits-decimal :
    (fuel n : ℕ) (acc : Text) → all_digits acc ≡ true → all_digits (decimal_from fuel n acc) ≡ true
unfolding decimal_from all_digits is_digit
all_digits-decimal zero n acc h = h
all_digits-decimal (suc fuel) n acc h =
    ground (arith, all_digits-decimal fuel (n / 10) ((b'0' + n % 10) ∷ acc))

decimal-nonempty :
    (fuel n : ℕ) (c : ℕ) (acc : Text)
    → (d : ℕ) × (s : Text) × (decimal_from fuel n (c ∷ acc) ≡ d ∷ s)
unfolding decimal_from
decimal-nonempty zero n c acc = (c, acc, refl)
decimal-nonempty (suc fuel) n c acc = elim (Bool-cases (ltb n 10)) [
  | inl small ↦ (b'0' + n % 10, c ∷ acc, rw small)
  | inr large ↦
      let (d, s, e) = decimal-nonempty fuel (n / 10) (b'0' + n % 10) (c ∷ acc) in (d, s, rw large e)
]

to_decimal-nonempty : (n : ℕ) → (d : ℕ) × (s : Text) × (to_decimal n ≡ d ∷ s)
unfolding to_decimal decimal_from
to_decimal-nonempty n = elim (Bool-cases (ltb n 10)) [
  | inl small ↦ (b'0' + n % 10, [], rw small)
  | inr large ↦ let (d, s, e) = decimal-nonempty n (n / 10) (b'0' + n % 10) [] in (d, s, rw large e)
]

-- A number is printed as digits.
pub to_decimal-is_uint : (n : ℕ) → is_uint (to_decimal n) ≡ true
unfolding is_uint to_decimal all_digits
to_decimal-is_uint n =
    let (d, s, e) = to_decimal-nonempty n in
    let digits = all_digits-decimal (suc n) n [] refl in ground (arith, e, digits)

-- The digits of a number read back as the number.
pub number_in-to_decimal : (n : ℕ) → number_in 10 (to_decimal n) ≡ some n
unfolding number_in to_decimal value_from
number_in-to_decimal n =
    let (d, s, e) = to_decimal-nonempty n in
    let value = value_from-decimal (suc n) n [] (omega arith) in ground (arith, e, value)

decimal-leading :
    (fuel n : ℕ) (acc : Text)
    → n < fuel
    → 1 ≤ n
    → all_digits acc ≡ true
    → (d : ℕ) × (s : Text) × (decimal_from fuel n acc ≡ d ∷ s)
      × (leb b'1' d && leb d b'9' ≡ true)
      × (all_digits s ≡ true)
unfolding decimal_from all_digits is_digit
decimal-leading zero n acc h k digits = absurd (omega arith)
decimal-leading (suc fuel) n acc h k digits = elim (Bool-cases (ltb n 10)) [
  | inl small ↦ (b'0' + n % 10, acc, rw small, ground (arith, small, k), digits)
  | inr large ↦
      let (d, s, e, first, rest) =
        decimal-leading fuel (n / 10) ((b'0' + n % 10) ∷ acc) (ground (arith, h, large, k))
          (ground (arith, large)) (ground (arith, digits)) in
      (d, s, rw large e, first, rest)
]

-- A positive number is printed without a leading zero.
pub to_decimal-leading :
    (n : ℕ)
    → 1 ≤ n
    → (d : ℕ) × (s : Text) × (to_decimal n ≡ d ∷ s)
      × (leb b'1' d && leb d b'9' ≡ true)
      × (all_digits s ≡ true)
unfolding to_decimal all_digits
to_decimal-leading n h = decimal-leading (suc n) n [] (omega arith) h refl

-- n without its last k digits.
unfoldable pub shrink : ℕ → ℕ → ℕ
shrink zero n = n
shrink (suc k) n = shrink k (n / 10)

decimal-length :
    (fuel k n : ℕ) (acc : Text)
    → shrink (suc k) n ≡ 0
    → length (decimal_from fuel n acc) ≤ suc k + length acc
unfolding decimal_from shrink
decimal-length zero k n acc h = omega arith
decimal-length (suc fuel) zero n acc h = ground arith
decimal-length (suc fuel) (suc k) n acc h = elim (Bool-cases (ltb n 10)) [
  | inl small ↦ ground (arith, small)
  | inr large ↦
      let more = decimal-length fuel k (n / 10) ((b'0' + n % 10) ∷ acc) h in
      ground (arith, large, more)
]

-- A number of at most k + 1 digits is printed in as many.
pub length-to_decimal : (k n : ℕ) → shrink (suc k) n ≡ 0 → length (to_decimal n) ≤ suc k
unfolding to_decimal
length-to_decimal k n h = ground (arith, decimal-length (suc n) k n [] h)

value_from-zero : (s : Text) → value_from 10 0 (b'0' ∷ s) ≡ value_from 10 0 s
unfolding value_from digit_value is_digit
value_from-zero s = ground arith

-- A zero in front of digits changes nothing.
pub number_in-zero : (d : ℕ) (s : Text) → number_in 10 (b'0' ∷ d ∷ s) ≡ number_in 10 (d ∷ s)
unfolding number_in
number_in-zero d s = value_from-zero (d ∷ s)
