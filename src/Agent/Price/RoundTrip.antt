-- ===== src/Agent/Price/RoundTrip.antt =====
-- The two conversions of a price against each other.
use straitsx.Prelude.{
  ◌∙◌, ℕ, zero, suc, ◌+◌, ◌-◌, ◌*◌, ◌/◌, ◌%◌, ◌^◌, ◌<◌, ◌≤◌, ◌≡◌, refl, sym, ap, true, ◌&&◌, some,
  [], ◌∷◌, ◌++◌, length, length-append, take-append, take, leb, arith, step_of, ◌>>=◌,
}
use straitsx.Text.{Text, codes}
use straitsx.Text.BigInt.{is_digit, number_in, all_digits, is_uint}
use straitsx.Text.BigInt.Decimal.{
  to_decimal, to_decimal-is_uint, number_in-to_decimal, to_decimal-leading, shrink,
  length-to_decimal, number_in-zero,
}
use straitsx.Agent.Price.{
  is_whole, is_fraction, split_point, padded_fraction, base_units, dollars_to_base_units6, zeros,
  pad_start6, print_sgd, round_even, nearest_double, number_of, amount_of, exact_amount_sgd,
}

split_point-digits :
    (s t : Text) → all_digits s ≡ true → split_point (s ++ (b'.' ∷ t)) ≡ (s, some t)
unfolding split_point all_digits is_digit
split_point-digits [] t h = refl
split_point-digits (c ∷ s) t h = ground (arith, split_point-digits s t)

length-zeros : (k : ℕ) → length (zeros k) ≡ k
unfolding zeros
length-zeros zero = refl
length-zeros (suc k) = ap (λ n. suc n) (length-zeros k)

all_digits-zeros : (k : ℕ) (s : Text) → all_digits s ≡ true → all_digits (zeros k ++ s) ≡ true
unfolding zeros all_digits is_digit
all_digits-zeros zero s h = h
all_digits-zeros (suc k) s h = all_digits-zeros k s h

-- Zeros in front of digits do not change their value.
number_in-zeros : (k d : ℕ) (s : Text) → number_in 10 (zeros k ++ (d ∷ s)) ≡ number_in 10 (d ∷ s)
unfolding zeros
number_in-zeros zero d s = refl
number_in-zeros (suc zero) d s = number_in-zero d s
number_in-zeros (suc (suc k)) d s =
    number_in-zero b'0' (zeros k ++ (d ∷ s)) ∙ number_in-zeros (suc k) d s

uint-digits :
    (s : Text) → is_uint s ≡ true → (d : ℕ) × (t : Text) × (s ≡ d ∷ t) × (all_digits s ≡ true)
unfolding is_uint
uint-digits [] h = absurd (cc h)
uint-digits (c ∷ s) h = (c, s, refl, h)

-- The fraction that is printed has six digits, worth what was printed.
module _ (m : ℕ) (small : m < 1000000) where
  padded : Text
  padded = pad_start6 (to_decimal m)

  padded-length : length padded ≡ 6
  unfolding pad_start6 shrink padded
  padded-length = ground (
    arith,
    small,
    length-append (zeros (6 - length (to_decimal m))) (to_decimal m),
    length-zeros (6 - length (to_decimal m)),
    length-to_decimal 5 m (omega (arith, small)),
  )

  padded-digits : all_digits padded ≡ true
  unfolding pad_start6 padded
  padded-digits =
      let (d, t, e, digits) = uint-digits (to_decimal m) (to_decimal-is_uint m) in
      all_digits-zeros (6 - length (to_decimal m)) (to_decimal m) digits

  padded-value : number_in 10 padded ≡ some m
  unfolding pad_start6 padded
  padded-value =
      let (d, t, e, digits) = uint-digits (to_decimal m) (to_decimal-is_uint m) in
      let k = 6 - length (to_decimal m) in
      ap (λ s. number_in 10 (zeros k ++ s)) e
      ∙ number_in-zeros k d t
      ∙ ap (number_in 10) (sym e)
      ∙ number_in-to_decimal m

whole-is_whole : (n : ℕ) → 1 ≤ n → is_whole (to_decimal n) ≡ true
unfolding is_whole
whole-is_whole n h =
    let (d, s, e, first, rest) = to_decimal-leading n h in ap is_whole e ∙ leading d s first rest
  where
    leading :
        (d : ℕ) (s : Text)
        → leb b'1' d && leb d b'9' ≡ true
        → all_digits s ≡ true
        → is_whole (d ∷ s) ≡ true
    leading d s h k = ground arith

base_units-value :
    (whole frac : Text) (w f : ℕ)
    → is_whole whole ≡ true
    → is_fraction (some frac) ≡ true
    → number_in 10 whole ≡ some w
    → number_in 10 (padded_fraction (some frac)) ≡ some f
    → base_units (whole, some frac) ≡ some (to_decimal (w * 1000000 + f))
unfolding base_units
base_units-value whole frac w f a b c d = ground (arith, a, b, c, d)

six-is_fraction : (s : Text) → length s ≡ 6 → all_digits s ≡ true → is_fraction (some s) ≡ true
unfolding is_fraction
six-is_fraction s h k = ground arith

six-padded : (s : Text) → length s ≡ 6 → padded_fraction (some s) ≡ s
unfolding padded_fraction
six-padded s h = ap (λ k. take k (s ++ codes "000000")) (sym h) ∙ take-append s (codes "000000")

print_sgd-dollars :
    (n : ℕ) → 1000000 ≤ n → dollars_to_base_units6 (print_sgd n) ≡ some (to_decimal n)
unfolding dollars_to_base_units6 print_sgd padded
print_sgd-dollars n h =
    let m = n % 1000000 in
    let small : m < 1000000 = omega arith in
    let (d, t, e, digits) =
      uint-digits (to_decimal (n / 1000000)) (to_decimal-is_uint (n / 1000000)) in
    ap base_units (split_point-digits (to_decimal (n / 1000000)) (padded m small) digits)
    ∙ base_units-value (to_decimal (n / 1000000)) (padded m small) (n / 1000000) m
        (whole-is_whole (n / 1000000) (omega (arith, h)))
        (six-is_fraction (padded m small) (padded-length m small) (padded-digits m small))
        (number_in-to_decimal (n / 1000000))
        (ap (number_in 10) (six-padded (padded m small) (padded-length m small))
          ∙ padded-value m small)
    ∙ ap (λ k. some (to_decimal k)) (omega arith)

-- The double is within half of its last place, at most 2 units, of the amount, and between 5 and 30
-- dollars when the amount is.
module _ (n : ℕ) (low : 5000000 ≤ n) (high : n ≤ 30000000) where
  nearest_double-near :
      (nearest_double n 1000000 * 1000000 ≤ n * 2 ^ 50 + 2000000)
      × (n * 2 ^ 50 ≤ nearest_double n 1000000 * 1000000 + 2000000)
  unfolding nearest_double round_even
  nearest_double-near = ground arith

  nearest_double-bounds :
      (5 * 2 ^ 50 ≤ nearest_double n 1000000) × (nearest_double n 1000000 ≤ 30 * 2 ^ 50)
  unfolding nearest_double round_even
  nearest_double-bounds = ground arith

number_of-value :
    (whole frac : Text) (w f : ℕ)
    → all_digits whole ≡ true
    → length frac ≡ 6
    → number_in 10 whole ≡ some w
    → number_in 10 frac ≡ some f
    → number_of (whole ++ (b'.' ∷ frac)) ≡ some (nearest_double (w * 1000000 + f) 1000000)
unfolding number_of
number_of-value whole frac w f digits six a b =
    rw (split_point-digits whole frac digits, a, b, six) refl

number_of-print_sgd : (n : ℕ) → number_of (print_sgd n) ≡ some (nearest_double n 1000000)
unfolding print_sgd padded
number_of-print_sgd n =
    let m = n % 1000000 in
    let small : m < 1000000 = omega arith in
    let (d, t, e, digits) =
      uint-digits (to_decimal (n / 1000000)) (to_decimal-is_uint (n / 1000000)) in
    number_of-value (to_decimal (n / 1000000)) (padded m small) (n / 1000000) m digits
      (padded-length m small) (number_in-to_decimal (n / 1000000)) (padded-value m small)
    ∙ ap (λ k. some (nearest_double k 1000000)) (omega arith)

amount_of-units :
    (n amount : ℕ)
    → amount_of n ≡ some amount
    → (5000000 ≤ n) × (n ≤ 30000000) × (nearest_double n 1000000 ≡ amount)
unfolding amount_of
amount_of-units n amount h =
    let printed = number_of-print_sgd n in
    let low : 5000000 ≤ n = ground (arith, h) in
    let high : n ≤ 30000000 = ground (arith, h) in (low, high, ground (arith, h, printed))

-- A price that exactAmountSgd accepts is a number of base units from 5 to 30 SGD. The text that it
-- builds is read back by dollarsToBaseUnits6 as that number, and the double that Number makes of the
-- text is from 5 to 30 dollars and within 2 * 2^-50 dollars of the amount, so that rounding it to
-- millionths gives the number of units again: no two prices share a double.
pub exact_amount_sgd-dollars :
    (price : Text) (amount : ℕ)
    → exact_amount_sgd price ≡ some amount
    → (n : ℕ) × (number_in 10 price ≡ some n)
      × (5000000 ≤ n)
      × (n ≤ 30000000)
      × (dollars_to_base_units6 (print_sgd n) ≡ some (to_decimal n))
      × (5 * 2 ^ 50 ≤ amount)
      × (amount ≤ 30 * 2 ^ 50)
      × (amount * 1000000 ≤ n * 2 ^ 50 + 2000000)
      × (n * 2 ^ 50 ≤ amount * 1000000 + 2000000)
      × ((amount * 1000000 + 2 ^ 49) / 2 ^ 50 ≡ n)
unfolding exact_amount_sgd
exact_amount_sgd-dollars price amount h =
    let given : (number_in 10 price >>= amount_of) ≡ some amount = ground (arith, h) in
    let (n, e, ranged) = step_of (number_in 10 price) amount_of amount given in
    let (low, high, same_double) = amount_of-units n amount ranged in
    let (above, below) = nearest_double-near n low high in
    let (least, most) = nearest_double-bounds n low high in
    (
      n,
      e,
      low,
      high,
      print_sgd-dollars n (omega (arith, low)),
      omega (arith, least, same_double),
      omega (arith, most, same_double),
      omega (arith, above, same_double),
      omega (arith, below, same_double),
      omega (arith, above, below, same_double),
    )
