-- ===== src/Agent/Price.antt =====
-- services/agent-orchestrator: dollarsToBaseUnits6 of src/discovery/discover.ts and exactAmountSgd of
-- src/run/pipeline.ts. BigInt of a string of digits is its value to base ten, as Text.BigInt.Uint
-- shows. A number of dollars from 4 to 32 is a double, which is a multiple of 2^-50: it is kept in
-- units of 2^-50 dollars.
pub mod RoundTrip
use straitsx.Prelude.{
  ℕ, zero, suc, ◌+◌, ◌-◌, ◌*◌, ◌/◌, ◌%◌, ◌^◌, Bool, true, false, ◌&&◌, ◌||◌, Option, none, some, [],
  ◌∷◌, ◌++◌, length, take, leb, ltb, ◌==◌, if◌then◌else◌, ◌>>=◌,
}
use straitsx.Text.{Text, codes}
use straitsx.Text.BigInt.{number_in, all_digits, is_uint}
use straitsx.Text.BigInt.Decimal.{to_decimal}

abbrev pub units_per_dollar : ℕ
units_per_dollar = 1000000

abbrev pub min_base_units : ℕ
min_base_units = 5000000

abbrev pub max_base_units : ℕ
max_base_units = 30000000

-- (0|[1-9]\d*)
unfoldable pub is_whole : Text → Bool
is_whole [] = false
is_whole (c ∷ s) =
    if c == b'0'
    then (elim s [ [] ↦ true | d ∷ t ↦ false ])
    else leb b'1' c && leb c b'9' && all_digits s

-- (\.\d{1,6})?
unfoldable pub is_fraction : Option Text → Bool
is_fraction none = true
is_fraction (some s) = leb 1 (length s) && leb (length s) 6 && all_digits s

-- s.split("."), for a string with one point at most
unfoldable pub split_point : Text → Text × Option Text
split_point [] = ([], none)
split_point (c ∷ s) =
    let rest = split_point s in if c == b'.' then ([], some s) else (c ∷ rest.0, rest.1)

-- (frac + "000000").slice(0, 6)
unfoldable pub padded_fraction : Option Text → Text
padded_fraction none = codes "000000"
padded_fraction (some frac) = take 6 (frac ++ codes "000000")

unfoldable pub base_units : Text × Option Text → Option Text
unfolding is_whole is_fraction padded_fraction
base_units (whole, frac) =
    if is_whole whole && is_fraction frac
    then (do
      w ← number_in 10 whole
      f ← number_in 10 (padded_fraction frac)
      some (to_decimal (w * units_per_dollar + f)))
    else none

-- dollarsToBaseUnits6
unfoldable pub dollars_to_base_units6 : Text → Option Text
unfolding base_units split_point
dollars_to_base_units6 price_dollars = base_units (split_point price_dollars)

unfoldable pub zeros : ℕ → Text
zeros zero = []
zeros (suc n) = b'0' ∷ zeros n

-- s.padStart(6, "0")
unfoldable pub pad_start6 : Text → Text
unfolding zeros
pad_start6 s = zeros (6 - length s) ++ s

-- `${whole}.${fraction}`
unfoldable pub print_sgd : ℕ → Text
unfolding pad_start6
print_sgd units =
    to_decimal (units / units_per_dollar)
    ++ (b'.' ∷ pad_start6 (to_decimal (units % units_per_dollar)))

-- n / d to the nearest whole number, the even one of two that are as near
unfoldable pub round_even : ℕ → ℕ → ℕ
round_even n d =
    let q = n / d in
    if ltb (2 * (n % d)) d
    then q
    else if ltb d (2 * (n % d))
    then q + 1
    else if q % 2 == 0
    then q
    else q + 1

-- The double nearest to n / d, which is from 4 to 32: a double has 53 bits, so below 8 it is a
-- multiple of 2^-50, below 16 of 2^-49 and below 32 of 2^-48.
unfoldable pub nearest_double : ℕ → ℕ → ℕ
unfolding round_even
nearest_double n d =
    if ltb n (8 * d)
    then round_even (n * 2 ^ 50) d
    else if ltb n (16 * d)
    then 2 * round_even (n * 2 ^ 49) d
    else 4 * round_even (n * 2 ^ 48) d

-- Number(s) where s is digits, a point and digits
unfoldable pub number_of : Text → Option ℕ
unfolding split_point nearest_double
number_of s = do
  w ← number_in 10 (split_point s).0
  frac ← (split_point s).1
  f ← number_in 10 frac
  some (nearest_double (w * 10 ^ length frac + f) (10 ^ length frac))

-- exactAmountSgd, from the units on
unfoldable pub amount_of : ℕ → Option ℕ
unfolding print_sgd number_of
amount_of units =
    if ltb units min_base_units || ltb max_base_units units
    then none
    else number_of (print_sgd units)

-- exactAmountSgd
unfoldable pub exact_amount_sgd : Text → Option ℕ
unfolding amount_of
exact_amount_sgd price = if is_uint price then number_in 10 price >>= amount_of else none
