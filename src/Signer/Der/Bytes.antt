-- ===== src/Signer/Der/Bytes.antt =====
-- The content bytes of an INTEGER: what they are worth, how many they are, and their first one.
use native.Mathlib.Nat.{pow-suc}
use straitsx.Prelude.{
  ℕ, zero, suc, ◌+◌, ◌*◌, ◌/◌, ◌%◌, ◌^◌, ◌≤◌, ◌<◌, ◌≡◌, refl, sym, ◌∙◌, ap, List, [], ◌∷◌, arith,
  ◌==◌, length, Bool-cases, inl, inr, ◌≢◌,
}
use straitsx.Text.BigInt.Hexadecimal.{value16_from}
use straitsx.Signer.Der.{nibbles, pad_even, pair_up, positive, to_der_integer, value_from}

pub value-nibbles :
    (f n : ℕ) (digits : List ℕ)
    → n < f
    → value16_from 0 (nibbles f n digits) ≡ value16_from n digits
unfolding nibbles
value-nibbles zero n digits h = elim h [ ]
value-nibbles (suc f) n digits h = elim (Bool-cases (n == 0)) [
  | inl done ↦ rw done (ap (λ x. value16_from x digits) (ground arith))
  | inr more ↦ rw more (
      value-nibbles f (n / 16) ((n % 16) ∷ digits) (ground arith)
      ∙ ap (λ x. value16_from x digits) (omega arith))
]

pub length-nibbles :
    (f n k : ℕ) (digits : List ℕ) → n < 16 ^ k → length (nibbles f n digits) ≤ k + length digits
unfolding nibbles
length-nibbles zero n k digits h = omega arith
length-nibbles (suc f) n zero digits h = elim (Bool-cases (n == 0)) [
  | inl done ↦ rw done (omega arith)
  | inr more ↦ absurd (ground arith)
]
length-nibbles (suc f) n (suc k) digits h = elim (Bool-cases (n == 0)) [
  | inl done ↦ rw done (omega arith)
  | inr more ↦ rw more (
      omega
        (arith, length-nibbles f (n / 16) k ((n % 16) ∷ digits) (omega (arith, pow-suc 16 k, h))))
]

value-pad_even : (digits : List ℕ) → value16_from 0 (pad_even digits) ≡ value16_from 0 digits
unfolding pad_even
value-pad_even digits = elim (Bool-cases (length digits % 2 == 0)) [
  | inl even ↦ rw even
  | inr odd ↦ rw odd
]

length-pad_even :
    (digits : List ℕ)
    → (length (pad_even digits) % 2 ≡ 0)
      × (length (pad_even digits) ≤ length digits + length digits % 2)
unfolding pad_even
length-pad_even digits = elim (Bool-cases (length digits % 2 == 0)) [
  | inl even ↦ rw even (ground arith)
  | inr odd ↦ rw odd (ground arith)
]

value-pair_up :
    (acc : ℕ) (digits : List ℕ)
    → length digits % 2 ≡ 0
    → value_from acc (pair_up digits) ≡ value16_from acc digits
unfolding pair_up
value-pair_up acc [] h = refl
value-pair_up acc (d ∷ []) h = absurd (omega arith)
value-pair_up acc (d ∷ e ∷ digits) h =
    value-pair_up (acc * 256 + (d * 16 + e)) digits (omega arith)
    ∙ ap (λ x. value16_from x digits) (omega arith)

length-pair_up :
    (digits : List ℕ) → length digits % 2 ≡ 0 → length (pair_up digits) * 2 ≡ length digits
unfolding pair_up
length-pair_up [] h = refl
length-pair_up (d ∷ []) h = absurd (omega arith)
length-pair_up (d ∷ e ∷ digits) h = omega (arith, length-pair_up digits (omega arith))

abbrev IsPositive : List ℕ → Type 0
IsPositive [] = ⊥
IsPositive (b ∷ bytes) = b < 0x80

pub record IsContent (n : ℕ) (bytes : List ℕ) : Type 0 where
  pub value : value_from 0 bytes ≡ n
  pub short : length bytes ≤ 33
  pub head : IsPositive bytes

positive-IsContent :
    (n : ℕ) (bytes : List ℕ)
    → n ≢ 0
    → value_from 0 bytes ≡ n
    → length bytes ≤ 32
    → IsContent n (positive bytes)
unfolding positive
positive-IsContent n [] h v l = absurd (h (sym v))
positive-IsContent n (b ∷ bytes) h v l = ground arith

digits-IsContent :
    (n : ℕ)
    → n ≢ 0
    → n < 2 ^ 256
    → IsContent n (positive (pair_up (pad_even (nibbles (suc n) n []))))
digits-IsContent n pos h =
    let digits : List ℕ = nibbles (suc n) n [] in
    let even = length-pad_even digits in
    let few = length-nibbles (suc n) n 64 [] (omega arith) in
    let paired = length-pair_up (pad_even digits) even.0 in
    positive-IsContent n (pair_up (pad_even digits)) pos
      (value-pair_up 0 (pad_even digits) even.0
        ∙ value-pad_even digits
        ∙ value-nibbles (suc n) n [] (omega arith))
      (omega arith)

-- A number below 2^256 is encoded in at most 33 bytes, the first below 0x80, worth that number.
pub to_der_integer-IsContent : (n : ℕ) → n < 2 ^ 256 → IsContent n (to_der_integer n)
unfolding to_der_integer
to_der_integer-IsContent n h = elim (Bool-cases (n == 0)) [
  | inl none ↦ rw none (ground arith)
  | inr some ↦ rw some (digits-IsContent n (ground arith) h)
]
