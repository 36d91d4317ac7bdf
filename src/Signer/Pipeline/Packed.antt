-- ===== src/Signer/Pipeline/Packed.antt =====
-- The packed signature of a header, read back.
use straitsx.Prelude.{
  ℕ, zero, suc, ◌+◌, ◌-◌, ◌/◌, ◌%◌, ◌^◌, ◌≤◌, ◌<◌, ◌≡◌, refl, ◌∙◌, ap, some, List, [], ◌∷◌, ◌++◌,
  map, arith, length, All, ◌==◌, Bool-cases, inl, inr,
}
use straitsx.Text.{Text, codes}
use straitsx.Text.BigInt.{number_in}
use straitsx.Text.BigInt.Hexadecimal.{hex_char, zeros16, value16_from, number_in-hex_char}
use straitsx.Signer.Der.{nibbles}
use straitsx.Signer.Der.Bytes.{value-nibbles, length-nibbles}
use straitsx.Signer.Pipeline.{SignatureParts, to_hex, pad_start, pack_signature65}

-- A text of n hexadecimal digits that is worth the number.
abbrev pub IsHexOf : ℕ → ℕ → Text → Type 0
IsHexOf n value s = (length s ≡ n) × (number_in 16 s ≡ some value)

-- The 65 bytes of a signature: r and s in 32 each, then v in one.
abbrev pub IsPacked : SignatureParts → Text → Type 0
IsPacked parts signature =
    (r : Text) × (s : Text) × (v : Text) × (signature ≡ codes "0x" ++ (r ++ (s ++ v)))
    × IsHexOf 64 parts.r r
    × IsHexOf 64 parts.s s
    × IsHexOf 2 parts.v v

All-nibbles :
    (f n : ℕ) (digits : List ℕ) → All (λ d. d < 16) digits → All (λ d. d < 16) (nibbles f n digits)
unfolding nibbles
All-nibbles zero n digits h = h
All-nibbles (suc f) n digits h = elim (Bool-cases (n == 0)) [
  | inl done ↦ rw done h
  | inr more ↦ rw more (All-nibbles f (n / 16) ((n % 16) ∷ digits) (omega arith, h))
]

length-zeros16 : (k : ℕ) (s : Text) → length (zeros16 k s) ≡ k + length s
length-zeros16 zero s = omega arith
length-zeros16 (suc k) s = omega (arith, length-zeros16 k s)

length-hex_char : (digits : List ℕ) → length (map hex_char digits) ≡ length digits
length-hex_char [] = refl
length-hex_char (d ∷ digits) = ap (λ n. suc n) (length-hex_char digits)

-- The digits of a number, at least one of them.
abbrev IsPrinted : ℕ → ℕ → Text → Type 0
IsPrinted n k text =
    (d : ℕ) × (digits : List ℕ) × (text ≡ map hex_char (d ∷ digits))
    × All (λ x. x < 16) (d ∷ digits)
    × (value16_from 0 (d ∷ digits) ≡ n)
    × (length (d ∷ digits) ≤ k)

digits-IsPrinted :
    (n k : ℕ) (digits : List ℕ)
    → All (λ x. x < 16) digits
    → value16_from 0 digits ≡ suc n
    → length digits ≤ k
    → IsPrinted (suc n) k (map hex_char digits)
digits-IsPrinted n k [] h e l = absurd (omega (arith, e))
digits-IsPrinted n k (d ∷ digits) h e l = (d, digits, refl, h, e, l)

to_hex-IsPrinted : (n k : ℕ) → n < 16 ^ suc k → IsPrinted n (suc k) (to_hex n)
unfolding to_hex
to_hex-IsPrinted zero k h = (0, [], refl, (omega arith, tt), refl, omega arith)
to_hex-IsPrinted (suc n) k h =
    digits-IsPrinted n (suc k) (nibbles (suc (suc n)) (suc n) [])
      (All-nibbles (suc (suc n)) (suc n) [] tt)
      (value-nibbles (suc (suc n)) (suc n) [] (omega arith))
      (omega (arith, length-nibbles (suc (suc n)) (suc n) (suc k) [] h))

pad_start-IsHexOf : (k n : ℕ) → n < 16 ^ suc k → IsHexOf (suc k) n (pad_start (suc k) (to_hex n))
unfolding pad_start
pad_start-IsHexOf k n h =
    let (d, digits, e, small, value, short) = to_hex-IsPrinted n k h in
    let as_long : length (to_hex n) ≡ length (d ∷ digits) =
      ap (λ s. length s) e ∙ length-hex_char (d ∷ digits) in
    (
      omega (arith, length-zeros16 (suc k - length (to_hex n)) (to_hex n), as_long, short),
      ap (λ s. number_in 16 (zeros16 (suc k - length (to_hex n)) s)) e
          ∙ number_in-hex_char (suc k - length (to_hex n)) digits d small
          ∙ ap (λ m. some m) value,
    )

-- The signature of parts that fit is their packing.
pub pack_signature65-IsPacked :
    (parts : SignatureParts)
    → parts.r < 2 ^ 256
    → parts.s < 2 ^ 256
    → parts.v < 256
    → IsPacked parts (pack_signature65 parts)
unfolding pack_signature65
pack_signature65-IsPacked parts hr hs hv = (
  pad_start 64 (to_hex parts.r),
  pad_start 64 (to_hex parts.s),
  pad_start 2 (to_hex parts.v),
  refl,
  pad_start-IsHexOf 63 parts.r (omega (arith, hr)),
  pad_start-IsHexOf 63 parts.s (omega (arith, hs)),
  pad_start-IsHexOf 1 parts.v (omega (arith, hv)),
)
