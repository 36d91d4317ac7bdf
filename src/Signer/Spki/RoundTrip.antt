-- ===== src/Signer/Spki/RoundTrip.antt =====
-- The reader finds the point of every SPKI structure with short lengths.
use straitsx.Prelude.{
  ℕ, suc, ◌+◌, ◌-◌, ◌<◌, ◌≡◌, refl, ap, ◌∙◌, some, List, ◌∷◌, ◌++◌, length, get_elem?,
  get_elem?-append, drop-append, take-append, take, drop, arith,
}
use straitsx.Signer.Pipeline.{Backend, address_from_uncompressed_point}
use straitsx.Signer.Spki.{
  derive_address_from_spki, read_der_length, expect_byte, slice, uncompressed,
  extract_uncompressed_point,
}

-- SEQUENCE { SEQUENCE alg, BIT STRING point }, with what follows it.
abbrev pub spki_of : ℕ → List ℕ → List ℕ → List ℕ → List ℕ
spki_of outer alg point tail =
    0x30 ∷ outer ∷ 0x30 ∷ length alg ∷ (alg ++ (0x03 ∷ 66 ∷ 0 ∷ (point ++ tail)))

short_length :
    (der : List ℕ) (offset b : ℕ)
    → get_elem? der offset ≡ some b
    → b < 128
    → read_der_length der offset ≡ some (b, offset + 1)
unfolding read_der_length
short_length der offset b e h = ground (arith, e, h)

expected : (der : List ℕ) (i b : ℕ) → get_elem? der i ≡ some b → expect_byte der i b ≡ some tt
unfolding expect_byte
expected der i b e = ground (arith, e)

point-uncompressed :
    (point : List ℕ)
    → length point ≡ 65
    → get_elem? point 0 ≡ some 4
    → uncompressed point ≡ some point
unfolding uncompressed expect_byte
point-uncompressed point h k = ground (arith, h, k)

module _ (outer : ℕ) (alg point tail : List ℕ) where
  abbrev spki : List ℕ
  spki = spki_of outer alg point tail

  abbrev behind_alg : List ℕ
  behind_alg = 0x03 ∷ 66 ∷ 0 ∷ (point ++ tail)

  -- What the reader sees behind the algorithm.
  behind :
      (i j : ℕ)
      → j ≡ suc (suc (suc (suc (length alg + i))))
      → get_elem? spki j ≡ get_elem? behind_alg i
  behind i j e = ap (get_elem? spki) e ∙ get_elem?-append alg behind_alg i

  point-slice :
      (from to : ℕ)
      → from ≡ suc (suc (suc (suc (length alg + 3))))
      → to ≡ from + 65
      → length point ≡ 65
      → slice spki from to ≡ point
  unfolding slice
  point-slice from to e f h =
      let long : to - from ≡ length point = omega (arith, f, h) in
      let rest : drop from spki ≡ point ++ tail =
        ap (λ n. drop n spki) e ∙ drop-append alg behind_alg 3 in
      ap (λ n. take n (drop from spki)) long
      ∙ ap (take (length point)) rest
      ∙ take-append point tail

  -- The point of a structure with short lengths.
  extract-spki_of :
      outer < 128
      → length alg < 128
      → length point ≡ 65
      → get_elem? point 0 ≡ some 4
      → extract_uncompressed_point (spki_of outer alg point tail) ≡ some point
  unfolding extract_uncompressed_point
  extract-spki_of a b h k =
      let at = 4 + length alg in
      let e0 = expected spki 0 0x30 refl in
      let e1 = short_length spki 1 outer refl a in
      let e2 = expected spki 2 0x30 refl in
      let e3 = short_length spki 3 (length alg) refl b in
      let e4 = expected spki at 0x03 (behind 0 at (omega arith)) in
      let e5 = short_length spki (at + 1) 66 (behind 1 (at + 1) (omega arith)) (omega arith) in
      let e6 = expected spki (at + 1 + 1) 0x00 (behind 2 (at + 1 + 1) (omega arith)) in
      let e7 = point-slice (at + 1 + 1 + 1) (at + 1 + 1 + 66) (omega arith) (omega arith) h in
      let e8 = point-uncompressed point h k in rw (e0, e1, e2, e3, e4, e5, e6, e7, e8) refl

  -- A structure with short lengths, 65 bytes of point that start with 4, and anything behind them
  -- gives its point back, whatever the algorithm identifier is and wherever the point stands, and
  -- the address derived from it is the one that the recovery of a signature compares with.
  pub derive-spki_of :
      (b : Backend)
      → outer < 128
      → length alg < 128
      → length point ≡ 65
      → get_elem? point 0 ≡ some 4
      → (extract_uncompressed_point (spki_of outer alg point tail) ≡ some point)
        × (derive_address_from_spki b (spki_of outer alg point tail)
            ≡ some (address_from_uncompressed_point b point))
  unfolding derive_address_from_spki address_from_uncompressed_point
  derive-spki_of b h k long mark =
      let found = extract-spki_of h k long mark in (found, rw found refl)
