-- ===== src/Signer/Spki.antt =====
-- services/signer-service/src/keys/derive-address.ts: the public key of an SPKI structure. Bytes are
-- numbers, and none is the exception that the reader throws.
pub mod RoundTrip
use straitsx.Prelude.{
  ℕ, zero, suc, ◌+◌, ◌-◌, ◌*◌, ◌%◌, Bool, true, false, ◌||◌, Option, none, some, List, [], ◌∷◌,
  length, get_elem?, take, drop, ltb, ◌==◌, if◌then◌else◌, ◌>>=◌,
}
use straitsx.Text.{Text}
use straitsx.Signer.Pipeline.{Backend, last}

-- The bytes of a long length, the highest first.
unfoldable pub add_length_bytes : List ℕ → ℕ → ℕ → ℕ → Option ℕ
add_length_bytes der offset zero acc = some acc
add_length_bytes der offset (suc count) acc = do
  byte ← get_elem? der offset
  add_length_bytes der (offset + 1) count (acc * 256 + byte)

-- A length of count bytes; count is first & 0x7f.
unfoldable pub read_long_length : List ℕ → ℕ → ℕ → Option (ℕ × ℕ)
unfolding add_length_bytes
read_long_length der offset count =
    if count == 0 || ltb 4 count
    then none
    else (do len ← add_length_bytes der (offset + 1) count 0; some (len, offset + 1 + count))

-- readDerLength: the length and where its content starts
unfoldable pub read_der_length : List ℕ → ℕ → Option (ℕ × ℕ)
unfolding read_long_length
read_der_length der offset = do
  first ← get_elem? der offset
  if ltb first 128 then some (first, offset + 1) else read_long_length der offset (first % 128)

-- der[i] !== tag throws
unfoldable pub expect_byte : List ℕ → ℕ → ℕ → Option (Unit {0})
expect_byte der i tag = do byte ← get_elem? der i; if byte == tag then some tt else none

-- der.slice(from, to)
unfoldable pub slice : List ℕ → ℕ → ℕ → List ℕ
slice der from to = take (to - from) (drop from der)

-- point.length !== 65 || point[0] !== 0x04 throws
unfoldable pub uncompressed : List ℕ → Option (List ℕ)
unfolding expect_byte
uncompressed point = do
  mark ← expect_byte point 0 0x04
  if length point == 65 then some point else none

-- extractUncompressedPoint
unfoldable pub extract_uncompressed_point : List ℕ → Option (List ℕ)
unfolding read_der_length expect_byte slice uncompressed
extract_uncompressed_point spki = do
  sequence ← expect_byte spki 0 0x30
  outer ← read_der_length spki 1
  inner ← expect_byte spki outer.1 0x30
  algorithm ← read_der_length spki (outer.1 + 1)
  bits ← expect_byte spki (algorithm.1 + algorithm.0) 0x03
  bit_string ← read_der_length spki (algorithm.1 + algorithm.0 + 1)
  unused ← expect_byte spki bit_string.1 0x00
  uncompressed (slice spki (bit_string.1 + 1) (bit_string.1 + bit_string.0))

-- deriveAddressFromSpki
unfoldable pub derive_address_from_spki : Backend → List ℕ → Option Text
derive_address_from_spki b spki = do
  point ← extract_uncompressed_point spki
  some (b.get_address (last 20 (b.keccak256 (drop 1 point))))
