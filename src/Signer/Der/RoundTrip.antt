-- ===== src/Signer/Der/RoundTrip.antt =====
-- Parsing what the encoder wrote, what a parse guarantees, and the low-s rule.
use mathlib.Core.List.{append-nil}
use straitsx.Prelude.{
  ℕ, suc, ◌+◌, ◌≤◌, ◌<◌, ◌≡◌, refl, ◌∙◌, ap, true, some, List, [], ◌∷◌, ◌++◌, arith, ◌==◌, ==_iff,
  length, length-append, get_elem?, take, drop, ◌⊎◌,
}
use straitsx.Signer.Der.{
  secp256k1_order, secp256k1_half_order, integer_tag, sequence_tag, normalise_s, ok, assert_scalar,
  encode_length, read_length, to_der_integer, encode_signature_der, tagged, integer_content,
  read_integer, parse_signature_der,
}
use straitsx.Signer.Der.Bytes.{IsContent, to_der_integer-IsContent}

-- A number in [1, n/2] stays as it is, and a larger one below the order is reflected: the result is
-- in [1, n/2] and is s or n - s.
pub normalise_s-low :
    (s : ℕ)
    → 0 < s
    → s < secp256k1_order
    → (0 < normalise_s s)
      × (normalise_s s ≤ secp256k1_half_order)
      × ((normalise_s s ≡ s) ⊎ (normalise_s s + s ≡ secp256k1_order))
unfolding normalise_s
normalise_s-low s h k = ground arith

pub normalise_s_idempotent :
    (s : ℕ) → s < secp256k1_order → normalise_s (normalise_s s) ≡ normalise_s s
unfolding normalise_s
normalise_s_idempotent s h = ground arith

get_elem?-at :
    (pre : List ℕ) (x : ℕ) (post : List ℕ) → get_elem? (pre ++ x ∷ post) (length pre) ≡ some x
get_elem?-at [] x post = refl
get_elem?-at (y ∷ pre) x post = get_elem?-at pre x post

drop-at : (pre post : List ℕ) → drop (length pre) (pre ++ post) ≡ post
drop-at [] post = refl
drop-at (y ∷ pre) post = drop-at pre post

take-at : (pre post : List ℕ) → take (length pre) (pre ++ post) ≡ pre
take-at [] post = refl
take-at (y ∷ pre) post = ap (λ l. y ∷ l) (take-at pre post)

encode_length-short : (n : ℕ) → n < 0x80 → encode_length n ≡ n ∷ []
unfolding encode_length
encode_length-short n h = ground arith

read_length-short :
    (der : List ℕ) (offset n : ℕ)
    → get_elem? der offset ≡ some n
    → n < 0x80
    → read_length der offset ≡ ok (n, offset + 1)
unfolding read_length
read_length-short der offset n found small = rw (found, read_length) (ground arith)

integer_content-IsContent :
    (n next m : ℕ) (bytes : List ℕ)
    → IsContent m bytes
    → n ≡ length bytes
    → integer_content n next bytes ≡ ok (m, next + n)
unfolding integer_content
integer_content-IsContent n next m [] c e = absurd c.head
integer_content-IsContent n next m (b ∷ bytes) c e = ground (arith, c.value, c.head)

get_elem?-after :
    (pre : List ℕ) (x y : ℕ) (post : List ℕ)
    → get_elem? (pre ++ x ∷ y ∷ post) (length pre + 1) ≡ some y
get_elem?-after [] x y post = refl
get_elem?-after (z ∷ pre) x y post =
    let e : suc (length pre) + 1 ≡ suc (length pre + 1) = omega arith in
    ap (get_elem? (z ∷ (pre ++ x ∷ y ∷ post))) e ∙ get_elem?-after pre x y post

drop-after :
    (pre : List ℕ) (x y : ℕ) (post : List ℕ)
    → drop (length pre + 1 + 1) (pre ++ x ∷ y ∷ post) ≡ post
drop-after [] x y post = refl
drop-after (z ∷ pre) x y post =
    let e : suc (length pre) + 1 + 1 ≡ suc (length pre + 1 + 1) = omega arith in
    ap (λ n. drop n (z ∷ (pre ++ x ∷ y ∷ post))) e ∙ drop-after pre x y post

-- An INTEGER is read back wherever it stands in the input.
read_integer-tagged :
    (pre bytes post : List ℕ) (m : ℕ)
    → IsContent m bytes
    → read_integer (pre ++ integer_tag ∷ length bytes ∷ (bytes ++ post)) (length pre)
      ≡ ok (m, length pre + 1 + 1 + length bytes)
unfolding read_integer
read_integer-tagged pre bytes post m c =
    let n : ℕ = length bytes in
    let der : List ℕ = pre ++ integer_tag ∷ n ∷ (bytes ++ post) in
    let read =
      read_length-short der (length pre + 1) n (get_elem?-after pre integer_tag n (bytes ++ post))
        (omega (arith, c.short)) in
    let content = ap (take n) (drop-after pre integer_tag n (bytes ++ post)) ∙ take-at bytes post in
    rw (get_elem?-at pre integer_tag (n ∷ (bytes ++ post)))
      (rw read (rw content (integer_content-IsContent n (length pre + 1 + 1) m bytes c refl)))

assert_scalar-in_range : (n : ℕ) → 0 < n → n < secp256k1_order → assert_scalar n ≡ ok n
unfolding assert_scalar
assert_scalar-in_range n h k = ground arith

tagged-short :
    (tag : ℕ) (bytes : List ℕ) → length bytes < 0x80 → tagged tag bytes ≡ tag ∷ length bytes ∷ bytes
tagged-short tag bytes h = rw (encode_length-short (length bytes) h)

-- The bytes that the encoder writes for two contents of at most 33 bytes.
abbrev frame : List ℕ → List ℕ → List ℕ
frame a b =
    let inner = integer_tag ∷ length a ∷ (a ++ integer_tag ∷ length b ∷ (b ++ [])) in
    sequence_tag ∷ length inner ∷ inner

parse-frame :
    (a b : List ℕ) (r s : ℕ)
    → IsContent r a
    → IsContent s b
    → 0 < r
    → r < secp256k1_order
    → 0 < s
    → s < secp256k1_order
    → parse_signature_der (frame a b) ≡ ok (r, s)
unfolding parse_signature_der
parse-frame a b r s ca cb r0 rn s0 sn =
    let rest : List ℕ = integer_tag ∷ length b ∷ (b ++ []) in
    let n : ℕ = suc (suc (length (a ++ rest))) in
    let pre : List ℕ = sequence_tag ∷ n ∷ [] in
    let pre' : List ℕ = sequence_tag ∷ n ∷ integer_tag ∷ length a ∷ a in
    let total : n ≡ length a + length b + 4 =
      omega (arith, length-append {0} a rest, length-append {0} b []) in
    let e1 : read_length (frame a b) 1 ≡ ok (n, 2) =
      read_length-short (frame a b) 1 n refl (omega (arith, ca.short, cb.short)) in
    let g1 : (2 + n == suc (suc n)) ≡ true = (==_iff _ _).1 (omega arith) in
    let e2 : read_integer (frame a b) 2 ≡ ok (r, length pre') =
      read_integer-tagged pre a rest r ca ∙ ap (λ x. ok (r, x)) (omega arith) in
    let e3 : read_integer (frame a b) (length pre') ≡ ok (s, length pre' + 1 + 1 + length b) =
      read_integer-tagged pre' b [] s cb in
    let g2 : (length pre' + 1 + 1 + length b == 2 + n) ≡ true = (==_iff _ _).1 (omega arith) in
    rw e1 (
      rw g1 (
        rw e2 (
          rw e3
            (rw g2 (rw (assert_scalar-in_range r r0 rn) (rw (assert_scalar-in_range s s0 sn)))))))

total-short :
    (a b : List ℕ)
    → length a ≤ 33
    → length b ≤ 33
    → suc (suc (length (a ++ integer_tag ∷ length b ∷ b))) < 0x80
total-short a b h k = omega (arith, length-append {0} a (integer_tag ∷ length b ∷ b), h, k)

encode-frame :
    (r s : ℕ) (a b : List ℕ)
    → a ≡ to_der_integer r
    → b ≡ to_der_integer s
    → IsContent r a
    → IsContent s b
    → 0 < r
    → r < secp256k1_order
    → 0 < s
    → s < secp256k1_order
    → encode_signature_der r s ≡ ok (frame a b)
unfolding encode_signature_der
encode-frame r s a b ea eb ca cb r0 rn s0 sn =
    let tail : List ℕ = integer_tag ∷ length b ∷ b in
    let total = total-short a b ca.short cb.short in
    rw (append-nil b) (
      rw (assert_scalar-in_range r r0 rn) (
        rw (assert_scalar-in_range s s0 sn) (
          rw (← ea, ← eb)
            (rw (encode_length-short (length a) (omega (arith, ca.short))) (
              rw (encode_length-short (length b) (omega (arith, cb.short)))
                (rw (encode_length-short (suc (suc (length (a ++ tail)))) total) refl))))))

-- Every pair of scalars in [1, n-1] is encoded, and the parser gives the pair back.
pub parse-encode :
    (r s : ℕ)
    → 0 < r
    → r < secp256k1_order
    → 0 < s
    → s < secp256k1_order
    → (der : List ℕ) × (encode_signature_der r s ≡ ok der) × (parse_signature_der der ≡ ok (r, s))
parse-encode r s r0 rn s0 sn =
    let a = to_der_integer r in
    let b = to_der_integer s in
    let ca = to_der_integer-IsContent r (omega arith) in
    let cb = to_der_integer-IsContent s (omega arith) in
    (
      frame a b,
      encode-frame r s a b refl refl ca cb r0 rn s0 sn,
      parse-frame a b r s ca cb r0 rn s0 sn,
    )

-- Whatever bytes are parsed, an accepted signature starts with a SEQUENCE and has both scalars in
-- [1, n-1].
pub parse_signature_der-in_range :
    (der : List ℕ) (r s : ℕ)
    → parse_signature_der der ≡ ok (r, s)
    → (get_elem? der 0 ≡ some sequence_tag)
      × (0 < r)
      × (r < secp256k1_order)
      × (0 < s)
      × (s < secp256k1_order)
unfolding parse_signature_der assert_scalar
parse_signature_der-in_range der r s h = ground arith
