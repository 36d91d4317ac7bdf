-- ===== src/Signer/Pipeline/Genuine.antt =====
-- What a produced signature satisfies.
use mathlib.Core.Path.{subst}
use straitsx.Prelude.{
  sym, ℕ, ◌+◌, ◌%◌, ◌≤◌, ◌<◌, ◌≡◌, refl, true, some, List, [], ◌∷◌, arith, length, Option-cases,
  Bool-cases, All, inl, inr, ◌⊎◌,
}
use straitsx.Text.{Text}
use straitsx.Signer.Der.{
  secp256k1_order, secp256k1_half_order, Parsed, DerError, ok, err, normalise_s,
  parse_signature_der,
}
use straitsx.Signer.Der.RoundTrip.{normalise_s-low, parse_signature_der-in_range}
use straitsx.Signer.Pipeline.Packed.{IsPacked, pack_signature65-IsPacked}
use straitsx.Signer.Pipeline.{
  Backend, recovers, recover_v_from, recover_v, SignatureParts, X402Payload, HeaderInput,
  build_x402_header, produced, finish_signature, sign_digest_with_key_source,
}

-- A signature of the digest that the chain accepts: r is the one of the key source's answer, s is the
-- answer's s or its reflection, whichever is low, and v is that of a recovery id that leads back to
-- the derived address.
pub record IsGenuine (b : Backend) (digest : List ℕ) (derived : Text) (parts : SignatureParts)
    : Type 0 where
  pub der : List ℕ
  pub answered : b.sign_digest digest ≡ some der
  pub high_s : ℕ
  pub decoded : parse_signature_der der ≡ ok (parts.r, high_s)
  pub reflected : (parts.s ≡ high_s) ⊎ (parts.s + high_s ≡ secp256k1_order)
  pub r_positive : 0 < parts.r
  pub r_bounded : parts.r < secp256k1_order
  pub s_positive : 0 < parts.s
  pub s_low : parts.s ≤ secp256k1_half_order
  pub recovery : ℕ
  pub recovery_bounded : recovery < 4
  pub v_parity : parts.v ≡ 27 + recovery % 2
  pub recovered : recovers b parts.r parts.s digest derived recovery ≡ true

Parsed-cases {ℓ} :
    {A : Type ℓ} (p : Parsed A) → ((e : DerError) × (p ≡ err e)) ⊎ ((a : A) × (p ≡ ok a))
Parsed-cases (ok a) = inr (a, refl)
Parsed-cases (err e) = inl (e, refl)

module _ (b : Backend) (r s : ℕ) (digest : List ℕ) (derived : Text) where
  -- The result is that of a recovery id in the list that gives the derived address.
  recover_v_from_sound :
      (v : ℕ) (ids : List ℕ)
      → All (λ x. x < 4) ids
      → recover_v_from b r s digest derived ids ≡ some v
      → (recovery : ℕ) × (recovery < 4)
        × (v ≡ 27 + recovery % 2)
        × (recovers b r s digest derived recovery ≡ true)
  unfolding recover_v_from
  recover_v_from_sound v [] small h = cc
  recover_v_from_sound v (x ∷ ids) small h = elim (Bool-cases (recovers b r s digest derived x)) [
    | inl found ↦ (x, small.0, ground (arith, found), found)
    | inr other ↦ recover_v_from_sound v ids small.1 (ground (arith, other))
  ]

  recover_v_sound :
      (v : ℕ)
      → recover_v b r s digest derived ≡ some v
      → (recovery : ℕ) × (recovery < 4)
        × (v ≡ 27 + recovery % 2)
        × (recovers b r s digest derived recovery ≡ true)
  recover_v_sound v h =
      recover_v_from_sound v (0 ∷ 1 ∷ 2 ∷ 3 ∷ []) (omega arith) (unfold recover_v in h)

module _ (b : Backend) (digest : List ℕ) (derived : Text) (input : HeaderInput) where
  -- The parts of a result that was produced from two parsed scalars.
  finish_inversion :
      (r high_s v : ℕ) (payload : X402Payload) (parts : SignatureParts)
      → recover_v b r (normalise_s high_s) digest derived ≡ some v
      → finish_signature b digest derived input (ok (r, high_s)) ≡ produced payload parts
      → (parts ≡ record { v = v; r = r; s = normalise_s high_s })
        × (payload ≡ build_x402_header input parts)
  unfolding finish_signature
  finish_inversion r high_s v payload parts found h =
      let h' = rw (found, finish_signature) at h in (cc h', cc h')

  finish_sound :
      (der : List ℕ) (payload : X402Payload) (parts : SignatureParts)
      → b.sign_digest digest ≡ some der
      → finish_signature b digest derived input (parse_signature_der der) ≡ produced payload parts
      → IsGenuine b digest derived parts × (payload ≡ build_x402_header input parts)
  finish_sound der payload parts answered h = elim (Parsed-cases (parse_signature_der der)) [
    | inl (e, bad) ↦ absurd (unfold finish_signature in cc (rw bad at h))
    | inr ((r, high_s), good) ↦
        elim (Option-cases (recover_v b r (normalise_s high_s) digest derived)) [
          | inl lost ↦
              absurd (unfold finish_signature in cc (rw (lost, finish_signature) at (rw good at h)))
          | inr (v, found) ↦
              let (same_parts, same_payload) =
                finish_inversion r high_s v payload parts found (rw good at h) in
              let (first, r0, rn, s0, sn) = parse_signature_der-in_range der r high_s good in
              let (low0, low, either) = normalise_s-low high_s s0 sn in
              let (recovery, small, parity, recovered) =
                recover_v_sound b r (normalise_s high_s) digest derived v found in
              let genuine : IsGenuine b digest derived
                  (record { v = v; r = r; s = normalise_s high_s }) =
                record {
                  der = der;
                  answered = answered;
                  high_s = high_s;
                  decoded = good;
                  reflected = either;
                  r_positive = r0;
                  r_bounded = rn;
                  s_positive = low0;
                  s_low = low;
                  recovery = recovery;
                  recovery_bounded = small;
                  v_parity = parity;
                  recovered = recovered;
                } in
              (rw same_parts genuine, same_payload)
        ]
  ]

  sign_inversion :
      (payload : X402Payload) (parts : SignatureParts)
      → sign_digest_with_key_source b digest derived input ≡ produced payload parts
      → (length digest ≡ 32)
        × ((der : List ℕ) × (b.sign_digest digest ≡ some der)
            × (finish_signature b digest derived input (parse_signature_der der)
                ≡ produced payload parts))
  unfolding sign_digest_with_key_source
  sign_inversion payload parts h = elim (Option-cases (b.sign_digest digest)) [
    | inl e ↦ absurd (ground (arith, e))
    | inr (der, answered) ↦ (ground arith, (der, answered, ground (arith, answered)))
  ]

  pub produced-build_x402_header :
      (payload : X402Payload) (parts : SignatureParts)
      → sign_digest_with_key_source b digest derived input ≡ produced payload parts
      → (length digest ≡ 32)
        × IsGenuine b digest derived parts
        × (payload ≡ build_x402_header input parts)
  produced-build_x402_header payload parts h =
      let (full, (der, answered, finished)) = sign_inversion payload parts h in
      let (genuine, header) = finish_sound der payload parts answered finished in
      (full, genuine, header)

  -- A signature that is produced is a genuine one of a 32-byte digest: the key source's answer to
  -- that digest decodes to its r and to its s or the reflection of its s. The header's signature is
  -- 65 bytes of hexadecimal text, whose first 32 are read back as r, the next 32 as s and the last
  -- as v.
  pub produced-IsGenuine :
      (payload : X402Payload) (parts : SignatureParts)
      → sign_digest_with_key_source b digest derived input ≡ produced payload parts
      → (length digest ≡ 32) × IsGenuine b digest derived parts × IsPacked parts payload.signature
  unfolding build_x402_header
  produced-IsGenuine payload parts h =
      let (full, genuine, header) = produced-build_x402_header payload parts h in
      let r_fits = genuine.r_bounded in
      let s_fits = genuine.s_low in
      let parity = genuine.v_parity in
      let packed =
        pack_signature65-IsPacked parts (omega (arith, r_fits)) (omega (arith, s_fits))
          (omega (arith, parity)) in
      (full, genuine, subst (λ p. IsPacked parts p.signature) (sym header) packed)
