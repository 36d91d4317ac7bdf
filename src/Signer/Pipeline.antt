-- ===== src/Signer/Pipeline.antt =====
-- services/signer-service/src/sign/typed-data.ts and sign/pipeline.ts: the domain assertion, the
-- typed data that is signed, and the normalisation of the key source's signature.
-- What stands behind the service's libraries is a parameter: the key source (AWS KMS), viem's typed
-- data hash, keccak256 and address checksum, and noble's public key recovery.
pub mod Genuine
pub mod Packed
use straitsx.Prelude.{
  ℕ, zero, suc, ◌+◌, ◌-◌, ◌%◌, Bool, true, false, ◌&&◌, ◌||◌, not, Option, none, some, List, [],
  ◌∷◌, ◌++◌, map, ltb, ◌==◌, if◌then◌else◌, length, drop,
}
use straitsx.Text.{Text, codes, same, lower}
use straitsx.Text.BigInt.Hexadecimal.{hex_char, zeros16}
use straitsx.Contracts.Types.{X402Accepted, Authorization, Domain, TypedData}
use straitsx.Signer.Der.{Parsed, ok, err, nibbles, normalise_s, parse_signature_der}

pub record ExpectedDomain : Type 0 where
  pub chain_id : ℕ
  pub asset : Text
  pub name : Text
  pub version : Text

-- assertDomainMatches: true where it does not throw
unfoldable pub domain_matches : Domain → ExpectedDomain → Bool
domain_matches domain expected =
    domain.chain_id == expected.chain_id
    && (same (lower domain.verifying_contract) (lower expected.asset)
        && (same domain.name expected.name && same domain.version expected.version))

-- buildTransferWithAuthorizationTypedData
unfoldable pub build_typed_data : TypedData → TypedData
build_typed_data input = record {
  domain = record input.domain { verifying_contract = lower input.domain.verifying_contract };
  message = record input.message { from = lower input.message.from; to = lower input.message.to };
}

-- The calls out of the service.
pub record Backend : Type 0 where
  -- keySource.signDigest, with none for its failure
  pub sign_digest : List ℕ → Option (List ℕ)
  -- viem hashTypedData, as bytes
  pub hash_typed_data : TypedData → List ℕ
  -- Signature.fromBytes([recovery, r, s]).recoverPublicKey(digest), with none where it throws
  pub recover_public_key : ℕ → ℕ → ℕ → List ℕ → Option (List ℕ)
  pub keccak256 : List ℕ → List ℕ
  pub get_address : List ℕ → Text

-- The last n elements.
abbrev pub last {ℓ} : {A : Type ℓ} → ℕ → List A → List A
last n xs = drop (length xs - n) xs

unfoldable pub address_from_uncompressed_point : Backend → List ℕ → Text
address_from_uncompressed_point b point = b.get_address (last 20 (b.keccak256 (drop 1 point)))

-- Whether a recovery id gives the expected address, which is checksummed already.
unfoldable pub recovers : Backend → ℕ → ℕ → List ℕ → Text → ℕ → Bool
unfolding address_from_uncompressed_point
recovers b r s digest expected recovery = elim (b.recover_public_key recovery r s digest) [
  | none ↦ false
  | some point ↦ same (address_from_uncompressed_point b point) expected
]

-- The loop over the recovery ids; none is the error after it.
unfoldable pub recover_v_from : Backend → ℕ → ℕ → List ℕ → Text → List ℕ → Option ℕ
recover_v_from b r s digest expected [] = none
recover_v_from b r s digest expected (recovery ∷ rest) =
    if recovers b r s digest expected recovery
    then some (27 + recovery % 2)
    else recover_v_from b r s digest expected rest

unfoldable pub recover_v : Backend → ℕ → ℕ → List ℕ → Text → Option ℕ
unfolding recover_v_from recovers
recover_v b r s digest expected = recover_v_from b r s digest expected (0 ∷ 1 ∷ 2 ∷ 3 ∷ [])

-- `r` and `s` are hex strings of these numbers on the wire.
pub record SignatureParts : Type 0 where
  pub v : ℕ
  pub r : ℕ
  pub s : ℕ

-- value.toString(16)
unfoldable pub to_hex : ℕ → Text
to_hex zero = b'0' ∷ []
to_hex (suc n) = map hex_char (nibbles (suc (suc n)) (suc n) [])

-- s.padStart(n, "0")
unfoldable pub pad_start : ℕ → Text → Text
pad_start n s = zeros16 (n - length s) s

unfoldable pub pack_signature65 : SignatureParts → Text
pack_signature65 parts =
    codes "0x"
    ++ (pad_start 64 (to_hex parts.r)
        ++ (pad_start 64 (to_hex parts.s) ++ pad_start 2 (to_hex parts.v)))

-- The payload of the PAYMENT-SIGNATURE header, before JSON and base64. The window's bounds are
-- decimal strings there.
pub record X402Payload : Type 0 where
  pub x402_version : ℕ
  pub resource : Text
  pub accepted : X402Accepted
  pub signature : Text
  pub authorization : Authorization

pub record HeaderInput : Type 0 where
  pub x402_version : ℕ
  pub resource : Text
  pub accepted : X402Accepted
  pub authorization : Authorization

unfoldable pub build_x402_header : HeaderInput → SignatureParts → X402Payload
build_x402_header input signature = record {
  x402_version = input.x402_version;
  resource = input.resource;
  accepted = input.accepted;
  signature = pack_signature65 signature;
  authorization = input.authorization;
}

-- Why no signature was made.
pub data SignFailure : Type 0 where
  digest_length key_source_failed malformed_der unrecoverable : SignFailure

pub data Signature : Type 0 where
  produced : X402Payload → SignatureParts → Signature
  failure : SignFailure → Signature

-- The steps after the key source has answered.
unfoldable pub finish_signature : Backend → List ℕ → Text → HeaderInput → Parsed (ℕ × ℕ) → Signature
finish_signature b digest derived header (err e) = failure malformed_der
finish_signature b digest derived header (ok (r, high_s)) =
    elim (recover_v b r (normalise_s high_s) digest derived) [
      | none ↦ failure unrecoverable
      | some v ↦
          let parts : SignatureParts = record { v = v; r = r; s = normalise_s high_s } in
          produced (build_x402_header header parts) parts
    ]

-- signDigestWithKeySource
unfoldable pub sign_digest_with_key_source : Backend → List ℕ → Text → HeaderInput → Signature
sign_digest_with_key_source b digest derived header =
    if not (length digest == 32) then failure digest_length else elim (b.sign_digest digest) [
      | none ↦ failure key_source_failed
      | some der ↦ finish_signature b digest derived header (parse_signature_der der)
    ]
