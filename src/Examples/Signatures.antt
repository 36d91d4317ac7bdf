-- ===== src/Examples/Signatures.antt =====
-- The signer's theorems on one request, with a key source that answers with the scalars 1 and 1.
use straitsx.Prelude.{
  ℕ, ◌+◌, ◌≤◌, ◌<◌, ◌≡◌, ◌↔◌, ◌⊎◌, refl, true, false, some, none, List, [], ◌∷◌, arith, pos, length,
  get_elem?,
}
use straitsx.Text.{Text, codes}
use straitsx.Contracts.Types.{PinnedMandate}
use straitsx.Signer.Der.{
  secp256k1_order, secp256k1_half_order, sequence_tag, ok, normalise_s, encode_signature_der,
  parse_signature_der,
}
use straitsx.Signer.Der.RoundTrip.{parse-encode, normalise_s-low, parse_signature_der-in_range}
use straitsx.Signer.Rail.{RailInput, RailConfig, passed, refused, replay, check_rail}
use straitsx.Signer.Rail.Envelope.{IsWithin, check_rail-passed_iff, check_rail-replay_iff}
use straitsx.Signer.Pipeline.{
  Backend, SignatureParts, HeaderInput, X402Payload, build_x402_header, produced,
  sign_digest_with_key_source,
}
use straitsx.Signer.Pipeline.Packed.{IsPacked}
use straitsx.Signer.Pipeline.Genuine.{IsGenuine, produced-IsGenuine}
use straitsx.Signer.Sign.{
  RawSignBody, SignBody, parse_sign_body, SignDeps, SignResponse, signed, SignCode, has,
  rail_config, rail_input, pending, sign_begin, header_input, sign_finish, finish_begun, sign,
}
use straitsx.Signer.Sign.Guarantees.{IsCleared, IsSigned, sign-IsSigned}
use straitsx.Signer.Sign.Replay.{sign_all, signatures_for, bit, sign_all-once, sign_finish-twice}

abbrev wallet : Text
wallet = codes "0xaaaaaaaaaaaaaaaaaaaaaaaaaaaaaaaaaaaaaaaa"

abbrev shop : Text
shop = codes "0xbbbbbbbbbbbbbbbbbbbbbbbbbbbbbbbbbbbbbbbb"

abbrev mandate_id : Text
mandate_id = codes "0x1111111111111111111111111111111111111111111111111111111111111111"

abbrev ones_der : List ℕ
ones_der = 0x30 ∷ 6 ∷ 2 ∷ 1 ∷ 1 ∷ 2 ∷ 1 ∷ 1 ∷ []

abbrev digest : List ℕ
digest =
    0 ∷ 1 ∷ 2 ∷ 3 ∷ 4 ∷ 5 ∷ 6 ∷ 7 ∷ 8 ∷ 9 ∷ 10 ∷ 11 ∷ 12 ∷ 13 ∷ 14 ∷ 15 ∷ 16 ∷ 17 ∷ 18 ∷ 19 ∷ 20
    ∷ 21 ∷ 22 ∷ 23 ∷ 24 ∷ 25 ∷ 26 ∷ 27 ∷ 28 ∷ 29 ∷ 30 ∷ 31 ∷ []

abbrev pub backend : Backend
backend = record {
  sign_digest = λ d. some ones_der;
  hash_typed_data = λ t. digest;
  recover_public_key = λ v r s d. some (4 ∷ []);
  keccak256 = λ bytes. bytes;
  get_address = λ bytes. wallet;
}

abbrev pinned : PinnedMandate
pinned = record { settlement_recipient = shop; hard_max_total = codes "30000000" }

abbrev deps : SignDeps
deps = record {
  backend = backend;
  signer_address = wallet;
  chain_id = 43113;
  expected_domain = record {
    chain_id = 43113;
    asset = shop;
    name = codes "XSGD";
    version = codes "2";
  };
  pinned = (mandate_id, pinned) ∷ [];
}

abbrev raw : RawSignBody
raw = record {
  request_id = some (codes "r1");
  mandate_id = some mandate_id;
  from = some wallet;
  to = some shop;
  value = some (codes "7000000");
  valid_after = some 100;
  valid_before = some 160;
  nonce = some mandate_id;
  name = some (codes "XSGD");
  version = some (codes "2");
  chain_id = some 43113;
  verifying_contract = some shop;
  accepted_network = some (codes "eip155:43113");
  accepted_chain_id = some 43113;
  accepted_amount = some (codes "7000000");
  accepted_asset = some shop;
  accepted_pay_to = some shop;
  accepted_max_timeout_seconds = some 60;
  accepted_name = some (codes "XSGD");
  accepted_version = some (codes "2");
  resource = some (codes "card");
  x402_version = none;
}

abbrev body : SignBody
body = record {
  request_id = codes "r1";
  mandate_id = mandate_id;
  typed_data = record {
    domain = record {
      name = codes "XSGD";
      version = codes "2";
      chain_id = 43113;
      verifying_contract = shop;
    };
    message = record {
      from = wallet;
      to = shop;
      value = codes "7000000";
      valid_after = 100;
      valid_before = 160;
      nonce = mandate_id;
    };
  };
  accepted = record {
    network = codes "eip155:43113";
    chain_id = 43113;
    amount = codes "7000000";
    asset = shop;
    pay_to = shop;
    max_timeout_seconds = 60;
    extra = record { name = codes "XSGD"; version = codes "2" };
  };
  resource = codes "card";
  x402_version = 1;
}

abbrev ones : SignatureParts
ones = record { v = 27; r = 1; s = 1 }

abbrev payload : X402Payload
payload = build_x402_header (header_input body) ones

abbrev response : SignResponse
response = record {
  request_id = codes "r1";
  header = payload;
  signature = ones;
  signer_address = wallet;
}

parse-encode_example :
    (der : List ℕ) × (encode_signature_der 1 300 ≡ ok der) × (parse_signature_der der ≡ ok (1, 300))
parse-encode_example = parse-encode 1 300 (omega arith) (omega arith) (omega arith) (omega arith)

normalise_s-low_example :
    (0 < normalise_s 1)
    × (normalise_s 1 ≤ secp256k1_half_order)
    × ((normalise_s 1 ≡ 1) ⊎ (normalise_s 1 + 1 ≡ secp256k1_order))
normalise_s-low_example = normalise_s-low 1 (omega arith) (omega arith)

check_rail-passed_iff_example :
    (check_rail (rail_input body (pos 7000000)) (codes "r1") (rail_config deps []) ≡ passed) ↔ (
      IsWithin (rail_input body (pos 7000000)) (rail_config deps [])
      × ((rail_config deps []).has_seen_request_id (codes "r1") ≡ false))
check_rail-passed_iff_example =
    check_rail-passed_iff (rail_input body (pos 7000000)) (codes "r1") (rail_config deps [])

check_rail-replay_iff_example :
    (check_rail (rail_input body (pos 7000000)) (codes "r1") (rail_config deps (codes "r1" ∷ []))
      ≡ refused replay)
    ↔ (IsWithin (rail_input body (pos 7000000)) (rail_config deps (codes "r1" ∷ []))
        × ((rail_config deps (codes "r1" ∷ [])).has_seen_request_id (codes "r1") ≡ true))
check_rail-replay_iff_example =
    check_rail-replay_iff (rail_input body (pos 7000000)) (codes "r1")
      (rail_config deps (codes "r1" ∷ []))

parse_signature_der-in_range_example :
    (get_elem? ones_der 0 ≡ some sequence_tag)
    × (0 < 1)
    × (1 < secp256k1_order)
    × (0 < 1)
    × (1 < secp256k1_order)
unfolding parse_signature_der straitsx.Signer.Der.read_length straitsx.Signer.Der.read_integer
    straitsx.Signer.Der.integer_content straitsx.Signer.Der.assert_scalar
parse_signature_der-in_range_example = parse_signature_der-in_range ones_der 1 1 refl

produced-IsGenuine_example :
    (length digest ≡ 32) × IsGenuine backend digest wallet ones × IsPacked ones payload.signature
unfolding sign_digest_with_key_source straitsx.Signer.Pipeline.finish_signature parse_signature_der
    straitsx.Signer.Der.read_length straitsx.Signer.Der.read_integer
    straitsx.Signer.Der.integer_content straitsx.Signer.Der.assert_scalar
    straitsx.Signer.Pipeline.recover_v straitsx.Text.same normalise_s
produced-IsGenuine_example =
    produced-IsGenuine backend digest wallet (header_input body) payload ones refl

sign-IsSigned_example :
    (b : SignBody) × (parse_sign_body raw ≡ some b)
    × IsCleared deps [] b
    × IsSigned deps b response
    × ((codes "r1" ∷ []) ≡ b.request_id ∷ [])
unfolding sign finish_begun sign_begin parse_sign_body straitsx.Contracts.Validation.parse_bytes32
    straitsx.Text.Hex.is_hex straitsx.Contracts.Validation.parse_address
    straitsx.Contracts.Validation.parse_uint straitsx.Text.BigInt.is_uint
    straitsx.Contracts.Validation.parse_chain_id straitsx.Contracts.Validation.is_supported_chain_id
    straitsx.Signer.Sign.begin_body straitsx.Text.BigInt.big_int straitsx.Signer.Sign.after_rail
    check_rail straitsx.Dict.get rail_config straitsx.Signer.Der.assert_scalar
    straitsx.Signer.Der.integer_content straitsx.Signer.Der.is_high_s straitsx.Signer.Der.nibbles
    normalise_s parse_signature_der straitsx.Signer.Der.read_integer straitsx.Signer.Der.read_length
    straitsx.Signer.Pipeline.address_from_uncompressed_point
    straitsx.Signer.Pipeline.build_typed_data build_x402_header
    straitsx.Signer.Pipeline.domain_matches straitsx.Signer.Pipeline.finish_signature
    straitsx.Signer.Pipeline.pack_signature65 straitsx.Signer.Pipeline.pad_start
    straitsx.Signer.Pipeline.recover_v straitsx.Signer.Pipeline.recover_v_from
    straitsx.Signer.Pipeline.recovers sign_digest_with_key_source straitsx.Signer.Pipeline.to_hex
    straitsx.Signer.Rail.check_entry straitsx.Signer.Rail.check_limits
    straitsx.Signer.Rail.parse_uint_as_big_int straitsx.Signer.Rail.refusal_status
    straitsx.Signer.Sign.digest_of straitsx.Signer.Sign.failure_outcome
    straitsx.Signer.Sign.finish_with has header_input rail_input sign_finish
    straitsx.Text.BigInt.all_digits straitsx.Text.BigInt.is_digit straitsx.Text.BigInt.number_in
    straitsx.Text.BigInt.trim straitsx.Text.Hex.hex_digits straitsx.Text.Hex.is_hex_digit
    straitsx.Text.lower straitsx.Text.lower_code straitsx.Text.present straitsx.Text.same
sign-IsSigned_example = sign-IsSigned deps [] raw (codes "r1" ∷ []) response refl

sign_all-once_example :
    signatures_for (codes "r1") (sign_all deps [] (raw ∷ raw ∷ [])) + bit (has [] (codes "r1")) ≤ 1
sign_all-once_example = sign_all-once deps (raw ∷ raw ∷ []) [] (codes "r1")

-- Another order under the same identifier.
abbrev other_raw : RawSignBody
other_raw = record raw { value = some (codes "8000000"); resource = some (codes "bag") }

abbrev other_body : SignBody
other_body = record body {
  typed_data = record body.typed_data {
    message = record body.typed_data.message { value = codes "8000000" };
  };
  resource = codes "bag";
}

abbrev other_response : SignResponse
other_response = record response {
  header = build_x402_header (header_input other_body) response.signature;
}

sign_finish-twice_example :
    (has [] (codes "r1") ≡ false)
    × (has (codes "r1" ∷ []) (codes "r1") ≡ true)
    × (finish_begun deps (codes "r1" ∷ []) (sign_begin deps [] other_raw)
        ≡ (codes "r1" ∷ codes "r1" ∷ [], signed other_response))
unfolding sign finish_begun sign_begin parse_sign_body straitsx.Contracts.Validation.parse_bytes32
    straitsx.Text.Hex.is_hex straitsx.Contracts.Validation.parse_address
    straitsx.Contracts.Validation.parse_uint straitsx.Text.BigInt.is_uint
    straitsx.Contracts.Validation.parse_chain_id straitsx.Contracts.Validation.is_supported_chain_id
    straitsx.Signer.Sign.begin_body straitsx.Text.BigInt.big_int straitsx.Signer.Sign.after_rail
    check_rail straitsx.Dict.get rail_config straitsx.Signer.Der.assert_scalar
    straitsx.Signer.Der.integer_content straitsx.Signer.Der.is_high_s straitsx.Signer.Der.nibbles
    normalise_s parse_signature_der straitsx.Signer.Der.read_integer straitsx.Signer.Der.read_length
    straitsx.Signer.Pipeline.address_from_uncompressed_point
    straitsx.Signer.Pipeline.build_typed_data build_x402_header
    straitsx.Signer.Pipeline.domain_matches straitsx.Signer.Pipeline.finish_signature
    straitsx.Signer.Pipeline.pack_signature65 straitsx.Signer.Pipeline.pad_start
    straitsx.Signer.Pipeline.recover_v straitsx.Signer.Pipeline.recover_v_from
    straitsx.Signer.Pipeline.recovers sign_digest_with_key_source straitsx.Signer.Pipeline.to_hex
    straitsx.Signer.Rail.check_entry straitsx.Signer.Rail.check_limits
    straitsx.Signer.Rail.parse_uint_as_big_int straitsx.Signer.Rail.refusal_status
    straitsx.Signer.Sign.digest_of straitsx.Signer.Sign.failure_outcome
    straitsx.Signer.Sign.finish_with has header_input rail_input sign_finish
    straitsx.Text.BigInt.all_digits straitsx.Text.BigInt.is_digit straitsx.Text.BigInt.number_in
    straitsx.Text.BigInt.trim straitsx.Text.Hex.hex_digits straitsx.Text.Hex.is_hex_digit
    straitsx.Text.lower straitsx.Text.lower_code straitsx.Text.present straitsx.Text.same
sign_finish-twice_example =
    sign_finish-twice deps [] (codes "r1" ∷ []) (codes "r1" ∷ []) raw other_raw body other_body
      response other_response refl refl refl refl refl
