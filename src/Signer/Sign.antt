-- ===== src/Signer/Sign.antt =====
-- services/signer-service/src/routes/sign.ts: POST /sign. The handler runs to the call of the key
-- source without a pause, and goes on when that has answered: it is a beginning and an end.
pub mod Guarantees
pub mod Replay
use straitsx.Prelude.{
  ℕ, Bool, true, false, ◌||◌, not, Option, none, some, List, [], ◌∷◌, if◌then◌else◌, ◌>>=◌, ℤ, pos,
}
use straitsx.Text.{Text, same, present, lower}
use straitsx.Text.BigInt.{big_int}
use straitsx.Dict.{Dict}
use straitsx.Contracts.Types.{X402Accepted, Extra, PinnedMandate, Authorization, Domain, TypedData}
use straitsx.Contracts.Validation.{
  parse_address, parse_bytes32, parse_mandate_id, parse_uint, parse_chain_id,
}
use straitsx.Signer.Rail.{
  RailInput, RailConfig, RailResult, passed, broken, refused, Refusal, refusal_status, check_rail,
}
use straitsx.Signer.Pipeline.{
  ExpectedDomain, domain_matches, build_typed_data, Backend, SignatureParts, X402Payload,
  HeaderInput, SignFailure, key_source_failed, Signature, produced, failure,
  sign_digest_with_key_source,
}

-- The fields of the body, each with none where it has another type than the parser asks for. The
-- chain ids are Number(chainId).
pub record RawSignBody : Type 0 where
  pub request_id : Option Text
  pub mandate_id : Option Text
  pub from : Option Text
  pub to : Option Text
  pub value : Option Text
  pub valid_after : Option ℕ
  pub valid_before : Option ℕ
  pub nonce : Option Text
  pub name : Option Text
  pub version : Option Text
  pub chain_id : Option ℕ
  pub verifying_contract : Option Text
  pub accepted_network : Option Text
  pub accepted_chain_id : Option ℕ
  pub accepted_amount : Option Text
  pub accepted_asset : Option Text
  pub accepted_pay_to : Option Text
  pub accepted_max_timeout_seconds : Option ℕ
  pub accepted_name : Option Text
  pub accepted_version : Option Text
  pub resource : Option Text
  pub x402_version : Option (Option ℕ)

pub record SignBody : Type 0 where
  pub request_id : Text
  pub mandate_id : Text
  pub typed_data : TypedData
  pub accepted : X402Accepted
  pub resource : Text
  pub x402_version : ℕ

-- rawVersion ?? X402_VERSION, after the test of its type; `some none` is a value that is not a number
abbrev version_or_default : Option (Option ℕ) → Option ℕ
version_or_default none = some 1
version_or_default (some n) = n

parse_message : RawSignBody → Option Authorization
parse_message raw = do
  from ← parse_address raw.from
  to ← parse_address raw.to
  value ← parse_uint raw.value
  valid_after ← raw.valid_after
  valid_before ← raw.valid_before
  nonce ← parse_bytes32 raw.nonce
  some (record {
    from = from;
    to = to;
    value = value;
    valid_after = valid_after;
    valid_before = valid_before;
    nonce = nonce;
  })

parse_domain : RawSignBody → Option Domain
unfolding present
parse_domain raw = do
  name ← present raw.name
  version ← present raw.version
  chain_id ← parse_chain_id raw.chain_id
  verifying_contract ← parse_address raw.verifying_contract
  some (record {
    name = name;
    version = version;
    chain_id = chain_id;
    verifying_contract = verifying_contract;
  })

parse_accepted : RawSignBody → Option X402Accepted
unfolding present
parse_accepted raw = do
  amount ← parse_uint raw.accepted_amount
  network ← present raw.accepted_network
  chain_id ← parse_chain_id raw.accepted_chain_id
  asset ← parse_address raw.accepted_asset
  pay_to ← parse_address raw.accepted_pay_to
  max_timeout_seconds ← raw.accepted_max_timeout_seconds
  name ← present raw.accepted_name
  version ← present raw.accepted_version
  some (record {
    network = network;
    chain_id = chain_id;
    amount = amount;
    asset = asset;
    pay_to = pay_to;
    max_timeout_seconds = max_timeout_seconds;
    extra = record { name = name; version = version };
  })

-- parseSignBody: none is the 400 that it throws
unfoldable pub parse_sign_body : RawSignBody → Option SignBody
unfolding parse_message parse_domain parse_accepted present
parse_sign_body raw = do
  request_id ← present raw.request_id
  mandate_id ← parse_mandate_id raw.mandate_id
  message ← parse_message raw
  domain ← parse_domain raw
  accepted ← parse_accepted raw
  resource ← present raw.resource
  x402_version ← version_or_default raw.x402_version
  some (record {
    request_id = request_id;
    mandate_id = mandate_id;
    typed_data = record { domain = domain; message = message };
    accepted = accepted;
    resource = resource;
    x402_version = x402_version;
  })

pub record SignDeps : Type 0 where
  pub backend : Backend
  pub signer_address : Text
  pub chain_id : ℕ
  pub expected_domain : ExpectedDomain
  pub pinned : Dict PinnedMandate

pub data SignCode : Type 0 where
  bad_request domain_mismatch kms_failed internal : SignCode
  rail : Refusal → SignCode

pub record SignResponse : Type 0 where
  pub request_id : Text
  pub header : X402Payload
  pub signature : SignatureParts
  pub signer_address : Text

pub data SignOutcome : Type 0 where
  signed : SignResponse → SignOutcome
  rejected : ℕ → SignCode → SignOutcome

-- seenRequestIds
abbrev pub Seen : Type 0
Seen = List Text

-- seenRequestIds.has(id)
unfoldable pub has : Seen → Text → Bool
has [] id = false
has (x ∷ xs) id = same x id || has xs id

unfoldable pub rail_config : SignDeps → Seen → RailConfig
rail_config deps seen = record {
  pinned = deps.pinned;
  signer_address = lower deps.signer_address;
  chain_id = deps.chain_id;
  has_seen_request_id = has seen;
}

unfoldable pub rail_input : SignBody → ℤ → RailInput
rail_input body value = record {
  mandate_id = body.mandate_id;
  from = body.typed_data.message.from;
  to = body.typed_data.message.to;
  value = value;
  valid_after = body.typed_data.message.valid_after;
  valid_before = body.typed_data.message.valid_before;
  chain_id = body.typed_data.domain.chain_id;
}

-- Where the synchronous part of the handler ends: with a reply, or at the call of the key source.
pub data Begun : Type 0 where
  stopped : ℕ → SignCode → Begun
  pending : SignBody → Begun

-- Steps 1 and 2: the rail, then the domain.
unfoldable pub after_rail : SignDeps → SignBody → RailResult → Begun
after_rail deps body (refused r) = stopped (refusal_status r) (rail r)
after_rail deps body broken = stopped 500 internal
after_rail deps body passed =
    if domain_matches body.typed_data.domain deps.expected_domain
    then pending body
    else stopped 403 domain_mismatch

unfoldable pub begin_body : SignDeps → Seen → SignBody → Begun
begin_body deps seen body = elim (big_int body.typed_data.message.value) [
  | none ↦ stopped 500 internal
  | some value ↦
      after_rail deps body
        (check_rail (rail_input body value) body.request_id (rail_config deps seen))
]

unfoldable pub sign_begin : SignDeps → Seen → RawSignBody → Begun
sign_begin deps seen raw = elim (parse_sign_body raw) [
  | none ↦ stopped 400 bad_request
  | some body ↦ begin_body deps seen body
]

unfoldable pub digest_of : SignDeps → SignBody → List ℕ
digest_of deps body = deps.backend.hash_typed_data (build_typed_data body.typed_data)

unfoldable pub header_input : SignBody → HeaderInput
header_input body = record {
  x402_version = body.x402_version;
  resource = body.resource;
  accepted = body.accepted;
  authorization = body.typed_data.message;
}

unfoldable pub failure_outcome : SignFailure → SignOutcome
failure_outcome key_source_failed = rejected 502 kms_failed
failure_outcome _ = rejected 500 internal

-- Step 4 follows a produced signature only.
unfoldable pub finish_with : SignDeps → SignBody → Seen → Signature → Seen × SignOutcome
unfolding failure_outcome
finish_with deps body seen (failure f) = (seen, failure_outcome f)
finish_with deps body seen (produced payload parts) = (
  body.request_id ∷ seen,
  signed (record {
    request_id = body.request_id;
    header = payload;
    signature = parts;
    signer_address = deps.signer_address;
  }),
)

-- Steps 3 and 4.
unfoldable pub sign_finish : SignDeps → SignBody → Seen → Seen × SignOutcome
sign_finish deps body seen = finish_with deps body seen (
    sign_digest_with_key_source deps.backend (digest_of deps body) deps.signer_address
      (header_input body))

unfoldable pub finish_begun : SignDeps → Seen → Begun → Seen × SignOutcome
finish_begun deps seen (stopped status code) = (seen, rejected status code)
finish_begun deps seen (pending body) = sign_finish deps body seen

-- POST /sign with no other request in between
unfoldable pub sign : SignDeps → Seen → RawSignBody → Seen × SignOutcome
sign deps seen raw = finish_begun deps seen (sign_begin deps seen raw)
