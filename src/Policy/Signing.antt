-- ===== src/Policy/Signing.antt =====
-- services/policy-service/src/signing.ts, typedData.ts and clients/: the reservation of the nonce and
-- the call of the signer. The ledger's routes are called in place; the signer's reply is a parameter.
use straitsx.Prelude.{ℕ, ◌+◌, ◌-◌, ◌/◌, Bool, Option, none, some, min, ◌++◌}
use straitsx.Text.{Text, codes}
use straitsx.Contracts.Types.{X402Requirements, X402Accepted, Mandate, TypedData}
use straitsx.Contracts.Mandate.{Keccak, Commitment, build_commitment_nonce}
use straitsx.Policy.Checks.{CheckName}
use straitsx.Ledger.State.{Ledger, Reply, sent, failed}
use straitsx.Ledger.Intents.{reserve_nonce, release_nonce}

pub record SignRequest : Type 0 where
  pub request_id : Text
  pub mandate_id : Text
  pub typed_data : TypedData
  pub accepted : X402Accepted
  pub resource : Text

-- signer.sign: the header, or the status and message of an error, or its exception where fetch or the
-- reading of a success throws
pub data SignResult : Type 0 where
  header : Text → SignResult
  sign_error : ℕ → Text → SignResult
  unreachable : SignResult

-- The configuration and the calls out of the service. `verify_message` is viem's, of an address, a
-- message and a signature, with none where it throws. `detail_of` is the wording of a check's failure,
-- which the source composes from the values that it compared.
pub record PolicyDeps : Type 0 where
  pub keccak : Keccak
  pub signer : SignRequest → SignResult
  pub paying_wallet : Text
  pub resource : Text
  pub max_sane_validity_seconds : ℕ
  pub escalation_ttl_seconds : ℕ
  pub dashboard_url : Text
  pub detail_of : CheckName → Text
  pub verify_message : Text → Text → Text → Option Bool

-- `broken` is the exception that buildCommitmentNonce or the client of the signer throws.
pub data SigningOutcome : Type 0 where
  done : Text → Text → ℕ → ℕ → SigningOutcome
  not_done : ℕ → Text → SigningOutcome
  broken : SigningOutcome

unfoldable pub build_typed_data :
    Text → Mandate → X402Requirements → Text → ℕ → ℕ → Text → TypedData
build_typed_data paying_wallet mandate challenge amount valid_after valid_before nonce = record {
  domain = record {
    name = challenge.extra.name;
    version = challenge.extra.version;
    chain_id = challenge.chain_id;
    verifying_contract = challenge.asset;
  };
  message = record {
    from = paying_wallet;
    to = mandate.settlement_recipient;
    value = amount;
    valid_after = valid_after;
    valid_before = valid_before;
    nonce = nonce;
  };
}

-- The challenge without its version.
unfoldable pub accepted_of : X402Requirements → X402Accepted
accepted_of challenge = record {
  network = challenge.network;
  chain_id = challenge.chain_id;
  amount = challenge.amount;
  asset = challenge.asset;
  pay_to = challenge.pay_to;
  max_timeout_seconds = challenge.max_timeout_seconds;
  extra = challenge.extra;
}

-- The arguments of performSigning that differ from call to call; `now` is in milliseconds, and the
-- source is called with the seconds of it, which are above 5.
pub record SigningJob : Type 0 where
  pub request_id : Text
  pub mandate_id : Text
  pub mandate : Mandate
  pub challenge : X402Requirements
  pub amount : Text
  pub policy_hash : Text
  pub intent_hash : Text
  pub merchant_domain : Text

unfoldable pub commitment_of : SigningJob → Commitment
commitment_of job = record {
  request_id = job.request_id;
  policy_hash = job.policy_hash;
  intent_hash = job.intent_hash;
  merchant_domain = job.merchant_domain;
}

unfoldable pub valid_after_of : ℕ → ℕ
valid_after_of now = now / 1000 - 5

unfoldable pub valid_before_of : ℕ → SigningJob → ℕ
valid_before_of now job =
    valid_after_of now + min job.mandate.max_auth_validity_seconds job.challenge.max_timeout_seconds

unfoldable pub sign_request : PolicyDeps → ℕ → SigningJob → Text → SignRequest
sign_request deps now job nonce = record {
  request_id = job.request_id;
  mandate_id = job.mandate_id;
  typed_data =
      build_typed_data deps.paying_wallet job.mandate job.challenge job.amount (valid_after_of now)
        (valid_before_of now job) nonce;
  accepted = accepted_of job.challenge;
  resource = deps.resource;
}

-- After the signer's reply: on an error the nonce is released; where the call throws it stays held.
unfoldable pub after_signer : ℕ → SigningJob → Text → Ledger → SignResult → Ledger × SigningOutcome
after_signer now job nonce l (header h) =
    (l, done h nonce (valid_after_of now) (valid_before_of now job))
after_signer now job nonce l (sign_error status message) =
    ((release_nonce now job.request_id l).0, not_done status message)
after_signer now job nonce l unreachable = (l, broken)

unfoldable pub after_reserve :
    PolicyDeps → ℕ → SigningJob → Text → Ledger → Reply Text → Ledger × SigningOutcome
after_reserve deps now job nonce l (failed status code) =
    (l, not_done 409 (codes "nonce reservation failed for " ++ job.request_id))
after_reserve deps now job nonce l (sent status reserved) =
    after_signer now job nonce l (deps.signer (sign_request deps now job nonce))

-- performSigning
unfoldable pub perform_signing : PolicyDeps → ℕ → SigningJob → Ledger → Ledger × SigningOutcome
perform_signing deps now job l = elim (build_commitment_nonce deps.keccak (commitment_of job)) [
  | none ↦ (l, broken)
  | some nonce ↦
      let step = reserve_nonce now job.request_id (some nonce) l in
      after_reserve deps now job nonce step.0 step.1
]
