-- ===== src/Policy/Resolve.antt =====
-- services/policy-service/src/app.ts: POST /escalation/:requestId/resolve.
pub mod Approved
pub mod Closed
pub mod Once
use straitsx.Prelude.{
  ℕ, ◌+◌, ◌/◌, Bool, true, false, ◌&&◌, not, Option, none, some, ◌++◌, ltb, if◌then◌else◌, is_some,
  ◌>>=◌,
}
use straitsx.Text.{Text, codes, same, lower, present}
use straitsx.Dict.{get}
use straitsx.Contracts.Types.{X402Requirements, Mandate}
use straitsx.Text.BigInt.Decimal.{to_decimal}
use straitsx.Contracts.Mandate.{hash_policy}
use straitsx.Ledger.State.{
  Decision, EscalationReason, intent_mismatch, window_budget_exceeded, HumanDecision, approve, deny,
  EscalationRecord, IntentRecord, Ledger,
}
use straitsx.Ledger.Outcomes.{record_decision}
use straitsx.Ledger.Storage.{resolve_escalation, set_standing_approval}
use straitsx.Policy.Checks.{escalation_denied}
use straitsx.Policy.Signing.{
  PolicyDeps, SigningJob, SigningOutcome, done, not_done, broken, perform_signing,
}
use straitsx.Policy.Answers.{
  PolicyCode, invalid_body, escalation_not_found, escalation_already_resolved, ttl_expired,
  policy_not_found, not_mandate_owner, escalation_signature_required, escalation_signature_invalid,
  challenge_not_found, merchant_domain_required, signing_failed, Answer, signed, refused, error,
  usable_domain, called, plain_decision, crashed, close,
}
use straitsx.Policy.Approval.{verify_escalation_signature}

-- escalation.reason === "INTENT_MISMATCH"
abbrev pub is_mismatch : EscalationReason → Bool
is_mismatch intent_mismatch = true
is_mismatch window_budget_exceeded = false

-- `merchant_window` is the test on the scope of standingApproval.
pub record ResolveBody : Type 0 where
  pub decision : Option HumanDecision
  pub approved_by : Option Text
  pub signature : Option Text
  pub merchant_window : Bool

-- The standing approval that a signature may leave behind.
unfoldable pub grant :
    ℕ → ResolveBody → EscalationRecord → Mandate → Answer → Ledger → Ledger × Answer
grant now body escalation mandate answer l =
    if body.merchant_window
      && (is_mismatch escalation.reason && is_some (present escalation.merchant_domain))
    then called
        (set_standing_approval now (some escalation.mandate_id) escalation.merchant_domain
          (some (now / 1000 + mandate.window_seconds)) l)
        (λ l'. (l', answer)) crashed
    else (l, answer)

unfoldable pub settle_approval :
    ℕ → ResolveBody → EscalationRecord → SigningJob → Ledger × SigningOutcome → Ledger × Answer
settle_approval now body escalation job (l, broken) = (l, crashed)
settle_approval now body escalation job (l, not_done status message) =
    close now job.request_id body.approved_by (codes "signer_refused") message
      (error status signing_failed) l
settle_approval now body escalation job (l, done header nonce valid_after valid_before) =
    called (resolve_escalation now job.request_id (some approve) body.approved_by l)
      (λ l'.
        called
          (record_decision now
            (record (plain_decision job.request_id Decision.signed now) {
              policy_hash = some job.policy_hash;
              merchant_domain = some job.merchant_domain;
              valid_after = some valid_after;
              valid_before = some valid_before;
            })
            l')
          (grant now body escalation job.mandate (signed header nonce)) crashed)
      crashed

unfoldable pub approval_job :
    PolicyDeps
    → Text
    → EscalationRecord
    → Mandate
    → X402Requirements
    → IntentRecord
    → Text
    → SigningJob
approval_job deps request_id escalation mandate challenge intent merchant_domain = record {
  request_id = request_id;
  mandate_id = escalation.mandate_id;
  mandate = mandate;
  challenge = challenge;
  amount = challenge.amount;
  policy_hash = hash_policy deps.keccak mandate;
  intent_hash = intent.instruction_hash;
  merchant_domain = merchant_domain;
}

-- `intentRecord?.challenge`
unfoldable pub challenged : Text → Ledger → Option (IntentRecord × X402Requirements)
challenged request_id l = do
  intent ← get request_id l.intents
  challenge ← intent.challenge
  some (intent, challenge)

-- The part after an approval is attributed to the owner.
unfoldable pub approve_escalation :
    PolicyDeps → ℕ → Text → ResolveBody → EscalationRecord → Mandate → Ledger → Ledger × Answer
approve_escalation deps now request_id body escalation mandate l = elim (challenged request_id l) [
  | none ↦ (l, error 404 challenge_not_found)
  | some (intent, challenge) ↦ elim (usable_domain escalation.merchant_domain) [
    | none ↦
        close now request_id body.approved_by (codes "precondition_merchant_domain")
          (codes
            "the escalation does not contain the merchant domain required to bind the authorization nonce")
          (error 422 merchant_domain_required) l
    | some merchant_domain ↦
        let job =
          approval_job deps request_id escalation mandate challenge intent merchant_domain in
        settle_approval now body escalation job (perform_signing deps now job l)
  ]
]

-- The two decisions of the owner.
unfoldable pub decide :
    PolicyDeps
    → ℕ
    → Text
    → ResolveBody
    → EscalationRecord
    → Mandate
    → HumanDecision
    → Ledger
    → Ledger × Answer
decide deps now request_id body escalation mandate deny l =
    close now request_id body.approved_by (codes "escalation_denied")
      (codes "human denied the escalated request") (refused escalation_denied) l
decide deps now request_id body escalation mandate approve l =
    approve_escalation deps now request_id body escalation mandate l

-- The claim and the proof that the owner of the mandate decided.
unfoldable pub authorise :
    PolicyDeps → Text → ResolveBody → EscalationRecord → Mandate → HumanDecision → Option PolicyCode
authorise deps request_id body escalation mandate decision = elim (present body.approved_by) [
  | none ↦ some not_mandate_owner
  | some approved_by ↦
      if not (same (lower approved_by) (lower mandate.owner))
      then some not_mandate_owner
      else elim (present body.signature) [
        | none ↦ some escalation_signature_required
        | some signature ↦
            if verify_escalation_signature deps request_id escalation.mandate_id decision signature
              mandate.owner
            then none
            else some escalation_signature_invalid
      ]
]

unfoldable pub resolve_open :
    PolicyDeps
    → ℕ
    → Text
    → ResolveBody
    → HumanDecision
    → EscalationRecord
    → Ledger
    → Ledger × Answer
resolve_open deps now request_id body decision escalation l =
    elim (get escalation.mandate_id l.policies) [
      | none ↦ (l, error 404 policy_not_found)
      | some found ↦ elim (authorise deps request_id body escalation found.policy decision) [
        | some code ↦ (l, error 403 code)
        | none ↦ decide deps now request_id body escalation found.policy decision l
      ]
    ]

unfoldable pub resolve_found :
    PolicyDeps
    → ℕ
    → Text
    → ResolveBody
    → HumanDecision
    → EscalationRecord
    → Ledger
    → Ledger × Answer
resolve_found deps now request_id body decision escalation l =
    if escalation.resolved
    then (l, error 409 escalation_already_resolved)
    else if ltb escalation.expires_at (now / 1000)
    then close now request_id none (codes "escalation_expired")
        (codes "escalation TTL of "
          ++ (to_decimal escalation.ttl_seconds ++ codes "s elapsed with no response; auto-denied"))
        (error 410 ttl_expired) l
    else resolve_open deps now request_id body decision escalation l

-- POST /escalation/:requestId/resolve
unfoldable pub resolve : PolicyDeps → ℕ → Text → ResolveBody → Ledger → Ledger × Answer
resolve deps now request_id body l = elim body.decision [
  | none ↦ (l, error 400 invalid_body)
  | some decision ↦ elim (get request_id l.escalations) [
    | none ↦ (l, error 404 escalation_not_found)
    | some escalation ↦ resolve_found deps now request_id body decision escalation l
  ]
]
