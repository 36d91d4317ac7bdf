-- ===== src/Policy/Answers.antt =====
-- services/policy-service/src/app.ts: the answers, and the ledger calls that its routes share.
use straitsx.Prelude.{ℕ, Option, none, some, if◌then◌else◌, is_some}
use straitsx.Text.{Text, present}
use straitsx.Text.BigInt.{trim}
use straitsx.Ledger.State.{instant, Decision, deny, EscalationRecord, Ledger, Reply, sent, failed}
use straitsx.Ledger.Outcomes.{DecisionBody, record_decision}
use straitsx.Ledger.Storage.{resolve_escalation}
use straitsx.Policy.Checks.{CheckName}

-- The `code` of an error; ttl_expired is ESCALATION_EXPIRED, and signing_failed stands for the signer's or the ledger's own.
pub data PolicyCode : Type 0 where
  invalid_body escalation_not_found escalation_already_resolved ttl_expired : PolicyCode
  policy_not_found not_mandate_owner escalation_signature_required : PolicyCode
  escalation_signature_invalid challenge_not_found merchant_domain_required : PolicyCode
  signing_failed internal_error : PolicyCode

pub data Answer : Type 0 where
  signed : Text → Text → Answer
  refused : CheckName → Answer
  escalated : EscalationRecord → Answer
  error : ℕ → PolicyCode → Answer

-- typeof merchantDomain === "string" && merchantDomain.trim().length > 0
unfoldable pub usable_domain : Option Text → Option Text
usable_domain none = none
usable_domain (some domain) = if is_some (present (some (trim domain))) then some domain else none

-- A call of the ledger that throws when the ledger does not answer with success.
unfoldable pub called {ℓ ℓ'} :
    {A : Type ℓ} {B : Type ℓ'} → Ledger × Reply A → (Ledger → Ledger × B) → B → Ledger × B
called (l, sent status a) next thrown = next l
called (l, failed status code) next thrown = (l, thrown)

abbrev pub plain_decision : Text → Decision → ℕ → DecisionBody
plain_decision request_id decision now = record {
  request_id = some request_id;
  decision = some decision;
  check = none;
  detail = none;
  decided_at = some (instant now);
  policy_hash = none;
  merchant_domain = none;
  valid_after = none;
  valid_before = none;
}

abbrev pub crashed : Answer
crashed = error 500 internal_error

-- resolveEscalationStorage as a denial, recordDecision as refused, and the answer
unfoldable pub close : ℕ → Text → Option Text → Text → Text → Answer → Ledger → Ledger × Answer
close now request_id approved_by check detail answer l =
    called (resolve_escalation now request_id (some deny) approved_by l)
      (λ l'.
        called
          (record_decision now
            (record (plain_decision request_id Decision.refused now) {
              check = some check;
              detail = some detail;
            })
            l')
          (λ l''. (l'', answer)) crashed)
      crashed
