-- ===== src/Ledger/Storage.antt =====
-- services/ledger-service/src/app.ts: raw storage of policies, escalations and standing approvals.
use straitsx.Prelude.{ℕ, suc, ◌+◌, ◌/◌, Bool, true, false, Option, none, some, ◌++◌, ltb, ◌>>=◌}
use straitsx.Text.{Text, codes, present, lower}
use straitsx.Dict.{get, put}
use straitsx.Contracts.Types.{Mandate}
use straitsx.Ledger.State.{
  instant, PolicyRecord, EscalationReason, HumanDecision, EscalationRecord, Ledger, LedgerEventKind,
  append_event, Reply, sent, failed, invalid_body, policy_not_found, escalation_not_found,
}

-- GET /policy/:mandateId
unfoldable pub read_policy : Text → Ledger → Reply PolicyRecord
read_policy mandate_id l = elim (get mandate_id l.policies) [
  | none ↦ failed 404 policy_not_found
  | some found ↦ sent 200 found
]

abbrev version_of : Option PolicyRecord → ℕ
version_of none = 0
version_of (some found) = found.policy_version

-- PUT /policy/:mandateId; the reply is the new version
unfoldable pub put_policy : ℕ → Text → Option Mandate → Ledger → Ledger × Reply ℕ
put_policy now mandate_id none l = (l, failed 400 invalid_body)
put_policy now mandate_id (some policy) l =
    let policy_version = version_of (get mandate_id l.policies) + 1 in
    (
      append_event now LedgerEventKind.policy_put none mandate_id none (record l {
        policies =
            put mandate_id (record { policy = policy; policy_version = policy_version }) l.policies;
      }),
      sent 200 policy_version,
    )

pub record EscalationBody : Type 0 where
  pub request_id : Option Text
  pub mandate_id : Option Text
  pub reason : Option EscalationReason
  pub approval_url : Option Text
  pub ttl_seconds : Option ℕ
  pub merchant_domain : Option Text

-- A number is falsy at 0.
unfoldable pub present_number : Option ℕ → Option ℕ
present_number (some (suc n)) = some (suc n)
present_number _ = none

unfoldable pub new_escalation : ℕ → EscalationBody → Option EscalationRecord
unfolding present present_number
new_escalation now body = do
  request_id ← present body.request_id
  mandate_id ← present body.mandate_id
  reason ← body.reason
  approval_url ← present body.approval_url
  ttl_seconds ← present_number body.ttl_seconds
  some (record {
    request_id = request_id;
    mandate_id = mandate_id;
    reason = reason;
    approval_url = approval_url;
    created_at = instant now;
    expires_at = now / 1000 + ttl_seconds;
    ttl_seconds = ttl_seconds;
    resolved = false;
    decision = none;
    approved_by = none;
    resolved_at = none;
    merchant_domain = body.merchant_domain;
  })

-- POST /escalation: a second call for a request gives back the escalation that is there.
unfoldable pub create_escalation : ℕ → EscalationBody → Ledger → Ledger × Reply EscalationRecord
create_escalation now body l = elim (new_escalation now body) [
  | none ↦ (l, failed 400 invalid_body)
  | some fresh ↦ elim (get fresh.request_id l.escalations) [
    | some existing ↦ (l, sent 200 existing)
    | none ↦ (
      append_event now LedgerEventKind.escalation_created (some fresh.request_id) fresh.mandate_id
          none (record l { escalations = put fresh.request_id fresh l.escalations }),
      sent 201 fresh,
    )
  ]
]

-- GET /escalation/:requestId
unfoldable pub read_escalation : Text → Ledger → Reply EscalationRecord
read_escalation request_id l = elim (get request_id l.escalations) [
  | none ↦ failed 404 escalation_not_found
  | some found ↦ sent 200 found
]

unfoldable pub resolved_with : ℕ → HumanDecision → Option Text → EscalationRecord → EscalationRecord
resolved_with now decision approved_by found = record found {
  resolved = true;
  decision = some decision;
  approved_by = approved_by;
  resolved_at = some (instant now);
}

-- PUT /escalation/:requestId
unfoldable pub resolve_escalation :
    ℕ → Text → Option HumanDecision → Option Text → Ledger → Ledger × Reply EscalationRecord
unfolding resolved_with
resolve_escalation now request_id body approved_by l = elim (get request_id l.escalations) [
  | none ↦ (l, failed 404 escalation_not_found)
  | some found ↦ elim body [
    | none ↦ (l, failed 400 invalid_body)
    | some decision ↦ (
      append_event now LedgerEventKind.escalation_resolved (some request_id) found.mandate_id none
          (record l {
            escalations =
                put request_id (resolved_with now decision approved_by found) l.escalations;
          }),
      sent 200 (resolved_with now decision approved_by found),
    )
  ]
]

-- `${mandateId}::${merchantDomain.toLowerCase()}`
unfoldable pub approval_key : Text → Text → Text
approval_key mandate_id merchant_domain = mandate_id ++ (codes "::" ++ lower merchant_domain)

approval_fields : Option Text → Option Text → Option ℕ → Option (Text × Text × ℕ)
approval_fields mandate_id merchant_domain expires_at = do
  mandate ← present mandate_id
  domain ← present merchant_domain
  expiry ← present_number expires_at
  some (mandate, domain, expiry)

-- POST /standing-approval
unfoldable pub set_standing_approval :
    ℕ → Option Text → Option Text → Option ℕ → Ledger → Ledger × Reply (Unit {0})
unfolding approval_fields present present_number approval_key
set_standing_approval now mandate_id merchant_domain expires_at l =
    elim (approval_fields mandate_id merchant_domain expires_at) [
      | none ↦ (l, failed 400 invalid_body)
      | some (mandate, domain, expiry) ↦ (
        append_event now LedgerEventKind.standing_approval_set none mandate none (record l {
          standing_approvals = put (approval_key mandate domain) expiry l.standing_approvals;
        }),
        sent 200 tt,
      )
    ]

-- `expiresAt !== undefined && expiresAt > Math.floor(Date.now() / 1000)`
unfoldable pub is_active : ℕ → Option ℕ → Bool
is_active now none = false
is_active now (some expires_at) = ltb (now / 1000) expires_at

query_fields : Option Text → Option Text → Option (Text × Text)
query_fields mandate_id merchant_domain = do
  mandate ← present mandate_id
  domain ← present merchant_domain
  some (mandate, domain)

-- GET /standing-approval; the reply is `active`
unfoldable pub read_standing_approval : ℕ → Option Text → Option Text → Ledger → Reply Bool
unfolding query_fields present is_active approval_key
read_standing_approval now mandate_id merchant_domain l =
    elim (query_fields mandate_id merchant_domain) [
      | none ↦ failed 400 invalid_body
      | some (mandate, domain) ↦
          sent 200 (is_active now (get (approval_key mandate domain) l.standing_approvals))
    ]
