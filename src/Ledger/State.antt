-- ===== src/Ledger/State.antt =====
-- services/ledger-service/src/store.ts: the records that the ledger keeps, and the reply of a route.
-- A timestamp string is kept as the instant that `Date.parse` reads from it, in milliseconds, or as
-- the text that it cannot read.
use straitsx.Prelude.{ℕ, suc, Bool, ◌&&◌, not, Option, none, some, List, [], ◌∷◌, ◌++◌, is_some}
use straitsx.Text.{Text, present}
use straitsx.Dict.{Dict, put}
use straitsx.Contracts.Types.{X402Requirements, Mandate}

pub data Timestamp : Type 0 where
  instant : ℕ → Timestamp
  unparsable : Text → Timestamp

-- Date.parse(s), with `none` for NaN
abbrev pub parse_date : Timestamp → Option ℕ
parse_date (instant t) = some t
parse_date (unparsable s) = none

pub data IntentState : Type 0 where
  intent_created challenge_attached nonce_reserved signed settled captured : IntentState

pub data Decision : Type 0 where
  signed refused escalated : Decision

pub record Settlement : Type 0 where
  pub settlement_tx : Text
  pub block_number : ℕ
  pub card_opaque_id : Text
  pub raw_tool_result_hash : Option Text

pub record Spend : Type 0 where
  pub merchant_domain : Text
  pub order_total : Text
  pub item_sku : Text
  pub order_id : Text
  pub observed_at : Timestamp

pub record Capture : Type 0 where
  pub order_id : Text
  pub captured_at : Timestamp
  pub settlement_tx : Text
  pub block_number : ℕ

-- `nonce_released` is false where the source has undefined or false, which it reads alike.
pub record IntentRecord : Type 0 where
  pub request_id : Text
  pub mandate_id : Text
  pub agent_id : Text
  pub instruction : Text
  pub instruction_hash : Text
  pub created_at : Timestamp
  pub challenge : Option X402Requirements
  pub challenge_attached_at : Option Timestamp
  pub nonce : Option Text
  pub nonce_reserved_at : Option Timestamp
  pub nonce_released : Bool
  pub decision : Option Decision
  pub decided_at : Option Timestamp
  pub policy_hash : Option Text
  pub merchant_domain : Option Text
  pub valid_after : Option ℕ
  pub valid_before : Option ℕ
  pub settlement : Option Settlement
  pub spend : Option Spend
  pub capture : Option Capture
  pub state : IntentState

pub record DecisionLogEntry : Type 0 where
  pub sequence : ℕ
  pub request_id : Text
  pub decision : Decision
  pub check : Option Text
  pub detail : Option Text
  pub decided_at : Timestamp

pub record PolicyRecord : Type 0 where
  pub policy : Mandate
  pub policy_version : ℕ

pub data EscalationReason : Type 0 where
  window_budget_exceeded intent_mismatch : EscalationReason

pub data HumanDecision : Type 0 where
  approve deny : HumanDecision

pub record EscalationRecord : Type 0 where
  pub request_id : Text
  pub mandate_id : Text
  pub reason : EscalationReason
  pub approval_url : Text
  pub created_at : Timestamp
  pub expires_at : ℕ
  pub ttl_seconds : ℕ
  pub resolved : Bool
  pub decision : Option HumanDecision
  pub approved_by : Option Text
  pub resolved_at : Option Timestamp
  pub merchant_domain : Option Text

pub data LedgerEventKind : Type 0 where
  intent_created challenge_attached nonce_reserved nonce_released : LedgerEventKind
  decision_recorded settlement_recorded spend_recorded capture_recorded : LedgerEventKind
  escalation_created escalation_resolved policy_put standing_approval_set : LedgerEventKind

-- The part of the payment requirements that the views and the receipt show.
pub record ChallengeView : Type 0 where
  pub pay_to : Text
  pub asset : Text
  pub chain_id : ℕ
  pub amount : Text

pub record IntentView : Type 0 where
  pub request_id : Text
  pub mandate_id : Text
  pub agent_id : Text
  pub instruction : Text
  pub instruction_hash : Text
  pub created_at : Timestamp
  pub state : IntentState
  pub decision : Option Decision
  pub decided_at : Option Timestamp
  pub policy_hash : Option Text
  pub merchant_domain : Option Text
  pub challenge : Option ChallengeView
  pub nonce : Option Text
  pub nonce_reserved : Bool
  pub settlement : Option (Text × ℕ × Text)
  pub spend : Option Spend
  pub capture : Option Capture

abbrev pub challenge_view_of : Option X402Requirements → Option ChallengeView
challenge_view_of none = none
challenge_view_of (some c) =
    some (record { pay_to = c.pay_to; asset = c.asset; chain_id = c.chain_id; amount = c.amount })

abbrev settlement_view_of : Option Settlement → Option (Text × ℕ × Text)
settlement_view_of none = none
settlement_view_of (some s) = some (s.settlement_tx, s.block_number, s.card_opaque_id)

-- intentViewOf
unfoldable pub intent_view_of : IntentRecord → IntentView
unfolding present
intent_view_of intent = record {
  request_id = intent.request_id;
  mandate_id = intent.mandate_id;
  agent_id = intent.agent_id;
  instruction = intent.instruction;
  instruction_hash = intent.instruction_hash;
  created_at = intent.created_at;
  state = intent.state;
  decision = intent.decision;
  decided_at = intent.decided_at;
  policy_hash = present intent.policy_hash;
  merchant_domain = present intent.merchant_domain;
  challenge = challenge_view_of intent.challenge;
  nonce = intent.nonce;
  nonce_reserved = is_some intent.nonce && not intent.nonce_released;
  settlement = settlement_view_of intent.settlement;
  spend = intent.spend;
  capture = intent.capture;
}

-- An event of the live feed. The fields of a payload that only repeat the request are left out.
pub record LedgerAppendEvent : Type 0 where
  pub seq : ℕ
  pub kind : LedgerEventKind
  pub at : Timestamp
  pub request_id : Option Text
  pub mandate_id : Text
  pub intent : Option IntentView

-- `events` is all that `ledgerEvents` has emitted, in order.
pub record Ledger : Type 0 where
  pub intents : Dict IntentRecord
  pub decision_log : List DecisionLogEntry
  pub policies : Dict PolicyRecord
  pub escalations : Dict EscalationRecord
  pub standing_approvals : Dict ℕ
  pub event_seq : ℕ
  pub events : List LedgerAppendEvent

abbrev pub empty : Ledger
empty = record {
  intents = [];
  decision_log = [];
  policies = [];
  escalations = [];
  standing_approvals = [];
  event_seq = 0;
  events = [];
}

-- appendEvent, with nextLedgerEventSeq
unfoldable pub append_event :
    ℕ → LedgerEventKind → Option Text → Text → Option IntentView → Ledger → Ledger
append_event now kind request_id mandate_id intent l = record l {
  event_seq = suc l.event_seq;
  events =
      l.events
      ++ record {
        seq = suc l.event_seq;
        kind = kind;
        at = instant now;
        request_id = request_id;
        mandate_id = mandate_id;
        intent = intent;
      }
        ∷ [];
}

-- A route's mutation of the intent under `request_id`, and the event that shows it.
unfoldable pub save_intent : ℕ → LedgerEventKind → Text → IntentRecord → Ledger → Ledger
unfolding append_event intent_view_of
save_intent now kind request_id intent l =
    append_event now kind (some request_id) intent.mandate_id (some (intent_view_of intent))
      (record l { intents = put request_id intent l.intents })

-- The `code` of the error envelope; `internal_error` is the reply to an exception.
pub data Code : Type 0 where
  unauthorized invalid_body intent_exists intent_not_found challenge_exists : Code
  nonce_already_reserved nonce_burned nonce_not_reserved policy_not_found : Code
  escalation_not_found capture_exists settlement_not_recorded settlement_mismatch : Code
  internal_error : Code

-- reply.code(n).send(body), and sendError(reply, n, code, …) without its message.
pub data Reply {ℓ} (A : Type ℓ) : Type ℓ where
  sent : ℕ → A → Reply A
  failed : ℕ → Code → Reply A

unfoldable pub status {ℓ} : {A : Type ℓ} → Reply A → ℕ
status (sent n a) = n
status (failed n c) = n
