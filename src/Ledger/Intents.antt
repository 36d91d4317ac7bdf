-- ===== src/Ledger/Intents.antt =====
-- services/ledger-service/src/app.ts: POST /intent, its challenge, and the nonce's reservation and
-- release. Each handler has the time in milliseconds and the state, and returns state and reply.
use straitsx.Prelude.{
  ℕ, Bool, true, false, ◌&&◌, not, Option, none, some, if◌then◌else◌, is_some, ◌>>=◌,
}
use straitsx.Text.{Text, present, truthy}
use straitsx.Dict.{get}
use straitsx.Contracts.Types.{X402Requirements}
use straitsx.Ledger.State.{
  Timestamp, instant, unparsable, IntentState, IntentRecord, signed, Ledger, LedgerEventKind,
  save_intent, Reply, sent, failed, invalid_body, intent_exists, intent_not_found, challenge_exists,
  nonce_already_reserved, nonce_burned, nonce_not_reserved,
}

-- The string of a timestamp field is falsy when it is absent or empty.
unfoldable pub present_time : Option Timestamp → Option Timestamp
present_time none = none
present_time (some (instant t)) = some (instant t)
present_time (some (unparsable s)) = if truthy s then some (unparsable s) else none

pub record CreateIntent : Type 0 where
  pub request_id : Option Text
  pub mandate_id : Option Text
  pub agent_id : Option Text
  pub instruction : Option Text
  pub created_at : Option Timestamp

-- The record that a body with all five fields gives.
unfoldable pub new_intent : (Text → Text) → CreateIntent → Option IntentRecord
unfolding present present_time
new_intent hash_of body = do
  request_id ← present body.request_id
  mandate_id ← present body.mandate_id
  agent_id ← present body.agent_id
  instruction ← present body.instruction
  created_at ← present_time body.created_at
  some (record {
    request_id = request_id;
    mandate_id = mandate_id;
    agent_id = agent_id;
    instruction = instruction;
    instruction_hash = hash_of instruction;
    created_at = created_at;
    challenge = none;
    challenge_attached_at = none;
    nonce = none;
    nonce_reserved_at = none;
    nonce_released = false;
    decision = none;
    decided_at = none;
    policy_hash = none;
    merchant_domain = none;
    valid_after = none;
    valid_before = none;
    settlement = none;
    spend = none;
    capture = none;
    state = IntentState.intent_created;
  })

-- POST /intent; `hash_of` is `instructionHashOf`
unfoldable pub create_intent :
    (Text → Text) → ℕ → CreateIntent → Ledger → Ledger × Reply IntentRecord
create_intent hash_of now body l = elim (new_intent hash_of body) [
  | none ↦ (l, failed 400 invalid_body)
  | some intent ↦
      if is_some (get intent.request_id l.intents) then (l, failed 409 intent_exists) else (
        save_intent now LedgerEventKind.intent_created intent.request_id intent l,
        sent 201 intent,
      )
]

-- A handler on a stored intent, with the 404 that all of them share.
unfoldable pub on_intent {ℓ} :
    {A : Type ℓ} → Text → (IntentRecord → Ledger → Ledger × Reply A) → Ledger → Ledger × Reply A
on_intent request_id handler l = elim (get request_id l.intents) [
  | none ↦ (l, failed 404 intent_not_found)
  | some intent ↦ handler intent l
]

-- GET /intent/:requestId
unfoldable pub read_intent : Text → Ledger → Reply IntentRecord
read_intent request_id l = elim (get request_id l.intents) [
  | none ↦ failed 404 intent_not_found
  | some intent ↦ sent 200 intent
]

unfoldable pub with_challenge : ℕ → X402Requirements → IntentRecord → IntentRecord
with_challenge now challenge intent = record intent {
  challenge = some challenge;
  challenge_attached_at = some (instant now);
  state = IntentState.challenge_attached;
}

unfoldable pub attach_to :
    ℕ → Text → Option X402Requirements → IntentRecord → Ledger → Ledger × Reply Timestamp
attach_to now request_id none intent l = (l, failed 400 invalid_body)
attach_to now request_id (some challenge) intent l =
    if is_some intent.challenge then (l, failed 409 challenge_exists) else (
      save_intent now LedgerEventKind.challenge_attached request_id
          (with_challenge now challenge intent) l,
      sent 200 (instant now),
    )

-- POST /intent/:requestId/challenge
unfoldable pub attach_challenge :
    ℕ → Text → Option X402Requirements → Ledger → Ledger × Reply Timestamp
unfolding on_intent with_challenge attach_to
attach_challenge now request_id body = on_intent request_id (attach_to now request_id body)

-- `intent.nonce && !intent.nonceReleased`
unfoldable pub holds_nonce : IntentRecord → Bool
unfolding present
holds_nonce intent = is_some (present intent.nonce) && not intent.nonce_released

unfoldable pub with_nonce : ℕ → Text → IntentRecord → IntentRecord
with_nonce now nonce intent = record intent {
  nonce = some nonce;
  nonce_reserved_at = some (instant now);
  nonce_released = false;
  state = IntentState.nonce_reserved;
}

unfoldable pub reserve_on : ℕ → Text → Option Text → IntentRecord → Ledger → Ledger × Reply Text
unfolding present
reserve_on now request_id body intent l = elim (present body) [
  | none ↦ (l, failed 400 invalid_body)
  | some nonce ↦ if holds_nonce intent then (l, failed 409 nonce_already_reserved) else (
    save_intent now LedgerEventKind.nonce_reserved request_id (with_nonce now nonce intent) l,
    sent 200 nonce,
  )
]

-- POST /intent/:requestId/nonce
unfoldable pub reserve_nonce : ℕ → Text → Option Text → Ledger → Ledger × Reply Text
unfolding on_intent with_nonce holds_nonce reserve_on
reserve_nonce now request_id body = on_intent request_id (reserve_on now request_id body)

abbrev pub is_signed : IntentRecord → Bool
is_signed intent = elim intent.decision [ some signed ↦ true | _ ↦ false ]

unfoldable pub without_nonce : IntentRecord → IntentRecord
without_nonce intent = record intent {
  nonce_released = true;
  nonce = none;
  nonce_reserved_at = none;
  state = IntentState.challenge_attached;
}

unfoldable pub release_on : ℕ → Text → IntentRecord → Ledger → Ledger × Reply (Unit {0})
release_on now request_id intent l =
    if is_signed intent
    then (l, failed 409 nonce_burned)
    else if not (holds_nonce intent)
    then (l, failed 400 nonce_not_reserved)
    else (
      save_intent now LedgerEventKind.nonce_released request_id (without_nonce intent) l,
      sent 200 tt,
    )

-- POST /intent/:requestId/release-nonce
unfoldable pub release_nonce : ℕ → Text → Ledger → Ledger × Reply (Unit {0})
unfolding on_intent without_nonce holds_nonce release_on
release_nonce now request_id = on_intent request_id (release_on now request_id)
