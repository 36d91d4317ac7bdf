-- ===== src/Ledger/Lifecycle.antt =====
-- The life of one intent as a relation: what the ledger's routes may do to a stored record, with the
-- conditions under which they do it.
use straitsx.Prelude.{ℕ, ◌≡◌, Bool, true, false, none, some, arith, ◌∷◌, ◌⊎◌, is_some}
use straitsx.Text.{Text, present}
use straitsx.Contracts.Types.{X402Requirements}
use straitsx.Ledger.State.{
  Timestamp, IntentState, IntentRecord, Decision, signed, Settlement, Spend, Capture,
}
use straitsx.Ledger.Intents.{with_challenge, with_nonce, without_nonce, holds_nonce, is_signed}
use straitsx.Ledger.Outcomes.{DecisionBody, with_decision}

-- One mutation of a record.
pub data Evolves (i : IntentRecord) : IntentRecord → Type 0 where
  attach :
      (now : ℕ) (c : X402Requirements)
      → is_some i.challenge ≡ false
      → Evolves i (with_challenge now c i)
  reserve :
      (now : ℕ) (c : ℕ) (s : Text) → holds_nonce i ≡ false → Evolves i (with_nonce now (c ∷ s) i)
  release : is_signed i ≡ false → holds_nonce i ≡ true → Evolves i (without_nonce i)
  decide : (b : DecisionBody) (d : Decision) (t : Timestamp) → Evolves i (with_decision b d t i)
  settle :
      (s : Settlement) → Evolves i (record i { settlement = some s; state = IntentState.settled })
  capture :
      (c : Capture) (s : Settlement)
      → is_some i.capture ≡ false
      → i.settlement ≡ some s
      → c.settlement_tx ≡ s.settlement_tx
      → Evolves i (record i { capture = some c; state = IntentState.captured })
  spend : (s : Spend) → Evolves i (record i { spend = some s })

abbrev pub is_release : {i j : IntentRecord} → Evolves i j → Bool
is_release (release h k) = true
is_release (attach now c h) = false
is_release _ = false

-- What a stored intent never loses: the instruction as it was given, the first challenge attached
-- and the first capture recorded.
pub record Keeps (i j : IntentRecord) : Type 0 where
  pub request_id : j.request_id ≡ i.request_id
  pub mandate_id : j.mandate_id ≡ i.mandate_id
  pub agent_id : j.agent_id ≡ i.agent_id
  pub instruction : j.instruction ≡ i.instruction
  pub instruction_hash : j.instruction_hash ≡ i.instruction_hash
  pub created_at : j.created_at ≡ i.created_at
  pub challenge : (i.challenge ≡ none) ⊎ (j.challenge ≡ i.challenge)
  pub capture : (i.capture ≡ none) ⊎ (j.capture ≡ i.capture)

pub Keeps-refl : (i : IntentRecord) → Keeps i i
Keeps-refl i = ground arith

pub Keeps-trans : {i j k : IntentRecord} → Keeps i j → Keeps j k → Keeps i k
Keeps-trans p q = ground arith

pub Evolves-Keeps : {i j : IntentRecord} → Evolves i j → Keeps i j
unfolding with_challenge with_nonce without_nonce with_decision
Evolves-Keeps (attach now c h) = ground arith
Evolves-Keeps (reserve now c s h) = ground arith
Evolves-Keeps (release h k) = ground arith
Evolves-Keeps (decide b signed t) = ground arith
Evolves-Keeps (decide b d t) = ground arith
Evolves-Keeps (settle s) = ground arith
Evolves-Keeps (capture c s h k e) = ground arith
Evolves-Keeps (spend s) = ground arith

-- The bookkeeping that the routes maintain in every record.
pub record IsConsistent (i : IntentRecord) : Type 0 where
  pub attached : is_some i.challenge ≡ is_some i.challenge_attached_at
  pub reserved : is_some i.nonce ≡ is_some i.nonce_reserved_at
  pub released : (i.nonce_released ≡ false) ⊎ (i.nonce ≡ none)
  pub proper : present i.nonce ≡ i.nonce
  pub decided : is_some i.decision ≡ is_some i.decided_at
  pub in_reserved : i.state ≡ IntentState.nonce_reserved → is_some i.nonce ≡ true
  pub in_signed : i.state ≡ IntentState.signed → is_some i.decision ≡ true
  pub in_settled : i.state ≡ IntentState.settled → is_some i.settlement ≡ true
  pub in_captured : i.state ≡ IntentState.captured → is_some i.capture ≡ true
  pub captured_settled : is_some i.capture ≡ true → is_some i.settlement ≡ true

pub Evolves-IsConsistent : {i j : IntentRecord} → Evolves i j → IsConsistent i → IsConsistent j
unfolding with_challenge with_nonce without_nonce with_decision holds_nonce
Evolves-IsConsistent (attach now c h) k = ground arith
Evolves-IsConsistent (reserve now c s h) k = ground arith
Evolves-IsConsistent (release h e) k = ground arith
Evolves-IsConsistent (decide b signed t) k = ground arith
Evolves-IsConsistent (decide b d t) k = ground arith
Evolves-IsConsistent (settle s) k = ground arith
Evolves-IsConsistent (capture c s h e f) k = ground arith
Evolves-IsConsistent (spend s) k = ground arith
