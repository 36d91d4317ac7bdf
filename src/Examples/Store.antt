-- ===== src/Examples/Store.antt =====
-- The ledger's theorems on a store with one intent.
use straitsx.Prelude.{ℕ, ◌≡◌, refl, false, some, none, List, [], ◌∷◌, ◌++◌, arith, pos, ◌+ℤ◌}
use straitsx.Text.{Text, codes}
use straitsx.Dict.{get, put}
use straitsx.Contracts.Types.{X402Requirements}
use straitsx.Ledger.State.{
  instant, IntentState, Decision, signed, refused, IntentRecord, Ledger, empty,
}
use straitsx.Ledger.Intents.{CreateIntent}
use straitsx.Ledger.Outcomes.{DecisionBody, record_decision}
use straitsx.Ledger.Lifecycle.{Keeps}
use straitsx.Ledger.Window.Decisions.{usage, usage-signed, usage-refused}
use straitsx.Ledger.Service.{
  Request, post_intent, post_nonce, post_release, post_decision, handle, run,
}
use straitsx.Ledger.Service.Changes.{Change, handle-Change}
use straitsx.Ledger.Service.Failures.{handle_failed}
use straitsx.Ledger.Service.Logs.{IsNumbered, run-IsNumbered}
use straitsx.Ledger.Service.History.{
  HoldsNonce, run-Keeps, run-HoldsNonce, handle-HoldsNonce_signed,
}
use straitsx.Ledger.Service.Consistent.{IsWellKept, run-IsValid}

abbrev hash_of : Text → Text
hash_of s = codes "0x" ++ s

abbrev body : CreateIntent
body = record {
  request_id = some (codes "r1");
  mandate_id = some (codes "m1");
  agent_id = some (codes "a1");
  instruction = some (codes "shoes");
  created_at = some (instant 1000);
}

abbrev challenge : X402Requirements
challenge = record {
  x402_version = 1;
  network = codes "xsgd";
  chain_id = 43113;
  amount = codes "7";
  asset = codes "0xa";
  pay_to = codes "0xb";
  max_timeout_seconds = 60;
  extra = record { name = codes "XSGD"; version = codes "2" };
}

abbrev fresh : IntentRecord
fresh = record {
  request_id = codes "r1";
  mandate_id = codes "m1";
  agent_id = codes "a1";
  instruction = codes "shoes";
  instruction_hash = codes "0xshoes";
  created_at = instant 1000;
  challenge = none;
  challenge_attached_at = none;
  nonce = none;
  nonce_reserved_at = none;
  nonce_released = false;
  decision = none;
  decided_at = none;
  policy_hash = none;
  merchant_domain = none;
  valid_after = none;
  valid_before = none;
  settlement = none;
  spend = none;
  capture = none;
  state = IntentState.intent_created;
}

abbrev reserved : IntentRecord
reserved = record fresh {
  challenge = some challenge;
  challenge_attached_at = some (instant 1100);
  nonce = some (codes "0x1");
  nonce_reserved_at = some (instant 1200);
  state = IntentState.nonce_reserved;
}

abbrev approved : IntentRecord
approved = record reserved {
  decision = some signed;
  decided_at = some (instant 1300);
  state = IntentState.signed;
}

abbrev store_of : IntentRecord → Ledger
store_of intent = record empty { intents = (codes "r1", intent) ∷ [] }

abbrev decision : Decision → DecisionBody
decision d = record {
  request_id = some (codes "r1");
  decision = some d;
  check = none;
  detail = none;
  decided_at = some (instant 1300);
  policy_hash = none;
  merchant_domain = none;
  valid_after = none;
  valid_before = none;
}

abbrev requests : List (ℕ × Request)
requests = (1050, post_intent body) ∷ (1400, post_decision (decision refused)) ∷ []

handle-Change_example :
    Change hash_of (post_intent body) empty (handle hash_of 1050 (post_intent body) empty).0
handle-Change_example = handle-Change hash_of 1050 (post_intent body) empty

run-IsNumbered_example : IsNumbered (run hash_of requests empty)
run-IsNumbered_example = run-IsNumbered hash_of requests

run-IsValid_example : IsWellKept hash_of (codes "r1") fresh
unfolding get run handle straitsx.Ledger.Intents.create_intent straitsx.Ledger.Intents.new_intent
    straitsx.Ledger.State.save_intent put straitsx.Text.same
run-IsValid_example = run-IsValid hash_of ((1050, post_intent body) ∷ []) (codes "r1") fresh refl

run-Keeps_example :
    (j : IntentRecord) × (get (codes "r1") (run hash_of requests (store_of reserved)).intents
      ≡ some j)
    × Keeps reserved j
unfolding get straitsx.Text.same
run-Keeps_example = run-Keeps hash_of requests (store_of reserved) (codes "r1") reserved refl

run-HoldsNonce_example :
    (j : IntentRecord) × (get (codes "r1") (run hash_of requests (store_of reserved)).intents
      ≡ some j)
    × HoldsNonce (codes "0x1") j
unfolding get straitsx.Text.same HoldsNonce straitsx.Ledger.Intents.holds_nonce
run-HoldsNonce_example =
    run-HoldsNonce hash_of requests (store_of reserved) (codes "r1") (codes "0x1") reserved refl
      (refl, refl) ((λ h. cc h), ((λ h. cc h), tt))

handle-HoldsNonce_signed_example :
    (j : IntentRecord) × (get
        (codes "r1")
        (handle hash_of 1500 (post_release (codes "r1")) (store_of approved)).0.intents
      ≡ some j)
    × HoldsNonce (codes "0x1") j
unfolding get straitsx.Text.same HoldsNonce straitsx.Ledger.Intents.holds_nonce
handle-HoldsNonce_signed_example =
    handle-HoldsNonce_signed hash_of 1500 (post_release (codes "r1")) (store_of approved)
      (codes "r1") (codes "0x1") approved refl refl (refl, refl)

handle_failed_example :
    (handle hash_of 1500 (post_nonce (codes "r1") (some (codes "0x2"))) (store_of reserved)).0
    ≡ store_of reserved
unfolding handle straitsx.Ledger.State.status straitsx.Ledger.Intents.reserve_nonce get
    straitsx.Text.same
handle_failed_example =
    handle_failed hash_of 1500 (post_nonce (codes "r1") (some (codes "0x2"))) (store_of reserved)
      (omega arith)

usage-signed_example :
    usage (codes "m1") 2000 86400 (record_decision 1500 (decision signed) (store_of reserved)).0
    ≡ some (pos 0 +ℤ pos 7, 1)
unfolding get straitsx.Ledger.Outcomes.decision_fields straitsx.Text.present
    straitsx.Ledger.Intents.present_time straitsx.Text.same straitsx.Ledger.Window.before_window
    straitsx.Text.BigInt.big_int straitsx.Ledger.Window.usage_from straitsx.Ledger.Window.counted
usage-signed_example =
    usage-signed (codes "m1") 1500 2000 86400 (decision signed) (store_of reserved) (codes "r1")
      (instant 1300) reserved challenge (pos 7) (pos 0) 0 refl refl refl refl refl refl refl refl

usage-refused_example : usage (codes "m1") 2000 86400 (store_of approved) ≡ some (pos 0 +ℤ pos 7, 1)
unfolding get straitsx.Ledger.Outcomes.decision_fields straitsx.Text.present
    straitsx.Ledger.Intents.present_time straitsx.Text.same straitsx.Ledger.Window.counted
    straitsx.Text.BigInt.big_int straitsx.Ledger.Window.usage_from record_decision
    straitsx.Ledger.State.save_intent put straitsx.Ledger.Outcomes.with_decision
usage-refused_example =
    usage-refused (codes "m1") 1500 2000 86400 (decision refused) (store_of approved) (codes "r1")
      (instant 1300) approved (pos 7) (pos 0) 0 refl refl (challenge, refl, refl) refl
