-- ===== src/Ledger/Service.antt =====
-- services/ledger-service/src/app.ts: the routes that change the state, behind the token hook, and
-- a run of the service over a sequence of requests.
pub mod Changes
pub mod Failures
pub mod Logs
pub mod History
pub mod Consistent
use straitsx.Prelude.{ℕ, Bool, Option, none, some, List, [], ◌∷◌, if◌then◌else◌}
use straitsx.Text.{Text, same}
use straitsx.Contracts.Types.{X402Requirements, Mandate}
use straitsx.Ledger.State.{HumanDecision, Ledger, Reply, status}
use straitsx.Ledger.Intents.{
  CreateIntent, create_intent, attach_challenge, reserve_nonce, release_nonce,
}
use straitsx.Ledger.Outcomes.{
  DecisionBody, SettlementBody, CaptureBody, SpendBody, record_decision, record_settlement,
  record_capture, record_spend,
}
use straitsx.Ledger.Storage.{
  EscalationBody, put_policy, create_escalation, resolve_escalation, set_standing_approval,
}

-- The mutating routes; the others read the state and leave it.
pub data Request : Type 0 where
  post_intent : CreateIntent → Request
  post_challenge : Text → Option X402Requirements → Request
  post_nonce : Text → Option Text → Request
  post_release : Text → Request
  post_decision : DecisionBody → Request
  post_settlement : Text → SettlementBody → Request
  post_capture : Text → CaptureBody → Request
  post_spend : Text → SpendBody → Request
  put_policy_body : Text → Option Mandate → Request
  post_escalation : EscalationBody → Request
  put_escalation : Text → Option HumanDecision → Option Text → Request
  post_approval : Option Text → Option Text → Option ℕ → Request

-- A handler's result with the reply's status alone.
abbrev pub outcome {ℓ} : {A : Type ℓ} → Ledger × Reply A → Ledger × ℕ
outcome (l, reply) = (l, status reply)

module _ (hash_of : Text → Text) where
  unfoldable pub handle : ℕ → Request → Ledger → Ledger × ℕ
  handle now (post_intent body) l = outcome (create_intent hash_of now body l)
  handle now (post_challenge id body) l = outcome (attach_challenge now id body l)
  handle now (post_nonce id body) l = outcome (reserve_nonce now id body l)
  handle now (post_release id) l = outcome (release_nonce now id l)
  handle now (post_decision body) l = outcome (record_decision now body l)
  handle now (post_settlement id body) l = outcome (record_settlement now id body l)
  handle now (post_capture id body) l = outcome (record_capture now id body l)
  handle now (post_spend id body) l = outcome (record_spend now id body l)
  handle now (put_policy_body id body) l = outcome (put_policy now id body l)
  handle now (post_escalation body) l = outcome (create_escalation now body l)
  handle now (put_escalation id body by) l = outcome (resolve_escalation now id body by l)
  handle now (post_approval m d e) l = outcome (set_standing_approval now m d e l)

  -- The `onRequest` hook: a request without the internal token is answered 401.
  unfoldable pub serve : Text → Text → ℕ → Request → Ledger → Ledger × ℕ
  serve internal_token token now request l =
      if same token internal_token then handle now request l else (l, 401)

  -- The state after a sequence of requests, each with its time.
  unfoldable pub run : List (ℕ × Request) → Ledger → Ledger
  run [] l = l
  run ((now, request) ∷ rest) l = run rest (handle now request l).0
