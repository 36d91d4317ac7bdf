-- ===== src/Ledger/Service/Failures.antt =====
-- Errors: a request that is refused changes nothing, and the service answers nothing but the
-- statuses of its routes.
use straitsx.Prelude.{ℕ, ◌≤◌, ◌≡◌, arith}
use straitsx.Text.{Text}
use straitsx.Ledger.State.{Ledger, status}
use straitsx.Ledger.Intents.{create_intent, attach_challenge, reserve_nonce, release_nonce}
use straitsx.Ledger.Outcomes.{record_decision, record_settlement, record_capture, record_spend}
use straitsx.Ledger.Storage.{
  put_policy, create_escalation, resolve_escalation, set_standing_approval,
}
use straitsx.Ledger.Service.{
  Request, post_intent, post_challenge, post_nonce, post_release, post_decision, post_settlement,
  post_capture, post_spend, put_policy_body, post_escalation, put_escalation, post_approval, handle,
}

module _ (hash_of : Text → Text) where
  -- A reply of 400 or more leaves the ledger, its log and its events exactly as they were.
  pub handle_failed :
      (now : ℕ) (q : Request) (l : Ledger)
      → 400 ≤ (handle hash_of now q l).1
      → (handle hash_of now q l).0 ≡ l
  unfolding handle status
  handle_failed now (post_intent b) l h = unfold create_intent in ground arith
  handle_failed now (post_challenge r b) l h = unfold attach_challenge in ground arith
  handle_failed now (post_nonce r b) l h = unfold reserve_nonce in ground arith
  handle_failed now (post_release r) l h = unfold release_nonce in ground arith
  handle_failed now (post_decision b) l h = unfold record_decision in ground arith
  handle_failed now (post_settlement r b) l h = unfold record_settlement in ground arith
  handle_failed now (post_capture r b) l h = unfold record_capture in ground arith
  handle_failed now (post_spend r b) l h = unfold record_spend in ground arith
  handle_failed now (put_policy_body m b) l h = unfold put_policy in ground arith
  handle_failed now (post_escalation b) l h = unfold create_escalation in ground arith
  handle_failed now (put_escalation r d by) l h = unfold resolve_escalation in ground arith
  handle_failed now (post_approval m d e) l h = unfold set_standing_approval in ground arith
