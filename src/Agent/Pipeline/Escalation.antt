-- ===== src/Agent/Pipeline/Escalation.antt =====
-- services/agent-orchestrator/src/run/pipeline.ts: what ends an escalated run, resolveRunEscalation
-- and the timer's expireEscalation, with the client of POST /escalation/:requestId/resolve.
pub mod Resolved
pub mod Expired
use straitsx.Prelude.{ℕ, Bool, true, false, Option, none, some, ◌==◌, if◌then◌else◌}
use straitsx.Text.{Text, codes, truthy}
use straitsx.Ledger.State.{HumanDecision, approve, deny, Ledger}
use straitsx.Policy.Answers.{Answer, signed, refused, escalated, error}
use straitsx.Policy.Payment.{check_text}
use straitsx.Policy.Resolve.{ResolveBody, resolve}
use straitsx.Agent.Step.{Step, return, throw, modify, ◌>>=◌, ◌>>◌}
use straitsx.Agent.Run.{RunState, RunOutcome, RunRecord, set_run_state, set_outcome}
use straitsx.Agent.Pipeline.{
  PendingContext, World, Times, Services, Run, on_run, safe_failure, PolicyDecision, granted,
  denied, asked, PolicyReply, decided, thrown,
}
use straitsx.Agent.Pipeline.Execution.{continue_signed_run}

-- getRun(requestId)?.state === "ESCALATED"
unfoldable pub is_escalated : RunState → Bool
is_escalated RunState.escalated = true
is_escalated _ = false

-- The client's reading of the answer.
unfoldable pub resolve_reply : Answer → PolicyReply
unfolding check_text
resolve_reply (signed header nonce) = if truthy header then decided (granted header) else thrown 502
resolve_reply (refused check) = decided (denied (check_text check))
resolve_reply (escalated e) = thrown 502
resolve_reply (error status code) = thrown status

-- The entries of both maps are deleted.
abbrev pub forget : World → World
forget w = record w { pending = none; timer = none }

-- finalizeExpiredEscalation
unfoldable pub finalize_expired_escalation : World → World
unfolding set_outcome set_run_state
finalize_expired_escalation w = record (forget w) {
  run =
      set_run_state RunState.refused
        (set_outcome (RunOutcome.refused (codes "escalation_expired")) w.run);
}

-- The branch of expireEscalation in which the denial may not have been recorded.
unfoldable pub expiry_failed : World → World
unfolding safe_failure
expiry_failed w = (safe_failure false (forget w)).0

module _ (services : Services) (request_id : Text) where
  -- policy.resolveEscalation
  abbrev pub ask_policy : ℕ → ResolveBody → Ledger → Ledger × Answer
  ask_policy now body l = resolve services.policy now request_id body l

  -- The end of expireEscalation, by the reply.
  unfoldable pub expired_with : World → PolicyReply → World
  unfolding finalize_expired_escalation expiry_failed
  expired_with w (decided decision) = finalize_expired_escalation w
  expired_with w (thrown status) =
      if status == 410 then finalize_expired_escalation w else expiry_failed w

  -- { decision: "deny" }
  abbrev pub timer_body : ResolveBody
  timer_body = record {
    decision = some deny;
    approved_by = none;
    signature = none;
    merchant_window = false;
  }

  -- expireEscalation
  unfoldable pub expire_escalation : ℕ → World → World
  unfolding is_escalated expired_with resolve_reply
  expire_escalation now w =
      if is_escalated w.run.state
      then expired_with (record w { ledger = (ask_policy now timer_body w.ledger).0 })
          (resolve_reply (ask_policy now timer_body w.ledger).1)
      else w

  module _ (times : Times) where
    -- getRun(requestId)?.state
    abbrev pub final_state : Run RunState
    final_state w = (w, some w.run.state)

    -- The rest of resolveRunEscalation, by the reply.
    unfoldable pub with_reply : PendingContext → PolicyReply → Run RunState
    unfolding finalize_expired_escalation set_run_state set_outcome continue_signed_run
    with_reply context (thrown status) w =
        if status == 410 then (finalize_expired_escalation w, some RunState.refused) else (w, none)
    with_reply context (decided (granted header)) w =
        (do
          modify forget
          on_run (set_run_state RunState.running)
          on_run (set_outcome (RunOutcome.checkout_pending (codes "pending") (codes "pending")))
          continue_signed_run services times request_id context header
          final_state)
          w
    with_reply context (decided (denied check)) w =
        (do
          modify forget
          on_run (set_outcome (RunOutcome.refused check))
          on_run (set_run_state RunState.refused)
          final_state)
          w
    with_reply context (decided (asked reason expires_at)) w = (forget w, none)

    -- `!context || getRun(requestId)?.state !== "ESCALATED"` throws.
    unfoldable pub resolve_waiting : ℕ → ResolveBody → Option PendingContext → Bool → Run RunState
    unfolding resolve_reply with_reply
    resolve_waiting now body (some context) true w =
        with_reply context (resolve_reply (ask_policy now body w.ledger).1)
          (record w { ledger = (ask_policy now body w.ledger).0 })
    resolve_waiting now body _ _ w = (w, none)

    -- resolveRunEscalation
    unfoldable pub resolve_run_escalation : ℕ → ResolveBody → Run RunState
    unfolding is_escalated resolve_waiting
    resolve_run_escalation now body w =
        resolve_waiting now body w.pending (is_escalated w.run.state) w
