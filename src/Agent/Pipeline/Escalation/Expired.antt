-- ===== src/Agent/Pipeline/Escalation/Expired.antt =====
-- The timer of an escalation against the deadline of the policy service.
use mathlib.Core.Path.{subst}
use straitsx.Prelude.{
  sym, ap, Bool-cases, if◌then◌else◌, ◌==◌, ◌⊎◌, ◌++◌, ℕ, ◌≡◌, refl, Bool, true, false, Option,
  none, some, inl, inr, ◌/◌, ltb, arith, Option-cases,
}
use straitsx.Text.{Text, present}
use straitsx.Dict.{get}
use straitsx.Ledger.State.{EscalationRecord, Ledger}
use straitsx.Ledger.State.{deny, Reply, sent, failed}
use straitsx.Text.{codes}
use straitsx.Text.BigInt.Decimal.{to_decimal}
use straitsx.Policy.Resolve.Closed.{
  IsClosed, record_decision-escalations, resolve_escalation-IsClosed,
}
use straitsx.Policy.Answers.{
  PolicyCode, called, close, ttl_expired, Answer, error, not_mandate_owner, policy_not_found,
}
use straitsx.Policy.Resolve.{resolve, resolve_found, resolve_open, authorise}
use straitsx.Agent.Step.{◌>>◌, modify}
use straitsx.Agent.Run.{RunState, set_run_state, set_outcome}
use straitsx.Agent.Pipeline.{PolicyReply, decided, thrown, World, Services, on_run, safe_failure}
use straitsx.Agent.Pipeline.Escalation.{
  ask_policy, is_escalated, resolve_reply, timer_body, expired_with, finalize_expired_escalation,
  expiry_failed, expire_escalation,
}

-- What the timer leaves of the world, by the deadline.
pub record IsExpired (request_id : Text) (now : ℕ) (before : World) (e : EscalationRecord)
    (after : World) : Type 0 where
  pub cleared : (after.pending ≡ none) × (after.timer ≡ none)
  pub ended : (after.run.state ≡ RunState.refused) ⊎ (after.run.state ≡ RunState.failed)
  pub late : ltb e.expires_at (now / 1000) ≡ true → IsClosed request_id after.ledger
  pub early :
      ltb e.expires_at (now / 1000) ≡ false
      → (after.ledger ≡ before.ledger) × (after.run.state ≡ RunState.failed)

module _ (services : Services) (request_id : Text) where
  -- The policy service refuses an unsigned denial before the deadline's second has passed.
  resolve-early :
      (now : ℕ) (l : Ledger) (e : EscalationRecord)
      → get request_id l.escalations ≡ some e
      → e.resolved ≡ false
      → ltb e.expires_at (now / 1000) ≡ false
      → (code : PolicyCode) × (status : ℕ) × (resolve services.policy now request_id
            (timer_body services request_id)
            l
          ≡ (l, error status code))
        × (status ≡ 410 → ⊥)
  unfolding resolve resolve_found resolve_open authorise present
  resolve-early now l e found unresolved early = elim (Option-cases (get e.mandate_id l.policies)) [
    | inl missing ↦ (
      policy_not_found,
      404,
      ground (arith, found, unresolved, early, missing),
      λ h. ground arith,
    )
    | inr (p, there) ↦
        (not_mandate_owner, 403, ground (arith, found, unresolved, early, there), λ h. ground arith)
  ]

  called-IsClosed :
      {A B : Type 0} (r : Ledger × Reply A) (next : Ledger → Ledger × B) (crash : B)
      → ((l : Ledger) → IsClosed request_id l → IsClosed request_id (next l).0)
      → IsClosed request_id r.0
      → IsClosed request_id (called r next crash).0
  unfolding called
  called-IsClosed (l, sent status a) next crash k h = k l h
  called-IsClosed (l, failed status code) next crash k h = h

  close-IsClosed :
      (now : ℕ) (by : Option Text) (check detail : Text) (answer : Answer) (l : Ledger)
      (e : EscalationRecord)
      → get request_id l.escalations ≡ some e
      → IsClosed request_id (close now request_id by check detail answer l).0
  unfolding close
  close-IsClosed now by check detail answer l e found =
      called-IsClosed _ _ _
        (λ l' h.
          called-IsClosed _ _ _ (λ l'' k. k)
            (subst (λ d. (e : EscalationRecord) × (get request_id d ≡ some e) × (e.resolved ≡ true))
              (sym (record_decision-escalations now _ l')) h))
        (resolve_escalation-IsClosed now request_id deny by l e found)

  late_close :
      (now : ℕ) (l : Ledger) (e : EscalationRecord)
      → get request_id l.escalations ≡ some e
      → e.resolved ≡ false
      → ltb e.expires_at (now / 1000) ≡ true
      → resolve services.policy now request_id (timer_body services request_id) l
        ≡ close now request_id none
            (codes "escalation_expired")
            (codes "escalation TTL of "
              ++ (to_decimal e.ttl_seconds ++ codes "s elapsed with no response; auto-denied"))
            (error 410 ttl_expired)
            l
  unfolding resolve resolve_found
  late_close now l e found unresolved late = ground (arith, found, unresolved, late)

  -- After it, the policy service closes the escalation as denied.
  resolve-late :
      (now : ℕ) (l : Ledger) (e : EscalationRecord)
      → get request_id l.escalations ≡ some e
      → e.resolved ≡ false
      → ltb e.expires_at (now / 1000) ≡ true
      → IsClosed request_id
          (resolve services.policy now request_id (timer_body services request_id) l).0
  unfolding resolve resolve_found
  resolve-late now l e found unresolved late =
      subst (λ r. IsClosed request_id r.0) (sym (late_close now l e found unresolved late))
        (close-IsClosed now none _ _ _ l e found)

  expired-states :
      (w : World) (reply : PolicyReply)
      → ((expired_with services request_id w reply).ledger ≡ w.ledger)
        × ((expired_with services request_id w reply).pending ≡ none)
        × ((expired_with services request_id w reply).timer ≡ none)
        × (((expired_with services request_id w reply).run.state ≡ RunState.refused)
            ⊎ ((expired_with services request_id w reply).run.state ≡ RunState.failed))
  unfolding expired_with finalize_expired_escalation expiry_failed safe_failure on_run modify ◌>>◌
      set_run_state set_outcome
  expired-states w (decided decision) = (refl, refl, refl, inl refl)
  expired-states w (thrown status) = elim (Bool-cases (status == 410)) [
    | inl expired ↦ subst Over (sym (ap choose expired)) (refl, refl, refl, inl refl)
    | inr other ↦ subst Over (sym (ap choose other)) (refl, refl, refl, inr refl)
  ]
    where
      choose : Bool → World
      choose b = if b then finalize_expired_escalation w else expiry_failed w

      Over : World → Type 0
      Over v =
          (v.ledger ≡ w.ledger)
          × (v.pending ≡ none)
          × (v.timer ≡ none)
          × ((v.run.state ≡ RunState.refused) ⊎ (v.run.state ≡ RunState.failed))

  not_equal : (status : ℕ) → (status ≡ 410 → ⊥) → (status == 410) ≡ false
  not_equal status h = ground arith

  early-failed :
      (now : ℕ) (w : World) (e : EscalationRecord)
      → (code : PolicyCode) × (status : ℕ) × (resolve services.policy now request_id
            (timer_body services request_id)
            w.ledger
          ≡ (w.ledger, error status code))
        × (status ≡ 410 → ⊥)
      → ((expired_with services request_id
            (record w {
              ledger =
                  (ask_policy services request_id now (timer_body services request_id) w.ledger).0;
            })
            (resolve_reply
              (ask_policy services request_id now
                (timer_body services request_id)
                w.ledger).1)).ledger
          ≡ w.ledger)
        × ((expired_with services request_id
              (record w {
                ledger =
                    (ask_policy services request_id now
                      (timer_body services request_id)
                      w.ledger).0;
              })
              (resolve_reply
                (ask_policy services request_id now
                  (timer_body services request_id)
                  w.ledger).1)).run.state
            ≡ RunState.failed)
  unfolding expired_with resolve_reply expiry_failed safe_failure on_run modify ◌>>◌ set_run_state
      set_outcome
  early-failed now w e (code, status, answered, other) =
      subst
        (λ r.
          ((expired_with services request_id (record w { ledger = r.0 }) (resolve_reply r.1)).ledger
            ≡ w.ledger)
          × ((expired_with services request_id (record w { ledger = r.0 })
                (resolve_reply r.1)).run.state
              ≡ RunState.failed))
        (sym answered)
        (subst
          (λ b.
            ((if b then finalize_expired_escalation w else expiry_failed w).ledger ≡ w.ledger)
            × ((if b then finalize_expired_escalation w else expiry_failed w).run.state
                ≡ RunState.failed))
          (sym (not_equal status other)) (refl, refl))

  -- The timer's denial against the deadline, for an escalation that is stored and unresolved. Either
  -- way the run ends, with nothing left waiting. Once the deadline's second has passed, the
  -- escalation is closed in the ledger, and the run is refused or failed. Within that second the
  -- policy service answers neither a decision nor 410: the ledger stays as it was, with no denial,
  -- and the run is failed.
  pub expire_escalation-deadline :
      (now : ℕ) (w : World) (e : EscalationRecord)
      → w.run.state ≡ RunState.escalated
      → get request_id w.ledger.escalations ≡ some e
      → e.resolved ≡ false
      → IsExpired request_id now w e (expire_escalation services request_id now w)
  unfolding expire_escalation is_escalated
  expire_escalation-deadline now w e state found unresolved =
      subst
        (λ b. IsExpired request_id now w e (
          if b
          then expired_with services request_id
              (record w {
                ledger =
                    (ask_policy services request_id now (timer_body services request_id)
                      w.ledger).0;
              })
              (resolve_reply
                (ask_policy services request_id now (timer_body services request_id) w.ledger).1)
          else w))
        (sym (ap is_escalated state))
        (let v = record w {
          ledger = (ask_policy services request_id now (timer_body services request_id) w.ledger).0;
        } in
          let reply =
            resolve_reply
              (ask_policy services request_id now (timer_body services request_id) w.ledger).1 in
          let states = expired-states v reply in
          record {
            cleared = (states.1, states.2);
            ended = states.3;
            late = λ late.
                subst (IsClosed request_id) (sym states.0)
                  (resolve-late now w.ledger e found unresolved late);
            early =
                λ early. early-failed now w e (resolve-early now w.ledger e found unresolved early);
          })
