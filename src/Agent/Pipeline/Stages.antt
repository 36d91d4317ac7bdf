-- ===== src/Agent/Pipeline/Stages.antt =====
-- The diagram of a run's stages, and what the events of a run say of it.
pub mod Guarded
pub mod Issued
pub mod Logged
use mathlib.Core.Path.{subst}
use straitsx.Prelude.{
  sym, ◌∙◌, ℕ, ◌+◌, ◌≡◌, refl, Bool, true, false, ◌||◌, Option, none, some, List, [], ◌∷◌, ◌++◌,
  length, arith,
}
use straitsx.Text.{Text}
use straitsx.Ledger.State.{Ledger, Reply, sent, failed}
use straitsx.Agent.Step.{Step, Holds, Triple, lift}
use straitsx.Agent.Run.{
  RunStage, intent_created, discovery_done, checkout_acquired, challenge_received, policy_decision,
  card_issued, checkout_asserted, spend_recorded, settlement_finalized, EventStatus, RunEvent,
  RunState, is_terminal_run_state, RunRecord, set_run_state, stream_event, emit_event,
}
use straitsx.Agent.Pipeline.{World, Run, on_run, call_ledger, ledger_reply}
use straitsx.Agent.Pipeline.Rules.{on_run-Triple}

-- The stage that a run may enter after another, and first.
pub data Next : Option RunStage → RunStage → Type 0 where
  begins : Next none intent_created
  discovers : Next (some intent_created) discovery_done
  acquires : Next (some intent_created) checkout_acquired
  asks : Next (some discovery_done) challenge_received
  asks_for_checkout : Next (some checkout_acquired) challenge_received
  decides : Next (some challenge_received) policy_decision
  issues : Next (some policy_decision) card_issued
  asserts : Next (some card_issued) checkout_asserted
  records : Next (some checkout_asserted) spend_recorded
  finalizes : Next (some spend_recorded) settlement_finalized

-- A list of events that walks the diagram from its start to the last stage, numbered from one.
pub data IsLog : List RunEvent → Option RunStage → Type 0 where
  empty_log : IsLog [] none
  after :
      (events : List RunEvent) (last : Option RunStage) (e : RunEvent)
      → IsLog events last
      → Next last e.stage
      → e.seq ≡ length events + 1
      → IsLog (events ++ e ∷ []) (some e.stage)

-- A run in progress whose last stage is this one, its stream still open.
pub record At (last : Option RunStage) (w : World) : Type 0 where
  pub log : IsLog w.run.events last
  pub live : is_terminal_run_state w.run.state ≡ false
  pub streaming : w.run.stream_ended ≡ false

-- A run whose events walk the diagram, its stream still open.
pub record IsLogged (w : World) : Type 0 where
  pub last : Option RunStage
  pub log : IsLog w.run.events last
  pub streaming : w.run.stream_ended ≡ false

At-IsLogged : (s : Option RunStage) (w : World) → At s w → IsLogged w
At-IsLogged s w h = record { last = s; log = h.log; streaming = h.streaming }

no_end : (a b : Bool) → a ≡ false → b ≡ false → a || b ≡ false
no_end a b h k = ground arith

module _ {s : Option RunStage} where
  pub emit-At :
      (stage : RunStage) (status : EventStatus) (check : Option Text)
      → Next s stage
      → Triple (At s) (on_run (emit_event stage status check)) (λ u. At (some stage)) IsLogged
  unfolding emit_event stream_event
  emit-At stage status check next = on_run-Triple (emit_event stage status check) λ w h. record {
    log = after w.run.events s _ h.log next refl;
    live = h.live;
    streaming = no_end _ _ h.streaming h.live;
  }

  reply-At :
      {A : Type 0} (w : World) (r : Ledger × Reply A)
      → At s w
      → Holds (λ u. At s) IsLogged (ledger_reply w r)
  reply-At w (l, sent status a) h = record { log = h.log; live = h.live; streaming = h.streaming }
  reply-At w (l, failed status code) h = record { last = s; log = h.log; streaming = h.streaming }

  pub call-At :
      {A : Type 0} (f : Ledger → Ledger × Reply A)
      → Triple (At s) (call_ledger f) (λ u. At s) IsLogged
  unfolding call_ledger
  call-At f = record { from = λ w h. reply-At w (f w.ledger) h }

  pub lift-At :
      {A : Type 0} (o : Option A) → Triple (At s) (lift o) (λ a w. At s w × (o ≡ some a)) IsLogged
  unfolding lift
  lift-At none = record { from = λ w h. At-IsLogged s w h }
  lift-At (some a) = record { from = λ w h. (h, refl) }

  -- A change of the record that leaves its events, its stream and its state alone.
  pub keep-At :
      (f : RunRecord → RunRecord)
      → ((r : RunRecord) → (f r).events ≡ r.events)
      → ((r : RunRecord) → (f r).stream_ended ≡ r.stream_ended)
      → ((r : RunRecord)
          → is_terminal_run_state r.state ≡ false
          → is_terminal_run_state (f r).state ≡ false)
      → Triple (At s) (on_run f) (λ u. At s) IsLogged
  keep-At f events stream live = on_run-Triple f λ w h. record {
    log = subst (λ es. IsLog es s) (sym (events w.run)) h.log;
    live = live w.run h.live;
    streaming = stream w.run ∙ h.streaming;
  }

  -- The last change of the record: its state may be terminal.
  pub end-At :
      {E : World → Type 0} (f : RunRecord → RunRecord)
      → ((r : RunRecord) → (f r).events ≡ r.events)
      → ((r : RunRecord) → (f r).stream_ended ≡ r.stream_ended)
      → Triple (At s) (on_run f) (λ u. IsLogged) E
  end-At f events stream = on_run-Triple f λ w h. record {
    last = s;
    log = subst (λ es. IsLog es s) (sym (events w.run)) h.log;
    streaming = stream w.run ∙ h.streaming;
  }
