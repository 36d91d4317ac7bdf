-- ===== src/Agent/Run.antt =====
-- services/agent-orchestrator/src/run/store.ts: the record of one run. The map of runs is seen under
-- the run's own key, which startRun fills before anything else. Times that are only displayed are
-- left out, and so are the texts of an outcome that only the reader of a run sees.
use straitsx.Prelude.{
  ℕ, ◌+◌, Bool, true, false, Option, none, some, List, [], ◌∷◌, ◌++◌, length, ◌||◌,
}
use straitsx.Text.{Text}
use straitsx.Contracts.Types.{ResolvedItem}

pub data RunStage : Type 0 where
  intent_created discovery_done checkout_acquired challenge_received policy_decision : RunStage
  card_issued checkout_asserted spend_recorded settlement_finalized : RunStage

pub data EventStatus : Type 0 where
  ok refused escalated : EventStatus

pub record RunEvent : Type 0 where
  pub seq : ℕ
  pub stage : RunStage
  pub status : EventStatus
  pub check : Option Text

pub data RunState : Type 0 where
  running escalated awaiting_checkout done refused failed : RunState

-- isTerminalRunState
abbrev pub is_terminal_run_state : RunState → Bool
is_terminal_run_state done = true
is_terminal_run_state refused = true
is_terminal_run_state failed = true
is_terminal_run_state _ = false

pub data RunOutcome : Type 0 where
  refused : Text → RunOutcome
  escalated : Text → ℕ → RunOutcome
  checkout_pending : Text → Text → RunOutcome
  signed : Text → Text → RunOutcome
  failed : Bool → RunOutcome

-- `stream_ended` is whether the subscriber that GET /run/:requestId/events registers has closed its
-- stream.
pub record RunRecord : Type 0 where
  pub request_id : Text
  pub state : RunState
  pub events : List RunEvent
  pub resolved_item : Option ResolvedItem
  pub outcome : Option RunOutcome
  pub stream_ended : Bool

-- createRun
unfoldable pub create_run : Text → RunRecord
create_run request_id = record {
  request_id = request_id;
  state = RunState.running;
  events = [];
  resolved_item = none;
  outcome = none;
  stream_ended = false;
}

-- setRunState
unfoldable pub set_run_state : RunState → RunRecord → RunRecord
set_run_state state run = record run { state = state }

-- setDiscoveredItem
unfoldable pub set_discovered_item : ResolvedItem → RunRecord → RunRecord
set_discovered_item item run = record run { resolved_item = some item }

-- setOutcome
unfoldable pub set_outcome : RunOutcome → RunRecord → RunRecord
set_outcome outcome run = record run { outcome = some outcome }

-- The subscriber of the event stream: it ends the stream where it sees a terminal state.
unfoldable pub stream_event : RunRecord → RunRecord
stream_event run = record run { stream_ended = run.stream_ended || is_terminal_run_state run.state }

-- emitEvent, which numbers the event and calls the subscribers
unfoldable pub emit_event : RunStage → EventStatus → Option Text → RunRecord → RunRecord
unfolding stream_event
emit_event stage status check run = stream_event (record run {
  events =
      run.events
      ++ record { seq = length run.events + 1; stage = stage; status = status; check = check } ∷ [];
})
