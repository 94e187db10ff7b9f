-- ===== src/Server/Handlers.antt =====
-- `Server` (internal/server/server.go), and what its handlers answer. `NewServer` sets the broker and the
-- lifecycle manager, so that the handlers' tests for nil always find them.
use crobe.Common.{◌∷◌, ◌++◌, ℕ, Bool, Option, none, some, List, [], String}
use crobe.Playbook.{Playbook, ReportDestinationConfig}
use crobe.Server.Types.{
  AppError, Detail, no_detail, AppStateResponse, PlaybookInspection, ExecutionSnapshot,
  err_code_conflict,
}
use crobe.Server.State.{StateManager, get_state_response}
use crobe.Server.Events.{
  EventBroker, state_data, broadcast, new_event_broker, broadcast_termination,
}
use crobe.Server.Lifecycle.{LifecycleConfig, LifecycleManager, new_lifecycle_manager, stop}

-- The goroutine that `handleRun` starts. Its context is told by the run's number, since each run has
-- one of its own. `is_elevating` holds until `SetupElevation` has returned.
pub record Run : Type 0 where
  pub number : ℕ
  pub run_id : String
  pub playbook : Playbook
  pub is_elevating : Bool

-- What a handler that waits for `WriteToHTTP` sends.
pub record Submission (R : Type 0) : Type 0 where
  pub config : ReportDestinationConfig
  pub report : R
  pub run_id : String

-- What a handler has to load: a playbook with its text, or an error with its code.
pub data Loaded : Type 0 where
  load_ok : Playbook → String → Loaded
  load_failed : String → String → Loaded

-- The fields that the handlers use, the goroutines of the runs, and the submissions under way.
-- `run_count` is the number of runs that were started, `cancelled_runs` has the runs whose context is
-- cancelled, `loads` what the handlers have read that have passed the test of `CanMutate` and have not loaded
-- it yet, and `cancels` the runs whose cancel function a handler has taken and not called yet.
pub record Server (R : Type 0) : Type 0 where
  pub state : StateManager R
  pub broker : EventBroker
  pub lifecycle : LifecycleManager
  pub runs : List Run
  pub run_count : ℕ
  pub cancelled_runs : List ℕ
  pub submissions : List (Submission R)
  pub loads : List Loaded
  pub cancels : List ℕ

-- The body of an answer. A text comes with its content type, and with the name of the file if it is to
-- be saved.
pub data Body : Type 0 where
  method_not_allowed : Body
  state_body : AppStateResponse → Body
  error_body : AppError → Body
  accepted_body : String → AppStateResponse → Body
  snapshot_body : ExecutionSnapshot → Body
  inspection_body : PlaybookInspection → Body
  text_body : String → String → Option String → Body
  shutting_down_body : Body

-- The status code and the body.
pub record Response : Type 0 where
  pub status_code : ℕ
  pub body : Body

-- `http.Error(w, "Method Not Allowed", …)`
abbrev pub not_allowed : Response
not_allowed = record { status_code = 405; body = method_not_allowed }

abbrev pub ok_state : AppStateResponse → Response
ok_state resp = record { status_code = 200; body = state_body resp }

abbrev pub refusal : ℕ → String → String → Detail → Response
refusal status_code code message detail = record {
  status_code = status_code;
  body = error_body (record { code = code; message = message; detail = detail });
}

abbrev pub conflict : String → Response
conflict message = refusal 409 err_code_conflict message no_detail

-- The part of `NewServer` that makes the state, the broker and the lifecycle manager.
unfoldable pub new_server : {R : Type 0} → StateManager R → LifecycleConfig → Server R
new_server sm cfg = record {
  state = sm;
  broker = new_event_broker;
  lifecycle = new_lifecycle_manager cfg;
  runs = [];
  run_count = 0;
  cancelled_runs = [];
  submissions = [];
  loads = [];
  cancels = [];
}

-- `s.broker.Broadcast("state_change", runID, s.state.GetStateResponse())`
unfoldable pub broadcast_state : {R : Type 0} → String → Server R → Server R
broadcast_state run_id s = record s {
  broker = (broadcast "state_change" run_id (state_data (get_state_response s.state)) s.broker).1;
}

abbrev pub named : Option ℕ → List ℕ
named none = []
named (some n) = n ∷ []

-- The run whose cancel function the state has, if any.
abbrev pub cancel_target : {R : Type 0} → StateManager R → List ℕ
cancel_target sm = named sm.active_run_cancel

-- What `Shutdown` and `Close` do to the state: the clients are told, the timers stop, and the context of
-- the active run, if there is one, is cancelled.
unfoldable pub shut_down : {R : Type 0} → Server R → Server R
shut_down s = record s {
  broker = (broadcast_termination s.broker).2;
  lifecycle = stop s.lifecycle;
  cancelled_runs = cancel_target s.state ++ s.cancelled_runs;
}
