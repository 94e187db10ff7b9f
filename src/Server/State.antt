-- ===== src/Server/State.antt =====
-- `StateManager` (internal/server/state.go), the state that the handlers share. Each method holds the
-- mutex from its first line to its return, so it is one step from a state to the next. `filepath.Abs`
-- and the writers of reports are parameters. The order in which Go ranges over a map is the order of
-- the association list.
use crobe.Common.{
  ℕ, ◌-◌, Bool, true, false, not, ◌&&◌, ◌||◌, Option, none, some, List, [], ◌∷◌, ◌++◌, map, String,
  if◌then◌else◌, is_empty, ◌==◌, any, is_some,
}
use crobe.Common.Int.{pos}
use crobe.Common.Result.{Result, ok, err}
use crobe.Playbook.{
  Assertion, Section, Playbook, ReportDestinationConfig, destination_https, get_min_passing_score,
}
use crobe.Playbook.Elevation.{requires_elevation}
use crobe.Playbook.Validator.{ValidationError}
use crobe.Server.Types.{
  AppError, Detail, validation_detail, HttpsDestinationConfig, PlaybookHttpsInspection,
  PlaybookDestinationDefaults, ReportDestinationState, AppStateResponse, PlaybookInspection,
  AssertionSnapshot, ExecutionSnapshot, DestinationUpdateRequest, is_busy, status_idle,
  status_loaded, status_running_elevating, status_running, status_running_cancelling,
  err_code_playbook_validation_failed, folder_source_default, folder_source_cli,
  folder_source_playbook, folder_source_off, https_source_playbook, https_source_custom,
  https_source_off,
}
pub mod Methods
pub mod Calls
pub mod Lock
pub mod Secrets
pub mod Dispatch
pub mod Delivery

-- The fields but for the mutex. `activeRunCancel` and `activeRunDone` are told by the number of the run that they
-- were made for, or nil. `R` is the type of a report, `run_start_time` is `none` for the zero time.
pub record StateManager (R : Type 0) : Type 0 where
  pub status : String
  pub errors : List AppError
  pub report_destination : ReportDestinationState
  pub cli_folder : String
  pub is_ui : Bool
  pub playbook : Option Playbook
  pub playbook_raw : String
  pub active_run_id : String
  pub active_run_cancel : Option ℕ
  pub active_run_done : Option ℕ
  pub is_cancelled : Bool
  pub run_start_time : Option ℕ
  pub snapshot : ExecutionSnapshot
  pub last_report : Option R

abbrev pub empty_snapshot : String → ExecutionSnapshot
empty_snapshot status = record {
  run_id = "";
  status = status;
  active_assertion_code = "";
  last_event_id = 0;
  duration_ms = 0;
  assertions = [];
  logs = [];
}

-- `CanMutate`
unfoldable pub can_mutate : {R : Type 0} → StateManager R → Bool
can_mutate sm = not (is_busy sm.status)

-- `getStateResponseLocked`
unfoldable pub get_state_response : {R : Type 0} → StateManager R → AppStateResponse
get_state_response sm = record {
  status = sm.status;
  errors = sm.errors;
  report_destination = sm.report_destination;
  active_run_id = sm.active_run_id;
}

-- The sanitized HTTPS configuration, in `SetPlaybook` and in `GetPlaybookInspection`.
unfoldable pub inspect_https : Option ReportDestinationConfig → Option PlaybookHttpsInspection
inspect_https none = none
inspect_https (some c) = some (record {
  url = c.url;
  format = if is_empty c.format then "multipart" else c.format;
  has_signature_secret = not (is_empty c.signature_secret);
  configured_headers = map (λ (kv : String × String). kv.0) c.additional_headers;
})

-- The first snapshot of the assertions.
abbrev pub pending_snapshot : Assertion → AssertionSnapshot
pending_snapshot a = record {
  code = a.code;
  title = a.title;
  status = "pending";
  passed = false;
  score = pos 0;
  min_score = get_min_passing_score a;
  duration_ms = 0;
  output = "";
}

abbrev pub pending_snapshots : List Section → List AssertionSnapshot
pending_snapshots [] = []
pending_snapshots (s ∷ ss) = map pending_snapshot s.assertions ++ pending_snapshots ss

abbrev pub validation_errors : List ValidationError → List AppError
validation_errors [] = []
validation_errors (e ∷ es) =
    record {
      code = err_code_playbook_validation_failed;
      message = "Playbook validation failed";
      detail = validation_detail (e ∷ es);
    }
    ∷ []

-- `SetLoadError`
unfoldable pub set_load_error :
    {R : Type 0} → StateManager R → String → String → Detail → StateManager R
set_load_error sm code message detail = record sm {
  status = status_idle;
  playbook = none;
  playbook_raw = "";
  errors = record { code = code; message = message; detail = detail } ∷ [];
  snapshot = empty_snapshot status_idle;
}

-- `GetPlaybookInspection`
unfoldable pub get_playbook_inspection : {R : Type 0} → StateManager R → Result PlaybookInspection
get_playbook_inspection sm = elim sm.playbook [
  | none ↦ err "no playbook loaded"
  | some pb ↦ ok (record {
    title = pb.title;
    report_frontmatter = pb.report_frontmatter;
    sections = pb.sections;
    report_destination = pb.report_destination;
    report_destination_folder = pb.report_destination_folder;
    report_destination_https = inspect_https pb.report_destination_https;
    requires_elevation = requires_elevation pb;
  })
]

-- `GetExecutionSnapshot`, at the time `now`.
unfoldable pub get_execution_snapshot : {R : Type 0} → StateManager R → ℕ → ExecutionSnapshot
get_execution_snapshot sm now =
    let is_timed =
      sm.status == status_running
      || sm.status == status_running_elevating
      || sm.status == status_running_cancelling in
    let duration : ℕ = elim sm.run_start_time [
      | none ↦ sm.snapshot.duration_ms
      | some start ↦ if is_timed then now - start else sm.snapshot.duration_ms
    ] in
    record sm.snapshot { duration_ms = duration; status = sm.status }

-- `HasValidationErrors`
unfoldable pub has_validation_errors : {R : Type 0} → StateManager R → Bool
has_validation_errors sm = any (λ e. e.code == err_code_playbook_validation_failed) sm.errors

-- `SetStatus`
unfoldable pub set_status : {R : Type 0} → StateManager R → String → StateManager R
set_status sm status = record sm { status = status }
