-- ===== src/Server/Types.antt =====
-- The statuses, the error codes and the records of the server (internal/server/types.go). A nil pointer
-- is `none`, a map is an association list.
use crobe.Common.{ℕ, Bool, Option, List, String, ◌||◌, ◌==◌}
use crobe.Common.Int.{ℤ}
use crobe.Playbook.{Section}
use crobe.Playbook.Validator.{ValidationError}

abbrev pub status_idle : String
status_idle = "idle"

abbrev pub status_loaded : String
status_loaded = "loaded"

abbrev pub status_running_elevating : String
status_running_elevating = "running.elevating"

abbrev pub status_running : String
status_running = "running"

abbrev pub status_running_cancelling : String
status_running_cancelling = "running.cancelling"

abbrev pub status_completed_submitting : String
status_completed_submitting = "completed.submitting"

abbrev pub status_completed_confirming_submission : String
status_completed_confirming_submission = "completed.confirming_submission"

abbrev pub status_completed_submitted : String
status_completed_submitted = "completed.submitted"

abbrev pub status_completed_submission_error : String
status_completed_submission_error = "completed.submission_error"

abbrev pub status_completed : String
status_completed = "completed"

abbrev pub err_code_playbook_parse_failed : String
err_code_playbook_parse_failed = "PLAYBOOK_PARSE_FAILED"

abbrev pub err_code_playbook_validation_failed : String
err_code_playbook_validation_failed = "PLAYBOOK_VALIDATION_FAILED"

abbrev pub err_code_remote_fetch_failed : String
err_code_remote_fetch_failed = "REMOTE_FETCH_FAILED"

abbrev pub err_code_elevation_failed : String
err_code_elevation_failed = "ELEVATION_FAILED"

abbrev pub err_code_execution_aborted : String
err_code_execution_aborted = "EXECUTION_ABORTED"

abbrev pub err_code_folder_write_failed : String
err_code_folder_write_failed = "FOLDER_WRITE_FAILED"

abbrev pub err_code_remote_submission_failed : String
err_code_remote_submission_failed = "REMOTE_SUBMISSION_FAILED"

abbrev pub err_code_remote_submission_timeout : String
err_code_remote_submission_timeout = "REMOTE_SUBMISSION_TIMEOUT"

abbrev pub err_code_conflict : String
err_code_conflict = "CONFLICT"

abbrev pub folder_source_default : String
folder_source_default = "default"

abbrev pub folder_source_cli : String
folder_source_cli = "cli"

abbrev pub folder_source_playbook : String
folder_source_playbook = "playbook"

abbrev pub folder_source_off : String
folder_source_off = "off"

abbrev pub folder_source_custom : String
folder_source_custom = "custom"

abbrev pub https_source_playbook : String
https_source_playbook = "playbook"

abbrev pub https_source_custom : String
https_source_custom = "custom"

abbrev pub https_source_off : String
https_source_off = "off"

-- The `Detail` of an error.
pub data Detail : Type 0 where
  no_detail : Detail
  text_detail : String → Detail
  validation_detail : List ValidationError → Detail

pub record AppError : Type 0 where
  pub code : String
  pub message : String
  pub detail : Detail

pub record HttpsDestinationConfig : Type 0 where
  pub url : String
  pub format : String
  pub secret : String
  pub headers : List (String × String)

pub record PlaybookHttpsInspection : Type 0 where
  pub url : String
  pub format : String
  pub has_signature_secret : Bool
  pub configured_headers : List String

pub record PlaybookDestinationDefaults : Type 0 where
  pub has_folder : Bool
  pub folder_path : String
  pub has_https : Bool
  pub https : Option PlaybookHttpsInspection

pub record ReportDestinationState : Type 0 where
  pub folder : String
  pub folder_source : String
  pub https_source : String
  pub https : Option HttpsDestinationConfig
  pub playbook_defaults : Option PlaybookDestinationDefaults

pub record AppStateResponse : Type 0 where
  pub status : String
  pub errors : List AppError
  pub report_destination : ReportDestinationState
  pub active_run_id : String

pub record PlaybookInspection : Type 0 where
  pub title : String
  pub report_frontmatter : List (String × String)
  pub sections : List Section
  pub report_destination : String
  pub report_destination_folder : String
  pub report_destination_https : Option PlaybookHttpsInspection
  pub requires_elevation : Bool

pub record AssertionSnapshot : Type 0 where
  pub code : String
  pub title : String
  pub status : String
  pub passed : Bool
  pub score : ℤ
  pub min_score : ℤ
  pub duration_ms : ℕ
  pub output : String

pub record ExecutionSnapshot : Type 0 where
  pub run_id : String
  pub status : String
  pub active_assertion_code : String
  pub last_event_id : ℕ
  pub duration_ms : ℕ
  pub assertions : List AssertionSnapshot
  pub logs : List String

pub record DestinationUpdateRequest : Type 0 where
  pub folder : Option String
  pub folder_source : Option String
  pub https_source : Option String
  pub https : Option HttpsDestinationConfig

-- The statuses in which a run or a submission is under way: the negation of `CanMutate`, and the guards
-- of `UnloadPlaybook`, `UpdateDestination` and the timers.
unfoldable pub is_busy : String → Bool
is_busy status =
    status == status_running_elevating
    || status == status_running
    || status == status_running_cancelling
    || status == status_completed_submitting
