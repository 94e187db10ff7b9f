-- ===== src/Director.antt =====
-- The run of a playbook (director/director.go, executor/trace_types.go): the trace that it builds and the
-- events that it sends to the observer (director/observer.go), in order.
use crobe.Common.{ℕ, Bool, true, false, Option, none, some, List, [], ◌∷◌, String}
use crobe.Common.Int.{ℤ}
use crobe.Playbook.{Exec, Assertion, Section, Playbook}
use crobe.Executor.{Context, ExecutionResult}
pub mod Commands
pub mod Assertions
pub mod Unwind
pub mod Run
pub mod Outline
pub mod Steps
pub mod Coverage
pub mod Contexts
pub mod Judged
pub mod Totals
pub mod Completed
pub mod Protocol
pub mod Verdict
pub mod Every
pub mod Hidden
pub mod Uncancelled
pub mod Scores
pub mod Redacted

pub data AssertionStatus : Type 0 where
  pending running passed failed cancelled : AssertionStatus

pub data CommandStatus : Type 0 where
  pending running completed failed cancelled : CommandStatus

pub record CommandLog : Type 0 where
  pub exec : Exec
  pub status : CommandStatus
  pub start : ℕ
  pub end : ℕ
  pub result : ExecutionResult
  pub error : Option String

-- `start` and `end` are 0 where Go has the zero time.
pub record AssertionContext : Type 0 where
  pub playbook_assertion : Assertion
  pub status : AssertionStatus
  pub start : ℕ
  pub end : ℕ
  pub passed : Bool
  pub score : ℤ
  pub min_score : ℤ
  pub context : Context
  pub pre_cmd_logs : List CommandLog
  pub cmd_logs : List CommandLog
  pub post_cmd_logs : List CommandLog
  pub outputs : List String

pub record SectionContext : Type 0 where
  pub playbook_section : Section
  pub assertions : List AssertionContext

pub record ExecutionTrace : Type 0 where
  pub playbook : Playbook
  pub sections : List SectionContext
  pub start : ℕ
  pub end : ℕ
  pub username : String
  pub os : String
  pub arch : String
  pub total_passed : ℕ
  pub total_failed : ℕ

-- `AssertionProgressResult`
pub record Progress : Type 0 where
  pub code : String
  pub status : String
  pub passed : Bool
  pub score : ℤ
  pub min_score : ℤ
  pub duration_ms : ℕ
  pub output : String

-- The calls of an `ExecutionObserver`. The report that `OnRunComplete` gets besides is computed from
-- the trace.
pub data Event : Type 0 where
  run_start : String → Playbook → Event
  section_start : Section → ℕ → ℕ → Event
  assertion_start : Assertion → ℕ → ℕ → Event
  assertion_complete : Assertion → Progress → Event
  log : String → Event
  run_complete : ExecutionTrace → Event
  run_cancelled : String → ExecutionTrace → Event
  run_error : String → Event
