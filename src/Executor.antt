-- ===== src/Executor.antt =====
-- What executes one command of a playbook (executor/executor.go, executor/exec_runner.go): its data, and
-- what it uses that is not part of the repository, as a record of operations.
use crobe.Common.{ℕ, Bool, Option, List, String}
use crobe.Common.Int.{ℤ}
use crobe.Common.Result.{Result}
use crobe.Playbook.{Exec}
pub mod Script
pub mod Evaluate
pub mod Run
pub mod Cleanup

pub record ExecutionResult : Type 0 where
  pub stdout : String
  pub stderr : String
  pub exit_code : ℤ
  pub success : Bool

pub record ExecutionRequest : Type 0 where
  pub script : String
  pub shell : String
  pub extension : String

-- A value of the Go type `interface{}`. The Go code stores texts, and reads no value: what JavaScript
-- stores is a handle.
pub data Value : Type 0 where
  text : String → Value
  foreign : ℕ → Value

-- `contextMap`, the data that the commands of one assertion share.
abbrev pub Context : Type 0
Context = List (String × Value)

-- What a script sees besides the context: the machine, or the outputs of a command.
pub data Globals : Type 0 where
  machine : Globals
  outputs : String → String → Globals

-- The outside: the JavaScript engine goja, Go's regular expressions, the runners of commands, the clock,
-- and the cancellation of the run. A script may write to the context, which goja holds by reference.
pub record Host : Type 1 where
  pub World : Type 0
  pub JsValue : Type 0
  -- `vm.RunString`, and the call of a value that `goja.AssertFunction` accepts
  pub run_string : Globals → String → Context → World → Result JsValue × Context × World
  pub is_function : JsValue → Bool
  pub call : Globals → JsValue → Context → World → Result JsValue × Context × World
  -- `goja.IsUndefined` or `goja.IsNull`, `String()` and `ToInteger()`
  pub is_nullish : JsValue → Bool
  pub to_text : JsValue → String
  pub to_integer : JsValue → ℤ
  -- `regexp.Compile` with `FindStringSubmatch` or `MatchString`: no match is the empty list
  pub find_submatch : String → String → Result (List String)
  pub match_string : String → String → Result Bool
  -- `LocalExecutionRunner.Run`, and `elevatedExecutionRunner` with its method `Run`
  pub local_run : ExecutionRequest → World → ExecutionResult × Option String × World
  pub has_elevated : World → Bool
  pub elevated_run : ExecutionRequest → World → ExecutionResult × Option String × World
  -- `time.Now()`, in milliseconds, and `ctx.Err() != nil`
  pub now : World → ℕ × World
  pub is_cancelled : World → Bool × World

-- What `RunExec` returns, with what it changes: the command, whose script it sets, and the context.
pub record Outcome (W : Type 0) : Type 0 where
  pub result : ExecutionResult
  pub error : Option String
  pub exec : Exec
  pub context : Context
  pub world : W
