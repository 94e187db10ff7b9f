-- ===== src/Director/Commands.antt =====
-- The three loops over the commands of an assertion (director/director.go).
use crobe.Common.{
  Bool, true, false, Option, none, some, List, [], ◌∷◌, ◌++◌, String, if◌then◌else◌, is_empty,
}
use crobe.Common.Int.{ℤ, add_int}
use crobe.Common.Text.{concat, variation}
use crobe.Playbook.{Exec, Cmd, get_fail_score}
use crobe.Executor.{Host, Context, ExecutionResult, Outcome}
use crobe.Director.{CommandLog, CommandStatus, Event, log}
use crobe.Director.Verdict.{judge, add_score}

abbrev pub redacted : String
redacted = "[REDACTED]"

-- What a command that has run adds to the outputs of its assertion.
unfoldable pub command_outputs : Exec → ExecutionResult → List String
command_outputs e res =
    if e.exclude_from_report
    then redacted ∷ []
    else if is_empty res.stderr
    then res.stdout ∷ []
    else if is_empty res.stdout
    then "# --- STDERR ---" ∷ res.stderr ∷ []
    else "# --- STDOUT ---" ∷ res.stdout ∷ "# --- STDERR ---" ∷ res.stderr ∷ []

abbrev status_of : Option String → CommandStatus
status_of none = CommandStatus.completed
status_of (some e) = CommandStatus.failed

abbrev pub error_events : String → String → Option String → List Event
error_events label code none = []
error_events label code (some e) =
    log (concat ("      ⚠" ∷ variation ∷ " " ∷ label ∷ " Error (" ∷ code ∷ "): " ∷ e ∷ [])) ∷ []

-- What a loop over commands leaves behind. `stopped` is Go's `cancelled`.
pub record Ran (W : Type 0) : Type 0 where
  pub stopped : Bool
  pub logs : List CommandLog
  pub outputs : List String
  pub score : ℤ
  pub context : Context
  pub world : W
  pub events : List Event

module _ (h : Host) (run_exec : Exec → Context → h.World → Outcome h.World) where
  open h use {World, now, is_cancelled}

  -- One command between two readings of the clock. The log holds the command as it stands in the
  -- playbook: `RunExec` sets the script of a copy.
  unfoldable pub timed : Exec → Context → World → CommandLog × Outcome World
  timed e ctx w =
      let (t0, w0) = now w in
      let out = run_exec e ctx w0 in
      let (t1, w1) = now out.world in
      (
        record {
          exec = e;
          status = status_of out.error;
          start = t0;
          end = t1;
          result = out.result;
          error = out.error;
        },
        record out { world = w1 },
      )

  -- The loops over `PreCmds` and `PostCmds`.
  unfoldable pub run_side : String → String → ℤ → List Exec → Context → World → Ran World
  run_side label code score [] ctx w = record {
    stopped = false;
    logs = [];
    outputs = [];
    score = score;
    context = ctx;
    world = w;
    events = [];
  }
  run_side label code score (e ∷ es) ctx w =
      let (stop, w0) = is_cancelled w in
      let (cmd_log, out) = timed e ctx w0 in
      let rest = run_side label code score es out.context out.world in
      elim stop [
        | true ↦ record {
          stopped = true;
          logs = [];
          outputs = [];
          score = score;
          context = ctx;
          world = w0;
          events = [];
        }
        | false ↦ record rest {
          logs = cmd_log ∷ rest.logs;
          events = error_events label code out.error ++ rest.events;
        }
      ]

  -- After the run of one main command: what it adds to the outputs, and the score.
  unfoldable pub settle :
      Cmd → ℤ → Outcome World → Option String → List String × ℤ × Context × World
  settle c score out (some e) = ([], add_int score (get_fail_score c), out.context, out.world)
  settle c score out none =
      let (result, ctx, w) = judge h c out.result out.context out.world in
      (command_outputs c.exec out.result, add_score c result score, ctx, w)

  -- The loop over `Cmds`.
  unfoldable pub run_cmds : ℤ → List Cmd → Context → World → Ran World
  run_cmds score [] ctx w = record {
    stopped = false;
    logs = [];
    outputs = [];
    score = score;
    context = ctx;
    world = w;
    events = [];
  }
  run_cmds score (c ∷ cs) ctx w =
      let (stop, w0) = is_cancelled w in
      let (cmd_log, out) = timed c.exec ctx w0 in
      let (outs, score', ctx', w') = settle c score out out.error in
      let rest = run_cmds score' cs ctx' w' in
      elim stop [
        | true ↦ record {
          stopped = true;
          logs = [];
          outputs = [];
          score = score;
          context = ctx;
          world = w0;
          events = [];
        }
        | false ↦ record rest { logs = cmd_log ∷ rest.logs; outputs = outs ++ rest.outputs }
      ]
