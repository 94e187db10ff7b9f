-- ===== src/Executor/Run.antt =====
-- `RunExec` (executor/executor.go): the script of a command, its shell, its run, and its gather specs.
use crobe.Common.{
  true, false, not, Option, none, some, List, [], ◌∷◌, String, if◌then◌else◌, is_empty, insert,
}
use crobe.Common.Int.{pos}
use crobe.Common.Text.{concat}
use crobe.Common.Result.{Result, ok, err}
use crobe.Playbook.{GatherSpec, Exec}
use crobe.Executor.{Host, Context, text, ExecutionResult, ExecutionRequest, Outcome}
use crobe.Executor.Script.{run_js}
use crobe.Executor.Evaluate.{perform_gather}

-- `ExecutionResult{}` and `ExecutionResult{Success: true}`
abbrev pub no_result : ExecutionResult
no_result = record { stdout = ""; stderr = ""; exit_code = pos 0; success = false }

abbrev pub skipped : ExecutionResult
skipped = record { stdout = ""; stderr = ""; exit_code = pos 0; success = true }

module _ (h : Host) where
  open h use {World, local_run, has_elevated, elevated_run}

  -- The loop over `e.Gather`: what was stored before an error stays stored.
  unfoldable pub gather_all :
      List GatherSpec → ExecutionResult → Context → World → Option String × Context × World
  gather_all [] res ctx w = (none, ctx, w)
  gather_all (g ∷ gs) res ctx w =
      let (val, ctx', w') = perform_gather h g res ctx w in
      elim val [
        | err e ↦ (some (concat ("gather error for key " ∷ g.key ∷ ": " ∷ e ∷ [])), ctx', w')
        | ok v ↦ gather_all gs res (insert g.key (text v) ctx') w'
      ]

  -- After the runner has returned.
  unfoldable pub gather_from :
      Exec → Context → ExecutionResult × Option String × World → Outcome World
  gather_from e ctx (res, some er, w) = record {
    result = res;
    error = some er;
    exec = e;
    context = ctx;
    world = w;
  }
  gather_from e ctx (res, none, w) =
      let (er, ctx', w') = gather_all e.gather res ctx w in
      record { result = res; error = er; exec = e; context = ctx'; world = w' }

  -- The call of the runner.
  unfoldable pub dispatch : Exec → String → Context → World → Outcome World
  unfolding gather_from
  dispatch e shell ctx w =
      let req : ExecutionRequest = record {
        script = e.script;
        shell = shell;
        extension = e.script_file_extension;
      } in
      if e.require_elevation
      then (if has_elevated w then gather_from e ctx (elevated_run req w) else record {
        result = no_result;
        error = some "elevated runner required but not configured";
        exec = e;
        context = ctx;
        world = w;
      })
      else gather_from e ctx (local_run req w)

  -- The shell: a function wins, unless it returns the empty text.
  unfoldable pub choose_shell : Exec → Result String × Context × World → Outcome World
  unfolding dispatch
  choose_shell e (err er, ctx, w) = record {
    result = no_result;
    error = some (concat ("JS error in Exec.ShellFunc: " ∷ er ∷ []));
    exec = e;
    context = ctx;
    world = w;
  }
  choose_shell e (ok js, ctx, w) = dispatch e (if is_empty js then e.shell else js) ctx w

  -- `e.Script` is set, and an empty script runs nothing.
  unfoldable pub run_command : Exec → Context → World → Outcome World
  unfolding choose_shell
  run_command e ctx w =
      if is_empty e.script
      then record { result = skipped; error = none; exec = e; context = ctx; world = w }
      else if not (is_empty e.shell_func)
      then choose_shell e (run_js h e.shell_func ctx w)
      else dispatch e e.shell ctx w

  -- The script: a function wins, and its empty text skips the command.
  unfoldable pub choose_script : Exec → Result String × Context × World → Outcome World
  unfolding run_command
  choose_script e (err er, ctx, w) = record {
    result = no_result;
    error = some (concat ("JS error in Exec.Func: " ∷ er ∷ []));
    exec = e;
    context = ctx;
    world = w;
  }
  choose_script e (ok js, ctx, w) =
      if is_empty js
      then record { result = skipped; error = none; exec = e; context = ctx; world = w }
      else run_command (record e { script = js }) ctx w

  unfoldable pub run_exec : Exec → Context → World → Outcome World
  unfolding choose_script
  run_exec e ctx w =
      if not (is_empty e.func) then choose_script e (run_js h e.func ctx w) else run_command e ctx w
