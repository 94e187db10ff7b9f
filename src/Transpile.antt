-- ===== src/Transpile.antt =====
-- The preprocessing of a playbook (internal/transpile/preprocess.go): each reference to an external script
-- becomes the script's code. `Transpile`, which reads a file and calls esbuild, and `filepath.Join` are
-- parameters. On an error Go leaves a playbook that is processed in part: the callers drop it.
use crobe.Common.{List, [], ◌∷◌, String, if◌then◌else◌, is_empty}
use crobe.Common.Text.{concat}
use crobe.Common.Result.{Result, ok, err, ◌>>=◌, traverse}
use crobe.Playbook.{GatherSpec, Exec, EvaluationRule, Cmd, Assertion, Section, Playbook}
pub mod Inline

-- The error text of a failed call, with the field and the file that it names.
unfoldable pub wrap : String → String → Result String → Result String
wrap field file (ok code) = ok code
wrap field file (err e) =
    err (concat ("transpilation error for " ∷ field ∷ " (" ∷ file ∷ "): " ∷ e ∷ []))

module _ (transpile : String → Result String) (join_path : String → String → String)
    (base_dir : String) where
  -- The code that replaces a file, if one is named.
  unfoldable pub load : String → String → String → Result String
  load field file code =
      if is_empty file then ok code else wrap field file (transpile (join_path base_dir file))

  unfoldable pub process_gather : GatherSpec → Result GatherSpec
  process_gather g = do
    code ← load "gather funcFile" g.func_file g.func
    ok (record g { func = code; func_file = "" })

  -- `processExec`
  unfoldable pub process_exec : Exec → Result Exec
  process_exec e = do
    shell_code ← load "shellFuncFile" e.shell_func_file e.shell_func
    code ← load "funcFile" e.func_file e.func
    gather' ← traverse process_gather e.gather
    ok (record e {
      shell_func = shell_code;
      shell_func_file = "";
      func = code;
      func_file = "";
      gather = gather';
    })

  -- `processEvalRule`
  unfoldable pub process_eval_rule : EvaluationRule → Result EvaluationRule
  process_eval_rule r = do
    code ← load "evaluationRule funcFile" r.func_file r.func
    ok (record r { func = code; func_file = "" })

  unfoldable pub process_cmd : Cmd → Result Cmd
  process_cmd c = do
    e ← process_exec c.exec
    out_rule ← process_eval_rule c.std_out_rule
    err_rule ← process_eval_rule c.std_err_rule
    ok (record c { exec = e; std_out_rule = out_rule; std_err_rule = err_rule })

  -- `processAssertion`
  unfoldable pub process_assertion : Assertion → Result Assertion
  process_assertion a = do
    pre ← traverse process_exec a.pre_cmds
    main ← traverse process_cmd a.cmds
    post ← traverse process_exec a.post_cmds
    ok (record a { pre_cmds = pre; cmds = main; post_cmds = post })

  unfoldable pub process_section : Section → Result Section
  process_section s = do
    xs ← traverse process_assertion s.assertions
    ok (record s { assertions = xs })

  -- `Preprocess`
  unfoldable pub preprocess : Playbook → Result Playbook
  preprocess p = do ss ← traverse process_section p.sections; ok (record p { sections = ss })
