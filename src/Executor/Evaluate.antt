-- ===== src/Executor/Evaluate.antt =====
-- `PerformGather` and `EvaluateRule` (executor/executor.go): data out of the outputs, and a verdict on them.
use crobe.Common.{
  Bool, true, false, not, ◌&&◌, Option, none, some, List, [], ◌∷◌, String, if◌then◌else◌, is_empty,
}
use crobe.Common.Int.{ℤ, pos, negsuc}
use crobe.Common.Result.{Result, ok, err}
use crobe.Playbook.{GatherSpec, EvaluationRule, rule_include_std_err, gather_include_std_err}
use crobe.Executor.{Host, Context, Globals, outputs, ExecutionResult}
use crobe.Executor.Script.{map_ok}

-- The text that a regular expression reads.
abbrev pub input_of : Bool → ExecutionResult → String
input_of include_std_err res =
    if include_std_err && is_empty res.stdout then res.stderr else res.stdout

-- The first group of a match, or else the match, or else nothing.
abbrev pub first_group : List String → String
first_group [] = ""
first_group (m ∷ []) = m
first_group (m ∷ g ∷ gs) = g

-- `EvaluateRule` returns 0 with every error.
abbrev pub verdict_of : Result ℤ → ℤ × Option String
verdict_of (ok n) = (n, none)
verdict_of (err e) = (pos 0, some e)

abbrev pub regex_verdict : Result Bool → ℤ × Option String
regex_verdict (ok true) = (pos 1, none)
regex_verdict (ok false) = (negsuc 0, none)
regex_verdict (err e) = (pos 0, some e)

module _ (h : Host) where
  open h use {
    World, JsValue, run_string, is_function, call, to_text, to_integer, find_submatch, match_string,
  }

  -- A script over the outputs: its value, or the result of calling it if it is a function.
  unfoldable pub finish_script :
      Globals → Result JsValue × Context × World → Result JsValue × Context × World
  finish_script g (err e, ctx, w) = (err e, ctx, w)
  finish_script g (ok val, ctx, w) = if is_function val then call g val ctx w else (ok val, ctx, w)

  unfoldable pub run_script :
      String → ExecutionResult → Context → World → Result JsValue × Context × World
  unfolding finish_script
  run_script code res ctx w =
      let g = outputs res.stdout res.stderr in finish_script g (run_string g code ctx w)

  unfoldable pub perform_gather :
      GatherSpec → ExecutionResult → Context → World → Result String × Context × World
  perform_gather g res ctx w =
      if not (is_empty g.func)
      then (let (val, ctx', w') = run_script g.func res ctx w in (map_ok to_text val, ctx', w'))
      else if not (is_empty g.regex)
      then (
        map_ok first_group (find_submatch g.regex (input_of (gather_include_std_err g) res)),
        ctx,
        w,
      )
      else (ok "", ctx, w)

  unfoldable pub evaluate_rule :
      EvaluationRule → ExecutionResult → Context → World → (ℤ × Option String) × Context × World
  evaluate_rule rule res ctx w =
      if not (is_empty rule.func)
      then (let (val, ctx', w') = run_script rule.func res ctx w in
          (verdict_of (map_ok to_integer val), ctx', w'))
      else if not (is_empty rule.regex)
      then (
        regex_verdict (match_string rule.regex (input_of (rule_include_std_err rule) res)),
        ctx,
        w,
      )
      else ((pos 0, none), ctx, w)
