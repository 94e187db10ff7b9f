-- ===== src/Director/Verdict.antt =====
-- How a main command is judged (director/director.go): the rules for its exit code, then the rule for
-- its output, then the rule for its error output.
use crobe.Common.{
  Bool, false, not, ◌&&◌, ◌||◌, Option, none, some, List, [], ◌∷◌, if◌then◌else◌, is_empty,
}
use crobe.Common.Int.{ℤ, pos, negsuc, ltb_ℤ, eqb_ℤ, add_int}
use crobe.Playbook.{ExitCodeRule, EvaluationRule, Cmd, get_pass_score, get_fail_score}
use crobe.Executor.{Host, Context, ExecutionResult}
use crobe.Executor.Evaluate.{evaluate_rule}

abbrev below_min : Option ℤ → ℤ → Bool
below_min none code = false
below_min (some m) code = ltb_ℤ code m

abbrev above_max : Option ℤ → ℤ → Bool
above_max none code = false
above_max (some m) code = ltb_ℤ m code

abbrev pub rule_matches : ExitCodeRule → ℤ → Bool
rule_matches r code = not (below_min r.min_code code) && not (above_max r.max_code code)

-- The first rule that matches, or else 1 for the exit code 0 and -1 for any other.
unfoldable pub exit_code_result : List ExitCodeRule → ℤ → ℤ
exit_code_result [] code = if eqb_ℤ code (pos 0) then pos 1 else negsuc 0
exit_code_result (r ∷ rs) code =
    let rest = exit_code_result rs code in if rule_matches r code then r.result else rest

abbrev pub has_rule : EvaluationRule → Bool
has_rule r = not (is_empty r.regex) || not (is_empty r.func)

module _ (h : Host) where
  open h use {World}

  -- A rule that is set overrides the result, unless its verdict is 0. Its error is dropped.
  unfoldable pub apply_rule :
      EvaluationRule → ExecutionResult → ℤ → Context → World → ℤ × Context × World
  apply_rule r res result ctx w =
      let (v, ctx', w') = evaluate_rule h r res ctx w in
      if has_rule r then (if eqb_ℤ v.0 (pos 0) then result else v.0, ctx', w') else (result, ctx, w)

  unfoldable pub judge : Cmd → ExecutionResult → Context → World → ℤ × Context × World
  judge c res ctx w =
      let (r1, ctx1, w1) =
        apply_rule c.std_out_rule res (exit_code_result c.exit_code_rules res.exit_code) ctx w in
      apply_rule c.std_err_rule res r1 ctx1 w1

-- The `switch` on the result.
unfoldable pub add_score : Cmd → ℤ → ℤ → ℤ
add_score c result score =
    if eqb_ℤ result (pos 1)
    then add_int score (get_pass_score c)
    else if eqb_ℤ result (negsuc 0)
    then add_int score (get_fail_score c)
    else score
