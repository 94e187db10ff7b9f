-- ===== src/Director/Scores.antt =====
-- The score of an assertion against its threshold (director/director.go, playbook/playbook_types.go).
use mathlib.Core.Bool.{false≢true}
use crobe.Common.{
  ℕ, ◌≡◌, refl, sym, ap, ◌∙◌, false, not, none, List, [], ◌∷◌, String, if◌then◌else◌, All, if-elim,
  arith,
}
use crobe.Common.Int.{ℤ, pos, negsuc, leb_ℤ, eqb_ℤ, add_int}
use crobe.Playbook.{Exec, Cmd, Assertion, get_pass_score, sum_pass_scores, get_min_passing_score}
use crobe.Executor.{Host, Context, Outcome}
use crobe.Director.{CommandLog}
use crobe.Director.Verdict.{judge, add_score}
use crobe.Director.Commands.{Ran, run_side, run_cmds, timed, settle}
use crobe.Director.Assertions.{run_assertion, close_assertion, idle}
use crobe.Director.Uncancelled.{run_side_goes, run_cmds_goes}

full_threshold : (z : ℤ) → leb_ℤ (if eqb_ℤ z (pos 0) then pos 1 else z) z ≡ not (eqb_ℤ z (pos 0))
full_threshold (pos n) = ground arith
full_threshold (negsuc n) = ground arith

-- The threshold that no playbook sets is reached by the full score, unless that is zero.
default_threshold :
    (a : Assertion)
    → a.min_passing_score ≡ none
    → let sum = sum_pass_scores (pos 0) a.cmds in
      leb_ℤ (get_min_passing_score a) sum ≡ not (eqb_ℤ sum (pos 0))
unfolding get_min_passing_score
default_threshold a e =
    rw (e, get_min_passing_score) (full_threshold (sum_pass_scores (pos 0) a.cmds))

module _ (h : Host) (run_exec : Exec → Context → h.World → Outcome h.World)
    (never : (w : h.World) → (h.is_cancelled w).0 ≡ false) where
  open h use {World, now, is_cancelled}

  -- A command that never fails to run, and whose rules always give 1.
  abbrev pub Passes : Cmd → Type 0
  Passes c =
      (ctx : Context) (w : World)
      → let out = run_exec c.exec ctx w in
        (out.error ≡ none) × ((w' : World) → (judge h c out.result out.context w').0 ≡ pos 1)

  settle-Passes :
      (c : Cmd) (score : ℤ) (ctx : Context) (w : World)
      → Passes c
      → let out = (timed h run_exec c.exec ctx w).1 in
        (settle h run_exec c score out out.error).1 ≡ add_int score (get_pass_score c)
  unfolding timed settle add_score
  settle-Passes c score ctx w p = let (e, v) = p ctx (now w).1 in rw e (rw (v _) refl)

  run_cmds_score :
      (score : ℤ) (cs : List Cmd) (ctx : Context) (w : World)
      → All Passes cs
      → (run_cmds h run_exec score cs ctx w).score ≡ sum_pass_scores score cs
  unfolding run_cmds sum_pass_scores
  run_cmds_score score [] ctx w p = refl
  run_cmds_score score (c ∷ cs) ctx w p =
      let w0 = (is_cancelled w).1 in
      let out = (timed h run_exec c.exec ctx w0).1 in
      let (outs, score', ctx', w') = settle h run_exec c score out out.error in
      rw (never w, run_cmds)
        (run_cmds_score score' cs ctx' w' p.1
          ∙ ap (λ z. sum_pass_scores z cs) (settle-Passes c score ctx w0 p.0))

  run_side_score :
      (label code : String) (score : ℤ) (es : List Exec) (ctx : Context) (w : World)
      → (run_side h run_exec label code score es ctx w).score ≡ score
  unfolding run_side
  run_side_score label code score [] ctx w = refl
  run_side_score label code score (e ∷ es) ctx w =
      let out = (timed h run_exec e ctx (is_cancelled w).1).1 in
      rw (never w, run_side) (run_side_score label code score es out.context out.world)

  close_assertion_verdict :
      (a : Assertion) (start : ℕ) (pre_logs cmd_logs : List CommandLog) (outs : List String)
      (post : Ran World)
      → post.stopped ≡ false
      → (close_assertion h run_exec a start pre_logs cmd_logs outs post).context.passed
        ≡ leb_ℤ (get_min_passing_score a) post.score
  unfolding close_assertion
  close_assertion_verdict a start pre_logs cmd_logs outs post e = rw e refl

  -- In a run that is not cancelled, an assertion all of whose main commands run and are judged 1, and
  -- for which the playbook sets no threshold, passes unless its pass scores add up to zero, in which
  -- case it fails. Its preparations and cleanups do not matter, not even when they fail.
  pub full_marks :
      (a : Assertion) (w : World)
      → All Passes a.cmds
      → a.min_passing_score ≡ none
      → (run_assertion h run_exec a w).context.passed
        ≡ not (eqb_ℤ (sum_pass_scores (pos 0) a.cmds) (pos 0))
  unfolding run_assertion
  full_marks a w p e =
      let pre = run_side h run_exec "PreCmd" a.code (pos 0) a.pre_cmds [] (now w).1 in
      let main =
        if pre.stopped
        then idle pre
        else run_cmds h run_exec (pos 0) a.cmds pre.context pre.world in
      let post =
        if main.stopped
        then idle main
        else run_side h run_exec "PostCmd" a.code main.score a.post_cmds main.context main.world in
      let pre_goes =
        run_side_goes h run_exec never "PreCmd" a.code (pos 0) a.pre_cmds [] (now w).1 in
      let sum = sum_pass_scores (pos 0) a.cmds in
      let main_ok : (main.stopped ≡ false) × (main.score ≡ sum) =
        if-elim (λ (r : Ran World). (r.stopped ≡ false) × (r.score ≡ sum)) pre.stopped (idle pre) _
          (λ q. absurd (false≢true (sym pre_goes ∙ q)))
          (λ q. (
            run_cmds_goes h run_exec never (pos 0) a.cmds pre.context pre.world,
            run_cmds_score (pos 0) a.cmds pre.context pre.world p,
          )) in
      let post_ok : (post.stopped ≡ false) × (post.score ≡ main.score) =
        if-elim (λ (r : Ran World). (r.stopped ≡ false) × (r.score ≡ main.score)) main.stopped
          (idle main) _ (λ q. absurd (false≢true (sym (main_ok.0) ∙ q)))
          (λ q. (
            run_side_goes h run_exec never "PostCmd" a.code main.score a.post_cmds main.context
                main.world,
            run_side_score "PostCmd" a.code main.score a.post_cmds main.context main.world,
          )) in
      close_assertion_verdict a (now w).0 pre.logs main.logs main.outputs post post_ok.0
      ∙ ap (leb_ℤ (get_min_passing_score a)) (post_ok.1 ∙ main_ok.1)
      ∙ default_threshold a e
