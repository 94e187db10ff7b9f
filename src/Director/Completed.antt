-- ===== src/Director/Completed.antt =====
-- The contexts and the totals of a whole run.
use mathlib.Core.Path.{subst}
use mathlib.Core.Bool.{false≢true}
use crobe.Common.{
  ℕ, ◌+◌, ◌≡◌, refl, sym, ap, ◌∙◌, false, List, [], ◌∷◌, String, length, length-append, length-map,
  All, arith,
}
use crobe.Playbook.{Exec, Assertion, Section, Playbook}
use crobe.Executor.{Host, Context, Outcome}
use crobe.Director.{AssertionContext, SectionContext}
use crobe.Director.Outline.{shape, outline}
use crobe.Director.Coverage.{trace_covers}
use crobe.Director.Contexts.{contexts}
use crobe.Director.Judged.{IsJudged, IsFinal, count_passed, count_failed, count_all}
use crobe.Director.Totals.{Ends, run_sections-Ends}
use crobe.Director.Steps.{looped, run_step}
use crobe.Director.Run.{Machine, complete, first_flow, run_with_observer}

abbrev total_of : List (Section × List Assertion) → ℕ
total_of [] = 0
total_of ((s, xs) ∷ ys) = length xs + total_of ys

-- The number of assertions of a playbook.
abbrev pub assertion_total : List Section → ℕ
assertion_total [] = 0
assertion_total (s ∷ ss) = length s.assertions + assertion_total ss

length-contexts : (ss : List SectionContext) → length (contexts ss) ≡ total_of (shape ss)
length-contexts [] = refl
length-contexts (s ∷ ss) = omega (
  arith,
  length-append {0} s.assertions (contexts ss),
  length-contexts ss,
  length-map {0, 0} (λ (c : AssertionContext). c.playbook_assertion) s.assertions,
)

total_of-outline : (ss : List Section) → total_of (outline ss) ≡ assertion_total ss
total_of-outline [] = refl
total_of-outline (s ∷ ss) = omega (arith, total_of-outline ss)

module _ (h : Host) (run_exec : Exec → Context → h.World → Outcome h.World) (config : Playbook)
    (run_id : String) where
  open h use {World}

  run_Ends :
      (m : Machine) (w : World)
      → Ends h run_exec config run_id (length config.sections) (looped h run_exec config run_id m w)
  run_Ends m w =
      subst (λ n. Ends h run_exec config run_id n (looped h run_exec config run_id m w))
        (omega arith)
        (run_sections-Ends h run_exec config run_id (length config.sections) 0 config.sections
          (first_flow h run_exec config run_id m w)
          (record { on = refl; sections = refl; judged = tt; passed = refl; failed = refl }))

  -- Every context of a trace is that of an assertion which has run to its end, with the verdict that
  -- its score and the threshold of the playbook give, or of a cancelled one, which has not passed and
  -- shows neither a score nor a context.
  pub contexts-Final :
      (m : Machine) (w : World)
      → All IsFinal (contexts (run_with_observer h run_exec config run_id m w).trace.sections)
  unfolding complete
  contexts-Final m w =
      run_step h run_exec config run_id (λ fl. All IsFinal (contexts fl.trace.sections)) m w
        (λ e. (run_Ends m w).0) (λ e. (run_Ends m w).0)

  completed_counts :
      (m : Machine) (w : World)
      → (run_with_observer h run_exec config run_id m w).returned ≡ false
      → let trace = (run_with_observer h run_exec config run_id m w).trace in
        All IsJudged (contexts trace.sections)
        × (trace.total_passed ≡ count_passed (contexts trace.sections))
        × (trace.total_failed ≡ count_failed (contexts trace.sections))
  unfolding complete
  completed_counts m w =
      run_step h run_exec config run_id
        (λ fl.
          fl.returned ≡ false
          → All IsJudged (contexts fl.trace.sections)
            × (fl.trace.total_passed ≡ count_passed (contexts fl.trace.sections))
            × (fl.trace.total_failed ≡ count_failed (contexts fl.trace.sections)))
        m w (λ e e'. absurd (false≢true (sym e' ∙ e)))
        (λ e e'. let c = (run_Ends m w).1 e in (c.judged, c.passed, c.failed))

  -- A run that was not unwound has judged every assertion of the playbook, and its totals are the
  -- numbers of those that passed and of those that failed, which add up to the number of assertions.
  pub completed_totals :
      (m : Machine) (w : World)
      → (run_with_observer h run_exec config run_id m w).returned ≡ false
      → let trace = (run_with_observer h run_exec config run_id m w).trace in
        All IsJudged (contexts trace.sections)
        × (trace.total_passed ≡ count_passed (contexts trace.sections))
        × (trace.total_failed ≡ count_failed (contexts trace.sections))
        × (trace.total_passed + trace.total_failed ≡ assertion_total config.sections)
  completed_totals m w e =
      let ss = (run_with_observer h run_exec config run_id m w).trace.sections in
      let (judged, p, f) = completed_counts m w e in
      let size : length (contexts ss) ≡ assertion_total config.sections =
        length-contexts ss
        ∙ ap total_of (trace_covers h run_exec config run_id m w)
        ∙ total_of-outline config.sections in
      (judged, p, f, omega (arith, p, f, count_all (contexts ss), size))
