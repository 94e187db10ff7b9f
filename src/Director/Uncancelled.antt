-- ===== src/Director/Uncancelled.antt =====
-- A run whose context is never cancelled (director/director.go).
use mathlib.Core.Bool.{false≢true}
use crobe.Director.{Event, run_complete, run_cancelled}
use crobe.Director.Outline.{shape, outline}
use crobe.Director.Coverage.{trace_covers}
use crobe.Director.Contexts.{contexts}
use crobe.Director.Judged.{IsJudged}
use crobe.Director.Completed.{assertion_total, completed_totals}
use crobe.Director.Protocol.Told.{last_event, events_tell}
use crobe.Common.{
  ap, ◌++◌, ◌+◌, All, ℕ, suc, ◌≡◌, refl, sym, ◌∙◌, false, List, [], ◌∷◌, String, if◌then◌else◌,
  length, if-elim,
}
use crobe.Common.Int.{ℤ, pos}
use crobe.Playbook.{Exec, Cmd, Assertion, Section, Playbook}
use crobe.Executor.{Host, Context, Outcome}
use crobe.Director.Commands.{Ran, run_side, run_cmds, timed, settle}
use crobe.Director.Assertions.{run_assertion, close_assertion, idle}
use crobe.Director.Steps.{
  asked, ran, entered, assertion_step, section_ran, section_step, count_result_same, run_step,
}
use crobe.Director.Run.{
  Machine, Flow, enter, count_result, run_assertions, begin_section, run_sections, complete,
  first_flow, run_with_observer,
}

module _ (h : Host) (run_exec : Exec → Context → h.World → Outcome h.World)
    (never : (w : h.World) → (h.is_cancelled w).0 ≡ false) where
  open h use {World, now, is_cancelled}

  pub run_side_goes :
      (label code : String) (score : ℤ) (es : List Exec) (ctx : Context) (w : World)
      → (run_side h run_exec label code score es ctx w).stopped ≡ false
  unfolding run_side
  run_side_goes label code score [] ctx w = refl
  run_side_goes label code score (e ∷ es) ctx w =
      let out = (timed h run_exec e ctx (is_cancelled w).1).1 in
      rw (never w, run_side) (run_side_goes label code score es out.context out.world)

  pub run_cmds_goes :
      (score : ℤ) (cs : List Cmd) (ctx : Context) (w : World)
      → (run_cmds h run_exec score cs ctx w).stopped ≡ false
  unfolding run_cmds
  run_cmds_goes score [] ctx w = refl
  run_cmds_goes score (c ∷ cs) ctx w =
      let out = (timed h run_exec c.exec ctx (is_cancelled w).1).1 in
      let (outs, score', ctx', w') = settle h run_exec c score out out.error in
      rw (never w, run_cmds) (run_cmds_goes score' cs ctx' w')

  run_assertion_goes :
      (x : Assertion) (w : World) → (run_assertion h run_exec x w).cancelled ≡ false
  unfolding run_assertion close_assertion
  run_assertion_goes x w =
      let pre = run_side h run_exec "PreCmd" x.code (pos 0) x.pre_cmds [] (now w).1 in
      let main =
        if pre.stopped
        then idle pre
        else run_cmds h run_exec (pos 0) x.cmds pre.context pre.world in
      let pre_goes = run_side_goes "PreCmd" x.code (pos 0) x.pre_cmds [] (now w).1 in
      let main_goes : main.stopped ≡ false =
        if-elim (λ (r : Ran World). r.stopped ≡ false) pre.stopped (idle pre) _
          (λ e. absurd (false≢true (sym pre_goes ∙ e)))
          (λ e. run_cmds_goes (pos 0) x.cmds pre.context pre.world) in
      if-elim (λ (r : Ran World). r.stopped ≡ false) main.stopped (idle main) _
        (λ e. absurd (false≢true (sym main_goes ∙ e)))
        (λ e. run_side_goes "PostCmd" x.code main.score x.post_cmds main.context main.world)

module _ (h : Host) (run_exec : Exec → Context → h.World → Outcome h.World) (config : Playbook)
    (run_id : String) (never : (w : h.World) → (h.is_cancelled w).0 ≡ false) where
  open h use {World, now, is_cancelled}

  run_assertions_goes :
      (s total a : ℕ) (xs : List Assertion) (fl : Flow World)
      → fl.returned ≡ false
      → (run_assertions h run_exec config run_id s total a xs fl).returned ≡ false
  unfolding run_assertions
  run_assertions_goes s total a [] fl on = on
  run_assertions_goes s total a (y ∷ ys) fl on =
      let r = ran h run_exec config run_id y fl in
      let e = entered h run_exec config run_id total a y fl in
      assertion_step h run_exec config run_id (λ out. out.returned ≡ false) s total a y ys fl
        (λ q. absurd (false≢true (sym (never fl.world) ∙ q)))
        (λ q.
          absurd (
            false≢true (sym (run_assertion_goes h run_exec never y (is_cancelled fl.world).1) ∙ q)))
        (λ q.
          run_assertions_goes s total (suc a) ys (count_result h run_exec config run_id r e)
            ((count_result_same h run_exec config run_id r e).0 ∙ unfold enter in on))

  section_ran_goes :
      (total s : ℕ) (x : Section) (fl : Flow World)
      → fl.returned ≡ false
      → (section_ran h run_exec config run_id total s x fl).returned ≡ false
  unfolding begin_section
  section_ran_goes total s x fl on =
      run_assertions_goes s (length x.assertions) 0 x.assertions
        (begin_section h run_exec config run_id x s total (asked h run_exec config run_id fl)) on

  run_sections_goes :
      (total s : ℕ) (xs : List Section) (fl : Flow World)
      → fl.returned ≡ false
      → (run_sections h run_exec config run_id total s xs fl).returned ≡ false
  unfolding run_sections
  run_sections_goes total s [] fl on = on
  run_sections_goes total s (x ∷ xs) fl on =
      section_step h run_exec config run_id (λ out. out.returned ≡ false) total s x xs fl
        (λ q. absurd (false≢true (sym (never fl.world) ∙ q)))
        (λ q. absurd (false≢true (sym (section_ran_goes total s x fl on) ∙ q)))
        (λ q.
          run_sections_goes total (suc s) xs (section_ran h run_exec config run_id total s x fl) q)

  -- It does not return from inside a loop.
  pub uncancelled_returns :
      (m : Machine) (w : World) → (run_with_observer h run_exec config run_id m w).returned ≡ false
  unfolding complete
  uncancelled_returns m w =
      let goes =
        run_sections_goes (length config.sections) 0 config.sections
          (first_flow h run_exec config run_id m w) refl in
      run_step h run_exec config run_id (λ out. out.returned ≡ false) m w
        (λ q. absurd (false≢true (sym goes ∙ q))) (λ q. q)

  -- A run whose context is never cancelled goes through the whole playbook: the trace has the playbook's
  -- sections and assertions in order, every assertion has run to its end and is judged by its score and
  -- its threshold, none is cancelled, the totals add up to the number of assertions, and the last event
  -- completes the run with this trace.
  pub uncancelled_completes :
      (m : Machine) (w : World)
      → let fl = run_with_observer h run_exec config run_id m w in
        (shape fl.trace.sections ≡ outline config.sections)
        × All IsJudged (contexts fl.trace.sections)
        × (fl.trace.total_passed + fl.trace.total_failed ≡ assertion_total config.sections)
        × (front : List Event) × (fl.events ≡ front ++ run_complete fl.trace ∷ [])
  uncancelled_completes m w =
      let fl = run_with_observer h run_exec config run_id m w in
      let on = uncancelled_returns m w in
      let (judged, _, _, size) = completed_totals h run_exec config run_id m w on in
      let (front, events, _, _) = events_tell h run_exec config run_id m w in
      let last : last_event h run_exec config run_id fl ≡ run_complete fl.trace =
        ap (λ b. if b then run_cancelled run_id fl.trace else run_complete fl.trace) on in
      (
        trace_covers h run_exec config run_id m w,
        judged,
        size,
        front,
        events ∙ ap (λ e. front ++ e ∷ []) last,
      )
