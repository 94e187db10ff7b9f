-- ===== src/Director/Totals.antt =====
-- The verdicts of the assertions and the totals of a run.
use mathlib.Core.Path.{subst}
use mathlib.Core.Bool.{false≢true}
use crobe.Common.{
  ℕ, suc, ◌+◌, ◌-◌, ◌≡◌, refl, sym, ap, ◌∙◌, ◌⊎◌, inl, inr, true, false, List, [], ◌∷◌, ◌++◌, map,
  String, if◌then◌else◌, length, drop, All, All-append, length-append, arith,
}
use crobe.Playbook.{Exec, Assertion, Section, Playbook}
use crobe.Executor.{Host, Context, Outcome}
use crobe.Director.Assertions.{AssertionRun, run_assertion, close_assertion, unrun_context}
use crobe.Director.Unwind.{open_section, unwind_remaining}
use crobe.Director.Contexts.{
  contexts, contexts-append_at, contexts-open, length-append_at, unwind_adds,
}
use crobe.Director.Steps.{
  asked, ran, announced, entered, assertion_step, section_ran, section_step, count_result_same,
}
use crobe.Director.Run.{
  Flow, give_up, enter, count_result, run_assertions, begin_section, run_sections,
}
use crobe.Director.Judged.{
  IsJudged, IsCancelled, IsFinal, count_passed, count_failed, count_passed-concat,
  count_failed-concat, Judged-Final, unrun-Final,
}

module _ (h : Host) (run_exec : Exec → Context → h.World → Outcome h.World) (config : Playbook)
    (run_id : String) where
  open h use {World, now, is_cancelled}

  run_assertion-kind :
      (x : Assertion) (w : World)
      → let r = run_assertion h run_exec x w in
        (r.cancelled ≡ false → IsJudged r.context) × (r.cancelled ≡ true → IsCancelled r.context)
  unfolding run_assertion close_assertion
  run_assertion-kind x w = (λ e. ground arith, λ e. ground arith)

  -- Before a return: `n` sections are entered, all contexts are judged, and the totals count them.
  pub record IsCounted (n : ℕ) (fl : Flow World) : Type 0 where
    pub on : fl.returned ≡ false
    pub sections : length fl.trace.sections ≡ n
    pub judged : All IsJudged (contexts fl.trace.sections)
    pub passed : fl.passed ≡ count_passed (contexts fl.trace.sections)
    pub failed : fl.failed ≡ count_failed (contexts fl.trace.sections)

  -- The result of a loop.
  abbrev pub Ends : ℕ → Flow World → Type 0
  Ends n fl = All IsFinal (contexts fl.trace.sections) × ((fl.returned ≡ false) → IsCounted n fl)

  give_up-Ends :
      (n s a : ℕ) (fl : Flow World)
      → (length fl.trace.sections ≡ s) ⊎ (length fl.trace.sections ≡ suc s)
      → All IsFinal (contexts fl.trace.sections)
      → Ends n (give_up h run_exec config run_id s a fl)
  unfolding give_up unwind_remaining
  give_up-Ends n s a fl len good =
      let (cs, e, final) =
        unwind_adds (λ cs evs. All IsFinal cs) s a s (drop s config.sections) fl.trace.sections len
          tt (λ xs cs evs p. All-append IsFinal (map unrun_context xs) cs (unrun-Final xs) p) in
      (
        subst (All IsFinal) (sym e) (All-append IsFinal (contexts fl.trace.sections) cs good final),
        λ q. cc,
      )

  -- Entering a context puts it behind the others.
  enter-contexts :
      (s : ℕ) (r : AssertionRun World) (fl : Flow World)
      → length fl.trace.sections ≡ suc s
      → (contexts (enter h run_exec config run_id r fl).trace.sections
          ≡ contexts fl.trace.sections ++ r.context ∷ [])
        × (length (enter h run_exec config run_id r fl).trace.sections ≡ suc s)
  unfolding enter
  enter-contexts s r fl len =
      let ss = fl.trace.sections in
      let i = length ss - 1 in
      (
        contexts-append_at i (r.context ∷ []) ss (omega arith),
        length-append_at i (r.context ∷ []) ss ∙ len,
      )

  count_result_totals :
      (r : AssertionRun World) (fl : Flow World)
      → let out = count_result h run_exec config run_id r fl in
        (out.passed ≡ fl.passed + (if r.context.passed then 1 else 0))
        × (out.failed ≡ fl.failed + (if r.context.passed then 0 else 1))
  unfolding count_result
  count_result_totals r fl = ground arith

  enter_same :
      (r : AssertionRun World) (fl : Flow World)
      → let out = enter h run_exec config run_id r fl in
        (out.returned ≡ fl.returned) × (out.passed ≡ fl.passed) × (out.failed ≡ fl.failed)
  unfolding enter
  enter_same r fl = (refl, refl, refl)

  enter-Counted :
      (s : ℕ) (r : AssertionRun World) (fl : Flow World)
      → IsJudged r.context
      → IsCounted (suc s) fl
      → IsCounted
          (suc s)
          (count_result h run_exec config run_id r (enter h run_exec config run_id r fl))
  enter-Counted s r fl j c =
      let out = enter h run_exec config run_id r fl in
      let cs = contexts fl.trace.sections in
      let (e, len) = enter-contexts s r fl c.sections in
      let judged : All IsJudged (contexts out.trace.sections) =
        subst (All IsJudged) (sym e) (All-append IsJudged cs (r.context ∷ []) c.judged (j, tt)) in
      let counted = count_result_same h run_exec config run_id r out in
      let (p, f) = count_result_totals r out in
      let (on, p0, f0) = enter_same r fl in
      let same = ap (λ tr. tr.sections) counted.1 in
      let cs' = ap contexts same ∙ e in
      record {
        on = counted.0 ∙ on ∙ c.on;
        sections = ap length same ∙ len;
        judged = subst (λ ss. All IsJudged (contexts ss)) (sym same) judged;
        passed =
            omega (arith, p, p0, c.passed, ap count_passed cs', count_passed-concat cs r.context);
        failed =
            omega (arith, f, f0, c.failed, ap count_failed cs', count_failed-concat cs r.context);
      }

  run_assertions-Ends :
      (s total a : ℕ) (xs : List Assertion) (fl : Flow World)
      → IsCounted (suc s) fl
      → Ends (suc s) (run_assertions h run_exec config run_id s total a xs fl)
  unfolding run_assertions
  run_assertions-Ends s total a [] fl c =
      (Judged-Final (contexts fl.trace.sections) c.judged, λ e. c)
  run_assertions-Ends s total a (y ∷ ys) fl c =
      let r = ran h run_exec config run_id y fl in
      let told = announced h run_exec config run_id total a y fl in
      let e = entered h run_exec config run_id total a y fl in
      let c' : IsCounted (suc s) told = record {
        on = c.on;
        sections = c.sections;
        judged = c.judged;
        passed = c.passed;
        failed = c.failed;
      } in
      let kind = run_assertion-kind y (is_cancelled fl.world).1 in
      let cs = contexts fl.trace.sections in
      let final = Judged-Final cs c.judged in
      let (put, len) = enter-contexts s r told c.sections in
      assertion_step h run_exec config run_id (Ends (suc s)) s total a y ys fl
        (λ z. give_up-Ends (suc s) s a (asked h run_exec config run_id fl) (inr c.sections) final)
        (λ q. give_up-Ends (suc s) s (suc a) e (inr len) (
          subst (All IsFinal) (sym put)
            (All-append IsFinal cs (r.context ∷ []) final (inr (kind.1 q), tt))))
        (λ q.
          run_assertions-Ends s total (suc a) ys (count_result h run_exec config run_id r e)
            (enter-Counted s r told (kind.0 q) c'))

  begin-Counted :
      (total s : ℕ) (x : Section) (fl : Flow World)
      → IsCounted s fl
      → IsCounted (suc s) (begin_section h run_exec config run_id x s total fl)
  unfolding begin_section
  begin-Counted total s x fl c =
      let ss = fl.trace.sections in
      let same = contexts-open ss x in
      record {
        on = c.on;
        sections = omega (arith, c.sections, length-append {0} ss (open_section x ∷ []));
        judged = subst (All IsJudged) (sym same) c.judged;
        passed = c.passed ∙ ap count_passed (sym same);
        failed = c.failed ∙ ap count_failed (sym same);
      }

  pub run_sections-Ends :
      (total s : ℕ) (xs : List Section) (fl : Flow World)
      → IsCounted s fl
      → Ends (s + length xs) (run_sections h run_exec config run_id total s xs fl)
  unfolding run_sections
  run_sections-Ends total s [] fl c = (
    Judged-Final (contexts fl.trace.sections) c.judged,
    λ e. subst (λ n. IsCounted n fl) (omega arith) c,
  )
  run_sections-Ends total s (x ∷ xs) fl c =
      let fl' = asked h run_exec config run_id fl in
      let c' : IsCounted s fl' = record {
        on = c.on;
        sections = c.sections;
        judged = c.judged;
        passed = c.passed;
        failed = c.failed;
      } in
      let n = s + suc (length xs) in
      let r = section_ran h run_exec config run_id total s x fl in
      let (final, counted) : Ends (suc s) r =
        run_assertions-Ends s (length x.assertions) 0 x.assertions
          (begin_section h run_exec config run_id x s total fl') (begin-Counted total s x fl' c') in
      let same : suc s + length xs ≡ n = omega arith in
      section_step h run_exec config run_id (Ends n) total s x xs fl
        (λ z.
          give_up-Ends n s 0 fl' (inl c.sections)
            (Judged-Final (contexts fl.trace.sections) c.judged))
        (λ q. (final, λ q'. absurd (false≢true (sym q' ∙ q))))
        (λ q.
          subst (λ m. Ends m (run_sections h run_exec config run_id total (suc s) xs r)) same
            (run_sections-Ends total (suc s) xs r (counted q)))
