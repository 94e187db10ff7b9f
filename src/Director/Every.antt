-- ===== src/Director/Every.antt =====
-- What holds of the context of every assertion that is run, and of every one that is not, holds of every
-- context of a trace.
use mathlib.Core.Path.{subst}
use crobe.Common.{
  ℕ, suc, ◌-◌, ◌≡◌, refl, sym, ap, ◌∙◌, ◌⊎◌, inl, inr, false, List, [], ◌∷◌, map, String, length,
  drop, length-append, arith, All, All-append,
}
use crobe.Playbook.{Exec, Assertion, Section, Playbook}
use crobe.Executor.{Host, Context, Outcome}
use crobe.Director.{AssertionContext}
use crobe.Director.Assertions.{AssertionRun, run_assertion, unrun_context}
use crobe.Director.Unwind.{open_section, unwind_remaining}
use crobe.Director.Contexts.{
  contexts, contexts-append_at, length-append_at, contexts-open, unwind_adds,
}
use crobe.Director.Steps.{
  asked, ran, announced, entered, assertion_step, section_ran, section_step, count_result_same,
  looped, run_step,
}
use crobe.Director.Run.{
  Machine, Flow, give_up, enter, count_result, run_assertions, begin_section, run_sections,
  complete, first_flow, run_with_observer,
}

map-All :
    (P : AssertionContext → Type 0) (xs : List Assertion)
    → ((x : Assertion) → P (unrun_context x))
    → All P (map unrun_context xs)
map-All P [] unrun = tt
map-All P (x ∷ xs) unrun = (unrun x, map-All P xs unrun)

module _ (h : Host) (run_exec : Exec → Context → h.World → Outcome h.World) (config : Playbook)
    (run_id : String) (P : AssertionContext → Type 0)
    (on_run : (x : Assertion) (w : h.World) → P (run_assertion h run_exec x w).context)
    (on_unrun : (x : Assertion) → P (unrun_context x)) where
  open h use {World, now, is_cancelled}

  -- `n` sections are entered, unless the run has returned.
  record Has (n : ℕ) (fl : Flow World) : Type 0 where
    every : All P (contexts fl.trace.sections)
    sections : fl.returned ≡ false → length fl.trace.sections ≡ n

  give_up-Has :
      (n s a : ℕ) (fl : Flow World)
      → (length fl.trace.sections ≡ s) ⊎ (length fl.trace.sections ≡ suc s)
      → All P (contexts fl.trace.sections)
      → Has n (give_up h run_exec config run_id s a fl)
  unfolding give_up unwind_remaining
  give_up-Has n s a fl len good =
      let secs = fl.trace.sections in
      let (cs, e, p) =
        unwind_adds (λ cs evs. All P cs) s a s (drop s config.sections) secs len tt
          (λ xs cs evs p. All-append P (map unrun_context xs) cs (map-All P xs on_unrun) p) in
      record {
        every = subst (All P) (sym e) (All-append P (contexts secs) cs good p);
        sections = λ q. cc;
      }

  enter-Has :
      (s : ℕ) (r : AssertionRun World) (fl : Flow World)
      → length fl.trace.sections ≡ suc s
      → All P (contexts fl.trace.sections)
      → P r.context
      → let out = enter h run_exec config run_id r fl in
        (length out.trace.sections ≡ suc s) × All P (contexts out.trace.sections)
  unfolding enter
  enter-Has s r fl len good p =
      let ss = fl.trace.sections in
      let i = length ss - 1 in
      (
        length-append_at i (r.context ∷ []) ss ∙ len,
        subst (All P) (sym (contexts-append_at i (r.context ∷ []) ss (omega arith)))
            (All-append P (contexts ss) (r.context ∷ []) good (p, tt)),
      )

  run_assertions-Has :
      (s total a : ℕ) (xs : List Assertion) (fl : Flow World)
      → length fl.trace.sections ≡ suc s
      → All P (contexts fl.trace.sections)
      → Has (suc s) (run_assertions h run_exec config run_id s total a xs fl)
  unfolding run_assertions
  run_assertions-Has s total a [] fl len good = record { every = good; sections = λ q. len }
  run_assertions-Has s total a (y ∷ ys) fl len good =
      let r = ran h run_exec config run_id y fl in
      let said = announced h run_exec config run_id total a y fl in
      let e = entered h run_exec config run_id total a y fl in
      let (len', good') = enter-Has s r said len good (on_run y (is_cancelled fl.world).1) in
      let same = ap (λ tr. tr.sections) (count_result_same h run_exec config run_id r e).1 in
      assertion_step h run_exec config run_id (Has (suc s)) s total a y ys fl
        (λ z. give_up-Has (suc s) s a (asked h run_exec config run_id fl) (inr len) good)
        (λ q. give_up-Has (suc s) s (suc a) e (inr len') good')
        (λ q.
          run_assertions-Has s total (suc a) ys (count_result h run_exec config run_id r e)
            (ap length same ∙ len') (subst (λ ss. All P (contexts ss)) (sym same) good'))

  section_ran-Has :
      (total s : ℕ) (x : Section) (fl : Flow World)
      → length fl.trace.sections ≡ s
      → All P (contexts fl.trace.sections)
      → Has (suc s) (section_ran h run_exec config run_id total s x fl)
  unfolding begin_section
  section_ran-Has total s x fl len good =
      let ss = fl.trace.sections in
      run_assertions-Has s (length x.assertions) 0 x.assertions
        (begin_section h run_exec config run_id x s total (asked h run_exec config run_id fl))
        (omega (arith, len, length-append {0} ss (open_section x ∷ [])))
        (subst (All P) (sym (contexts-open ss x)) good)

  run_sections-Has :
      (total s : ℕ) (xs : List Section) (fl : Flow World)
      → length fl.trace.sections ≡ s
      → All P (contexts fl.trace.sections)
      → All P (contexts (run_sections h run_exec config run_id total s xs fl).trace.sections)
  unfolding run_sections
  run_sections-Has total s [] fl len good = good
  run_sections-Has total s (x ∷ xs) fl len good =
      let r = section_ran h run_exec config run_id total s x fl in
      let has : Has (suc s) r = section_ran-Has total s x fl len good in
      section_step h run_exec config run_id (λ out. All P (contexts out.trace.sections)) total s x
        xs fl (λ z. (give_up-Has s s 0 (asked h run_exec config run_id fl) (inl len) good).every)
        (λ q. has.every) (λ q. run_sections-Has total (suc s) xs r (has.sections q) has.every)

  pub contexts-Every :
      (m : Machine) (w : World)
      → All P (contexts (run_with_observer h run_exec config run_id m w).trace.sections)
  unfolding complete
  contexts-Every m w =
      let all : All P (contexts (looped h run_exec config run_id m w).trace.sections) =
        run_sections-Has (length config.sections) 0 config.sections
          (first_flow h run_exec config run_id m w) refl tt in
      run_step h run_exec config run_id (λ fl. All P (contexts fl.trace.sections)) m w (λ q. all)
        (λ q. all)
