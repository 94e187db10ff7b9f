-- ===== src/Director/Coverage.antt =====
-- The trace names every assertion of the playbook once, in order, however the run ends.
use mathlib.Core.Path.{ap₂, subst}
use crobe.Common.{
  ℕ, suc, ◌-◌, ◌≡◌, refl, sym, ap, ◌∙◌, inl, inr, false, List, [], ◌∷◌, ◌++◌, String, if◌then◌else◌,
  length, drop, length-append, append_assoc, append-nil, map-append, arith, Bool-cases,
}
use crobe.Playbook.{Exec, Assertion, Section, Playbook}
use crobe.Executor.{Host, Context, Outcome}
use crobe.Director.{SectionContext}
use crobe.Director.Assertions.{AssertionRun, run_assertion, close_assertion}
use crobe.Director.Unwind.{open_section, unwind_remaining}
use crobe.Director.Outline.{
  length-shape, names, shape, outline, append_at-last, shape-concat, unwind_later, unwind_here,
  drop-suc,
}
use crobe.Director.Steps.{
  asked, ran, announced, entered, assertion_step, section_ran, section_step, count_result_same,
}
use crobe.Director.Run.{
  Machine, Flow, give_up, enter, count_result, run_assertions, begin_section, run_sections,
  complete, first_flow, run_with_observer,
}

module _ (h : Host) (run_exec : Exec → Context → h.World → Outcome h.World) (config : Playbook)
    (run_id : String) where
  open h use {World, now, is_cancelled}

  pub context-names :
      (x : Assertion) (w : World) → (run_assertion h run_exec x w).context.playbook_assertion ≡ x
  unfolding run_assertion close_assertion
  context-names x w = ground arith

  -- The sections that are entered, the one that is running, and what is left of the playbook.
  record Here (s a : ℕ) (done : List SectionContext) (t : SectionContext) (x : Section)
      (rest : List Section) (xs : List Assertion) (secs : List SectionContext) : Type 0 where
    left : drop s config.sections ≡ x ∷ rest
    place : length done ≡ s
    listed : secs ≡ done ++ t ∷ []
    own : t.playbook_section ≡ x
    covered : names t.assertions ++ xs ≡ x.assertions
    next : drop a x.assertions ≡ xs

  -- What a loop over assertions gives: the whole playbook if it returned, else the section.
  abbrev CoversSection : List SectionContext → Section → List Section → Flow World → Type 0
  CoversSection done x rest fl =
      shape fl.trace.sections ≡ shape done ++ outline (x ∷ (if fl.returned then rest else []))

  give_up-Covers :
      (s a : ℕ) (done : List SectionContext) (t : SectionContext) (x : Section)
      (rest : List Section) (xs : List Assertion) (fl : Flow World)
      → Here s a done t x rest xs fl.trace.sections
      → CoversSection done x rest (give_up h run_exec config run_id s a fl)
  unfolding give_up unwind_remaining
  give_up-Covers s a done t x rest xs fl here =
      rw (here.left, here.listed, ← here.place)
        (unwind_here a x rest done t here.own
          (ap (λ zs. names t.assertions ++ zs) here.next ∙ here.covered))

  enter-Here :
      (s a : ℕ) (done : List SectionContext) (t : SectionContext) (x : Section)
      (rest : List Section) (y : Assertion) (ys : List Assertion) (fl fl' : Flow World)
      (r : AssertionRun World)
      → r.context.playbook_assertion ≡ y
      → fl'.trace ≡ fl.trace
      → Here s a done t x rest (y ∷ ys) fl.trace.sections
      → Here s
          (suc a)
          done
          (record t { assertions = t.assertions ++ r.context ∷ [] })
          x
          rest
          ys
          (enter h run_exec config run_id r fl').trace.sections
  unfolding enter
  enter-Here s a done t x rest y ys fl fl' r named same here =
      let secs : fl'.trace.sections ≡ done ++ t ∷ [] = ap (λ tr. tr.sections) same ∙ here.listed in
      let last : length (done ++ t ∷ []) - 1 ≡ length done =
        omega (arith, length-append {0} done (t ∷ [])) in
      record {
        left = here.left;
        place = here.place;
        listed = rw (secs, last) (append_at-last done t (r.context ∷ []));
        own = here.own;
        covered =
            ap (λ zs. zs ++ ys) (map-append _ t.assertions (r.context ∷ []))
            ∙ append_assoc (names t.assertions) (r.context.playbook_assertion ∷ []) ys
            ∙ ap (λ z. names t.assertions ++ z ∷ ys) named
            ∙ here.covered;
        next = drop-suc a x.assertions y ys here.next;
      }

  run_assertions-Covers :
      (s total a : ℕ) (done : List SectionContext) (t : SectionContext) (x : Section)
      (rest : List Section) (xs : List Assertion) (fl : Flow World)
      → fl.returned ≡ false
      → Here s a done t x rest xs fl.trace.sections
      → CoversSection done x rest (run_assertions h run_exec config run_id s total a xs fl)
  unfolding run_assertions
  run_assertions-Covers s total a done t x rest [] fl on here =
      rw (here.listed, on)
        (sym (append-nil (shape (done ++ t ∷ [])))
          ∙ shape-concat done t []
          ∙ ap₂ (λ z zs. shape done ++ (z, zs) ∷ []) here.own
              (sym (append-nil (names t.assertions)) ∙ here.covered))
  run_assertions-Covers s total a done t x rest (y ∷ ys) fl on here =
      let r = ran h run_exec config run_id y fl in
      let e = entered h run_exec config run_id total a y fl in
      let t' = record t { assertions = t.assertions ++ r.context ∷ [] } in
      let here' : Here s (suc a) done t' x rest ys e.trace.sections =
        enter-Here s a done t x rest y ys fl (announced h run_exec config run_id total a y fl) r
          (context-names y (is_cancelled fl.world).1) refl here in
      let same = count_result_same h run_exec config run_id r e in
      let on' : e.returned ≡ false = unfold enter in on in
      assertion_step h run_exec config run_id (CoversSection done x rest) s total a y ys fl
        (λ z. give_up-Covers s a done t x rest (y ∷ ys) (asked h run_exec config run_id fl) here)
        (λ c. give_up-Covers s (suc a) done t' x rest ys e here')
        (λ c.
          run_assertions-Covers s total (suc a) done t' x rest ys
            (count_result h run_exec config run_id r e) (same.0 ∙ on')
            (subst (λ tr. Here s (suc a) done t' x rest ys tr.sections) (sym same.1) here'))

  begin-Here :
      (total s : ℕ) (x : Section) (rest : List Section) (fl : Flow World)
      → drop s config.sections ≡ x ∷ rest
      → length fl.trace.sections ≡ s
      → Here s 0 fl.trace.sections
          (open_section x)
          x
          rest
          x.assertions
          (begin_section h run_exec config run_id x s total fl).trace.sections
  unfolding begin_section
  begin-Here total s x rest fl left place = record {
    left = left;
    place = place;
    listed = refl;
    own = refl;
    covered = refl;
    next = refl;
  }

  section_ran-Covers :
      (total s : ℕ) (x : Section) (rest : List Section) (fl : Flow World)
      → fl.returned ≡ false
      → drop s config.sections ≡ x ∷ rest
      → length fl.trace.sections ≡ s
      → CoversSection fl.trace.sections x rest (section_ran h run_exec config run_id total s x fl)
  section_ran-Covers total s x rest fl on left place =
      let fl' = asked h run_exec config run_id fl in
      run_assertions-Covers s (length x.assertions) 0 fl.trace.sections (open_section x) x rest
        x.assertions (begin_section h run_exec config run_id x s total fl')
        (unfold begin_section in on) (begin-Here total s x rest fl' left place)

  give_up-Covers_later :
      (s : ℕ) (rest : List Section) (fl : Flow World)
      → drop s config.sections ≡ rest
      → length fl.trace.sections ≡ s
      → shape (give_up h run_exec config run_id s 0 fl).trace.sections
        ≡ shape fl.trace.sections ++ outline rest
  unfolding give_up unwind_remaining
  give_up-Covers_later s rest fl left place =
      rw left (unwind_later s 0 s rest fl.trace.sections place (inr refl))

  run_sections-Covers :
      (total s : ℕ) (xs : List Section) (fl : Flow World)
      → fl.returned ≡ false
      → drop s config.sections ≡ xs
      → length fl.trace.sections ≡ s
      → shape (run_sections h run_exec config run_id total s xs fl).trace.sections
        ≡ shape fl.trace.sections ++ outline xs
  unfolding run_sections
  run_sections-Covers total s [] fl on left place = sym (append-nil (shape fl.trace.sections))
  run_sections-Covers total s (x ∷ xs) fl on left place =
      let done = fl.trace.sections in
      let r = section_ran h run_exec config run_id total s x fl in
      let covers : CoversSection done x xs r = section_ran-Covers total s x xs fl on left place in
      section_step h run_exec config run_id
        (λ out. shape out.trace.sections ≡ shape done ++ outline (x ∷ xs)) total s x xs fl
        (λ z. give_up-Covers_later s (x ∷ xs) (asked h run_exec config run_id fl) left place)
        (λ c. rw c at covers)
        (λ c.
          let whole : shape r.trace.sections ≡ shape done ++ outline (x ∷ []) = rw c at covers in
          let grown : length r.trace.sections ≡ suc s = omega (
            arith,
            length-shape r.trace.sections,
            ap length whole,
            length-append {0} (shape done) (outline (x ∷ [])),
            length-shape done,
          ) in
          run_sections-Covers total (suc s) xs r c (drop-suc s config.sections x xs left) grown
          ∙ ap (λ ss. ss ++ outline xs) whole
          ∙ append_assoc (shape done) (outline (x ∷ [])) (outline xs))

  -- However the run ends, and whenever it is cancelled, the trace has the playbook's sections in their
  -- order, and under each of them the section's assertions in their order, each exactly once.
  pub trace_covers :
      (m : Machine) (w : World)
      → shape (run_with_observer h run_exec config run_id m w).trace.sections
        ≡ outline config.sections
  unfolding run_with_observer complete
  trace_covers m w =
      let start = first_flow h run_exec config run_id m w in
      let fl =
        run_sections h run_exec config run_id (length config.sections) 0 config.sections start in
      let same : (if fl.returned then fl else complete h run_exec config run_id fl).trace.sections
          ≡ fl.trace.sections =
        elim (Bool-cases fl.returned) [ inl e ↦ rw e refl | inr e ↦ rw e refl ] in
      ap shape same
      ∙ run_sections-Covers (length config.sections) 0 config.sections start refl refl refl
