-- ===== src/Director/Steps.antt =====
-- One round of each loop of `RunWithObserver`, as a rule for what holds of its result.
use crobe.Common.{
  ℕ, suc, ◌≡◌, arith, true, false, List, [], ◌∷◌, ◌++◌, String, length, Bool-cases, if-elim, inl,
  inr,
}
use crobe.Playbook.{Exec, Assertion, Section, Playbook}
use crobe.Executor.{Host, Context, Outcome}
use crobe.Director.{assertion_start}
use crobe.Director.Assertions.{AssertionRun, run_assertion}
use crobe.Director.Run.{
  Flow, give_up, enter, count_result, run_assertions, begin_section, run_sections, Machine,
  first_flow, complete, run_with_observer,
}

module _ (h : Host) (run_exec : Exec → Context → h.World → Outcome h.World) (config : Playbook)
    (run_id : String) where
  open h use {World, is_cancelled}

  -- After the question whether the run is cancelled.
  abbrev pub asked : Flow World → Flow World
  asked fl = record fl { world = (is_cancelled fl.world).1 }

  abbrev pub ran : Assertion → Flow World → AssertionRun World
  ran y fl = run_assertion h run_exec y (is_cancelled fl.world).1

  -- After an assertion has been announced and run, and entered in the trace.
  abbrev pub announced : ℕ → ℕ → Assertion → Flow World → Flow World
  announced total a y fl = record fl { events = fl.events ++ assertion_start y (suc a) total ∷ [] }

  abbrev pub entered : ℕ → ℕ → Assertion → Flow World → Flow World
  entered total a y fl = enter h run_exec config run_id (ran y fl) (announced total a y fl)

  pub assertion_step {ℓ} :
      (P : Flow World → Type ℓ) (s total a : ℕ) (y : Assertion) (ys : List Assertion)
      (fl : Flow World)
      → ((is_cancelled fl.world).0 ≡ true → P (give_up h run_exec config run_id s a (asked fl)))
      → ((ran y fl).cancelled ≡ true
          → P (give_up h run_exec config run_id s (suc a) (entered total a y fl)))
      → ((ran y fl).cancelled ≡ false
          → P (
              run_assertions h run_exec config run_id s total
                (suc a)
                ys
                (count_result h run_exec config run_id (ran y fl) (entered total a y fl))))
      → P (run_assertions h run_exec config run_id s total a (y ∷ ys) fl)
  unfolding run_assertions
  assertion_step P s total a y ys fl stop late rest = elim (Bool-cases (is_cancelled fl.world).0) [
    | inl e ↦ rw (e, run_assertions) (stop e)
    | inr e ↦ elim (Bool-cases (ran y fl).cancelled) [
      | inl c ↦ rw (e, run_assertions) (rw c (late c))
      | inr c ↦ rw (e, run_assertions) (rw c (rest c))
    ]
  ]

  -- A section that has been begun, and whose loop has run.
  abbrev pub section_ran : ℕ → ℕ → Section → Flow World → Flow World
  section_ran total s x fl =
      run_assertions h run_exec config run_id s (length x.assertions) 0 x.assertions
        (begin_section h run_exec config run_id x s total (asked fl))

  pub section_step {ℓ} :
      (P : Flow World → Type ℓ) (total s : ℕ) (x : Section) (xs : List Section) (fl : Flow World)
      → ((is_cancelled fl.world).0 ≡ true → P (give_up h run_exec config run_id s 0 (asked fl)))
      → ((section_ran total s x fl).returned ≡ true → P (section_ran total s x fl))
      → ((section_ran total s x fl).returned ≡ false
          → P (run_sections h run_exec config run_id total (suc s) xs (section_ran total s x fl)))
      → P (run_sections h run_exec config run_id total s (x ∷ xs) fl)
  unfolding run_sections
  section_step P total s x xs fl stop back rest = elim (Bool-cases (is_cancelled fl.world).0) [
    | inl e ↦ rw (e, run_sections) (stop e)
    | inr e ↦ elim (Bool-cases (section_ran total s x fl).returned) [
      | inl c ↦ rw (e, run_sections) (rw c (back c))
      | inr c ↦ rw (e, run_sections) (rw c (rest c))
    ]
  ]

  -- Counting a result leaves the trace, the world and the events alone.
  pub count_result_same :
      (r : AssertionRun World) (fl : Flow World)
      → let out = count_result h run_exec config run_id r fl in
        (out.returned ≡ fl.returned)
        × (out.trace ≡ fl.trace)
        × (out.world ≡ fl.world)
        × (out.events ≡ fl.events)
  unfolding count_result
  count_result_same r fl = ground arith

  -- The loops from the start, and the two ways in which a run ends.
  abbrev pub looped : Machine → World → Flow World
  looped m w =
      run_sections h run_exec config run_id (length config.sections) 0 config.sections
        (first_flow h run_exec config run_id m w)

  pub run_step {ℓ} :
      (P : Flow World → Type ℓ) (m : Machine) (w : World)
      → ((looped m w).returned ≡ true → P (looped m w))
      → ((looped m w).returned ≡ false → P (complete h run_exec config run_id (looped m w)))
      → P (run_with_observer h run_exec config run_id m w)
  unfolding run_with_observer
  run_step P m w back on =
      if-elim P (looped m w).returned (looped m w) (complete h run_exec config run_id (looped m w))
        back on
