-- ===== src/Director/Unwind.antt =====
-- `unwindRemaining` (director/director.go): the assertions that have not run are entered as cancelled.
-- The slice of sections is the list, and a pointer into it is an index.
use crobe.Common.{
  ℕ, zero, suc, List, [], ◌∷◌, ◌++◌, map, String, if◌then◌else◌, ltb, eqb, length, drop,
}
use crobe.Playbook.{Assertion, Section, Playbook}
use crobe.Executor.{Host}
use crobe.Director.{
  AssertionContext, SectionContext, ExecutionTrace, Event, assertion_complete, run_cancelled,
}
use crobe.Director.Assertions.{unrun_context, unrun_progress}

-- `sCtx.Assertions = append(sCtx.Assertions, …)` at `sCtx = &trace.Sections[i]`.
unfoldable pub append_at : ℕ → List AssertionContext → List SectionContext → List SectionContext
append_at i xs [] = []
append_at zero xs (s ∷ ss) = record s { assertions = s.assertions ++ xs } ∷ ss
append_at (suc i) xs (s ∷ ss) = s ∷ append_at i xs ss

abbrev pub open_section : Section → SectionContext
open_section s = record { playbook_section = s; assertions = [] }

abbrev pub complete_unrun : Assertion → Event
complete_unrun a = assertion_complete a (unrun_progress a)

-- The loop over `config.Sections[sIdx:]`, with the sections of the trace.
unfoldable pub unwind_sections :
    ℕ → ℕ → ℕ → List Section → List SectionContext → List SectionContext × List Event
unwind_sections start_section start_assertion i [] ss = (ss, [])
unwind_sections start_section start_assertion i (s ∷ rest) ss =
    let ss' = if ltb i (length ss) then ss else ss ++ open_section s ∷ [] in
    let xs = drop (if eqb i start_section then start_assertion else 0) s.assertions in
    let (ss'', evs) =
      unwind_sections start_section start_assertion (suc i) rest
        (append_at i (map unrun_context xs) ss') in
    (ss'', map complete_unrun xs ++ evs)

module _ (h : Host) where
  open h use {World, now}

  unfoldable pub unwind_remaining :
      ℕ → ℕ → Playbook → ExecutionTrace → String → World → ExecutionTrace × List Event × World
  unwind_remaining start_section start_assertion config trace run_id w =
      let (ss, evs) =
        unwind_sections start_section start_assertion start_section
          (drop start_section config.sections) trace.sections in
      let (end_time, w') = now w in
      let trace' = record trace { sections = ss; end = end_time } in
      (trace', evs ++ run_cancelled run_id trace' ∷ [], w')
