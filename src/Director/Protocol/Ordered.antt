-- ===== src/Director/Protocol/Ordered.antt =====
-- The order in which the events of a run start and complete the assertions (director/director.go).
use mathlib.Core.Path.{subst}
use crobe.Common.{◌≡◌, refl, ap, ◌∙◌, List, [], ◌∷◌, ◌++◌, String, map-append}
use crobe.Playbook.{Exec, Assertion, Section, Playbook}
use crobe.Executor.{Host, Context, Outcome}
use crobe.Director.{Event, SectionContext}
use crobe.Director.Contexts.{contexts}
use crobe.Director.Outline.{names, shape, outline}
use crobe.Director.Coverage.{trace_covers}
use crobe.Director.Run.{Machine, run_with_observer}
use crobe.Director.Protocol.{Follows}
use crobe.Director.Protocol.Told.{last_event, run_Tells}

-- The assertions of a playbook.
abbrev pub assertions_of : List Section → List Assertion
assertions_of [] = []
assertions_of (s ∷ ss) = s.assertions ++ assertions_of ss

abbrev listed : List (Section × List Assertion) → List Assertion
listed [] = []
listed ((s, xs) ∷ more) = xs ++ listed more

names-contexts : (ss : List SectionContext) → names (contexts ss) ≡ listed (shape ss)
names-contexts [] = refl
names-contexts (s ∷ ss) =
    map-append _ s.assertions (contexts ss)
    ∙ ap (λ xs. names s.assertions ++ xs) (names-contexts ss)

listed-outline : (ss : List Section) → listed (outline ss) ≡ assertions_of ss
listed-outline [] = refl
listed-outline (s ∷ ss) = ap (λ xs. s.assertions ++ xs) (listed-outline ss)

module _ (h : Host) (run_exec : Exec → Context → h.World → Outcome h.World) (config : Playbook)
    (run_id : String) where
  open h use {World}

  -- The trace of a run names the playbook's assertions.
  pub trace_names :
      (m : Machine) (w : World)
      → names (contexts (run_with_observer h run_exec config run_id m w).trace.sections)
        ≡ assertions_of config.sections
  trace_names m w =
      names-contexts (run_with_observer h run_exec config run_id m w).trace.sections
      ∙ ap listed (trace_covers h run_exec config run_id m w)
      ∙ listed-outline config.sections

  -- However a run ends, the events before the last one complete the assertions of the playbook in the
  -- playbook's order, each once, and an assertion is started only when it is the next to be completed.
  pub events_ordered :
      (m : Machine) (w : World)
      → let fl = run_with_observer h run_exec config run_id m w in
        (front : List Event) × (fl.events ≡ front ++ last_event h run_exec config run_id fl ∷ [])
        × Follows (assertions_of config.sections) front []
  events_ordered m w =
      let (front, e, (t, n, f)) = run_Tells h run_exec config run_id m w in
      (front, e, subst (λ xs. Follows xs front []) (trace_names m w) f)
