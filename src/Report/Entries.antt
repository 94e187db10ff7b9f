-- ===== src/Report/Entries.antt =====
-- The entries of the structured report of a run (report/report.go, director/director.go), for a playbook
-- that the validator accepts (playbook/validator.go).
use mathlib.Core.Path.{subst}
use crobe.Common.{
  ◌≡◌, ◌≢◌, refl, sym, ap, ◌∙◌, Bool, some, List, [], ◌∷◌, ◌++◌, String, lookup, insert,
  lookup-insert, All, eq_iff, arith,
}
use crobe.Playbook.{Exec, Assertion, Section, Playbook}
use crobe.Playbook.Validator.{validate}
use crobe.Playbook.Validator.Spec.{assertion_codes, all_codes, Distinct}
use crobe.Playbook.Validator.Correct.{validate_iff}
use crobe.Executor.{Host, Context, Outcome}
use crobe.Director.{AssertionContext, SectionContext}
use crobe.Director.Contexts.{contexts}
use crobe.Director.Outline.{names, shape, outline}
use crobe.Director.Coverage.{trace_covers}
use crobe.Director.Run.{Machine, run_with_observer}
use crobe.Report.{
  ReportAssertion, report_entry, report_assertions, report_sections, generate_report,
}

abbrev code_of : AssertionContext → String
code_of c = c.playbook_assertion.code

abbrev codes_of : List AssertionContext → List String
codes_of [] = []
codes_of (c ∷ cs) = code_of c ∷ codes_of cs

-- A key that is not written keeps its entry.
lookup-report_assertions :
    (k : String) (cs : List AssertionContext) (m : List (String × ReportAssertion))
    → All (λ d. k ≢ d) (codes_of cs)
    → lookup k (report_assertions cs m) ≡ lookup k m
unfolding report_assertions
lookup-report_assertions k [] m h = refl
lookup-report_assertions k (c ∷ cs) m h =
    lookup-report_assertions k cs (insert (code_of c) (report_entry c) m) h.1
    ∙ lookup-insert (code_of c) k (report_entry c) m
    ∙ ground (arith, eq_iff (code_of c) k, h.0)

Has : List (String × ReportAssertion) → AssertionContext → Type 0
Has m c = lookup (code_of c) m ≡ some (report_entry c)

report_assertions-Has :
    (cs : List AssertionContext) (m : List (String × ReportAssertion))
    → Distinct (codes_of cs)
    → All (Has (report_assertions cs m)) cs
unfolding report_assertions Has
report_assertions-Has [] m h = tt
report_assertions-Has (c ∷ cs) m h = (
  lookup-report_assertions (code_of c) cs (insert (code_of c) (report_entry c) m) h.0
      ∙ lookup-insert (code_of c) (code_of c) (report_entry c) m
      ∙ ground (arith, eq_iff (code_of c) (code_of c)),
  report_assertions-Has cs (insert (code_of c) (report_entry c) m) h.1,
)

report_assertions-append :
    (cs ds : List AssertionContext) (m : List (String × ReportAssertion))
    → report_assertions (cs ++ ds) m ≡ report_assertions ds (report_assertions cs m)
unfolding report_assertions
report_assertions-append [] ds m = refl
report_assertions-append (c ∷ cs) ds m = report_assertions-append cs ds _

report_sections-contexts :
    (ss : List SectionContext) (m : List (String × ReportAssertion))
    → report_sections ss m ≡ report_assertions (contexts ss) m
unfolding report_sections report_assertions
report_sections-contexts [] m = refl
report_sections-contexts (s ∷ ss) m =
    report_sections-contexts ss (report_assertions s.assertions m)
    ∙ sym (report_assertions-append s.assertions (contexts ss) m)

-- The codes of a trace are those of what its shape names.
abbrev shape_codes : List (Section × List Assertion) → List String
shape_codes [] = []
shape_codes ((s, xs) ∷ ys) = assertion_codes xs ++ shape_codes ys

codes_of-append :
    (cs ds : List AssertionContext)
    → codes_of (cs ++ ds) ≡ assertion_codes (names cs) ++ codes_of ds
codes_of-append [] ds = refl
codes_of-append (c ∷ cs) ds = ap (λ r. code_of c ∷ r) (codes_of-append cs ds)

codes_of-contexts : (ss : List SectionContext) → codes_of (contexts ss) ≡ shape_codes (shape ss)
codes_of-contexts [] = refl
codes_of-contexts (s ∷ ss) =
    codes_of-append s.assertions (contexts ss)
    ∙ ap (λ r. assertion_codes (names s.assertions) ++ r) (codes_of-contexts ss)

shape_codes-outline : (ss : List Section) → shape_codes (outline ss) ≡ all_codes ss
shape_codes-outline [] = refl
shape_codes-outline (s ∷ ss) = ap (λ r. assertion_codes s.assertions ++ r) (shape_codes-outline ss)

module _ (h : Host) (run_exec : Exec → Context → h.World → Outcome h.World) (config : Playbook)
    (run_id : String) where
  open h use {World}

  -- For a playbook that the validator accepts, and however its run ends, the report of the trace has for
  -- every context of the trace the entry of that context under the code of its assertion: no entry is
  -- lost to another assertion.
  pub report_complete :
      (is_agent : Bool) (m : Machine) (w : World)
      → validate config is_agent ≡ []
      → let trace = (run_with_observer h run_exec config run_id m w).trace in
        All
          (λ c.
            lookup c.playbook_assertion.code (generate_report trace).assertions
            ≡ some (report_entry c))
          (contexts trace.sections)
  unfolding generate_report Has
  report_complete is_agent m w v =
      let ss = (run_with_observer h run_exec config run_id m w).trace.sections in
      let same : codes_of (contexts ss) ≡ all_codes config.sections =
        codes_of-contexts ss
        ∙ ap shape_codes (trace_covers h run_exec config run_id m w)
        ∙ shape_codes-outline config.sections in
      let distinct = ((validate_iff config is_agent).0 v).codes in
      subst (λ r. All (Has r) (contexts ss)) (sym (report_sections-contexts ss []))
        (report_assertions-Has (contexts ss) [] (subst Distinct (sym same) distinct))
