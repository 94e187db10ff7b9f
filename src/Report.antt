-- ===== src/Report.antt =====
-- The structured report (report/report.go) that `GenerateReport` makes from a trace. Its two texts, the
-- markdown and the log, are left out.
use crobe.Common.{ℕ, Bool, List, [], ◌∷◌, String, insert}
use crobe.Common.Int.{ℤ}
use crobe.Executor.{Context}
use crobe.Director.{AssertionContext, SectionContext, ExecutionTrace}
pub mod Entries

-- `Assertion` of the package `report`.
pub record ReportAssertion : Type 0 where
  pub start : ℕ
  pub end : ℕ
  pub passed : Bool
  pub score : ℤ
  pub min_score : ℤ
  pub context : Context

-- `Stats` of the package `report`.
pub record ReportStats : Type 0 where
  pub passed : ℕ
  pub failed : ℕ

pub record FinalReport : Type 0 where
  pub start : ℕ
  pub end : ℕ
  pub username : String
  pub os : String
  pub arch : String
  pub assertions : List (String × ReportAssertion)
  pub stats : ReportStats

abbrev pub report_entry : AssertionContext → ReportAssertion
report_entry c = record {
  start = c.start;
  end = c.end;
  passed = c.passed;
  score = c.score;
  min_score = c.min_score;
  context = c.context;
}

-- The loop over the assertions of a section, with the map of the report.
unfoldable pub report_assertions :
    List AssertionContext → List (String × ReportAssertion) → List (String × ReportAssertion)
report_assertions [] m = m
report_assertions (c ∷ cs) m =
    report_assertions cs (insert c.playbook_assertion.code (report_entry c) m)

unfoldable pub report_sections :
    List SectionContext → List (String × ReportAssertion) → List (String × ReportAssertion)
report_sections [] m = m
report_sections (s ∷ ss) m = report_sections ss (report_assertions s.assertions m)

-- `GenerateReport`, its field `Structured`.
unfoldable pub generate_report : ExecutionTrace → FinalReport
generate_report trace = record {
  start = trace.start;
  end = trace.end;
  username = trace.username;
  os = trace.os;
  arch = trace.arch;
  assertions = report_sections trace.sections [];
  stats = record { passed = trace.total_passed; failed = trace.total_failed };
}
