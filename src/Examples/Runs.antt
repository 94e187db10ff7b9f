-- ===== src/Examples/Runs.antt =====
-- The theorems on runs, at a run that completes and at one that is cancelled on its way.
use crobe.Common.{
  none, if◌then◌else◌, true, lookup, some, not, ℕ, ◌+◌, ◌≡◌, refl, List, [], ◌∷◌, ◌++◌, map, All,
}
use crobe.Executor.Run.{run_exec}
use crobe.Director.{Event}
use crobe.Director.Outline.{shape, outline}
use crobe.Director.Contexts.{contexts}
use crobe.Director.Judged.{IsJudged, IsFinal, count_passed, count_failed}
use crobe.Director.Completed.{assertion_total, completed_totals, contexts-Final}
use crobe.Director.Coverage.{trace_covers}
use crobe.Director.Protocol.{tell, told, endings}
use crobe.Director.Protocol.Told.{last_event, events_tell}
use crobe.Director.{run_complete}
use crobe.Director.Uncancelled.{uncancelled_completes, uncancelled_returns}
use crobe.Director.Hidden.{is_marked, excluded_keys_hidden}
use crobe.Director.Run.{Flow, run_with_observer}
use crobe.Common.Int.{pos, eqb_ℤ}
use crobe.Playbook.{sum_pass_scores}
use crobe.Director.Verdict.{judge, apply_rule, exit_code_result}
use crobe.Director.Assertions.{run_assertion}
use crobe.Director.Scores.{Passes, full_marks}
use crobe.Director.Redacted.{Redacts, outputs_redacted}
use crobe.Report.{report_entry, generate_report}
use crobe.Report.Entries.{report_complete}
use crobe.Examples.Playbooks.{playbook_accepted}
use crobe.Playbook.{Cmd, Playbook}
use crobe.Examples.Samples.{
  echo, echo_cmd, assertion, late, never, playbook, host, machine, quick_exec,
}

-- A run with the executor that is cancelled after twenty steps.
abbrev cancelled_run : Flow ℕ
cancelled_run = run_with_observer (host late) (run_exec (host late)) playbook "run" machine 0

-- A run to the end.
abbrev full_run : Flow ℕ
full_run = run_with_observer (host never) quick_exec playbook "run" machine 0

events_tell_example :
    (front : List Event) × (cancelled_run.events
      ≡ front ++ last_event (host late) (run_exec (host late)) playbook "run" cancelled_run ∷ [])
    × (map tell (contexts cancelled_run.trace.sections) ≡ told front)
    × (endings front ≡ [])
events_tell_example = events_tell (host late) (run_exec (host late)) playbook "run" machine 0

trace_covers_example : shape cancelled_run.trace.sections ≡ outline playbook.sections
trace_covers_example = trace_covers (host late) (run_exec (host late)) playbook "run" machine 0

contexts-Final_example : All IsFinal (contexts cancelled_run.trace.sections)
contexts-Final_example = contexts-Final (host late) (run_exec (host late)) playbook "run" machine 0

excluded_keys_hidden_example :
    All
      (λ c.
        lookup "token" c.context
        ≡ (if is_marked c.playbook_assertion "token" then none else lookup "token" c.context))
      (contexts full_run.trace.sections)
excluded_keys_hidden_example =
    excluded_keys_hidden (host never) quick_exec playbook "run" "token" machine 0

uncancelled_completes_example :
    (shape full_run.trace.sections ≡ outline playbook.sections)
    × All IsJudged (contexts full_run.trace.sections)
    × (full_run.trace.total_passed + full_run.trace.total_failed
        ≡ assertion_total playbook.sections)
    × (front : List Event) × (full_run.events ≡ front ++ run_complete full_run.trace ∷ [])
uncancelled_completes_example =
    uncancelled_completes (host never) quick_exec playbook "run" (λ w. refl) machine 0

completed_totals_example :
    All IsJudged (contexts full_run.trace.sections)
    × (full_run.trace.total_passed ≡ count_passed (contexts full_run.trace.sections))
    × (full_run.trace.total_failed ≡ count_failed (contexts full_run.trace.sections))
    × (full_run.trace.total_passed + full_run.trace.total_failed
        ≡ assertion_total playbook.sections)
completed_totals_example =
    completed_totals (host never) quick_exec playbook "run" machine 0
      (uncancelled_returns (host never) quick_exec playbook "run" (λ w. refl) machine 0)

echo-Passes : Passes (host never) quick_exec (λ w. refl) echo_cmd
unfolding judge apply_rule exit_code_result
echo-Passes ctx w = (refl, λ w'. refl)

full_marks_example :
    (run_assertion (host never) quick_exec (assertion "A1") 0).context.passed
    ≡ not (eqb_ℤ (sum_pass_scores (pos 0) (assertion "A1").cmds) (pos 0))
full_marks_example =
    full_marks (host never) quick_exec (λ w. refl) (assertion "A1") 0 (echo-Passes, tt) refl

-- The sample with commands that are excluded from the report.
abbrev redacted_cmd : Cmd
redacted_cmd = record echo_cmd { exec = record (echo "whoami") { exclude_from_report = true } }

abbrev redacted_playbook : Playbook
redacted_playbook = record playbook {
  sections =
      record {
        title = "Section";
        description = [];
        assertions = record (assertion "A1") { cmds = redacted_cmd ∷ redacted_cmd ∷ [] } ∷ [];
      }
      ∷ [];
}

outputs_redacted_example : All Redacts (
    contexts
      (run_with_observer (host never) quick_exec redacted_playbook "run" machine 0).trace.sections)
outputs_redacted_example =
    outputs_redacted (host never) quick_exec redacted_playbook "run" machine 0

report_complete_example :
    All
      (λ c.
        lookup c.playbook_assertion.code (generate_report cancelled_run.trace).assertions
        ≡ some (report_entry c))
      (contexts cancelled_run.trace.sections)
report_complete_example =
    report_complete (host late) (run_exec (host late)) playbook "run" true machine 0
      playbook_accepted
