-- ===== src/Server/Observer.antt =====
-- `serverObserver` (internal/server/handlers_execution.go), which enters the events of a run in the
-- snapshot and passes them on to the clients. A method takes the mutex twice and calls the broker in
-- between; it is one step here, since only the goroutine of the run writes what it writes.
use crobe.Common.{ℕ, false, List, [], ◌∷◌, ◌++◌, String, if◌then◌else◌, ◌==◌}
use crobe.Common.Int.{pos}
use crobe.Common.Text.{concat, itoa}
use crobe.Playbook.{Assertion, Section, Playbook, get_min_passing_score}
use crobe.Director.{
  Progress, Event, run_start, section_start, assertion_start, assertion_complete, log, run_complete,
  run_cancelled, run_error,
}
use crobe.Server.Types.{AssertionSnapshot, ExecutionSnapshot}
use crobe.Server.State.{get_state_response}
use crobe.Server.Events.{
  EventData, state_data, progress_data, log_data, completed_data, cancelled_data, broadcast,
}
use crobe.Server.Handlers.{Server}

-- The loops over `snapshot.Assertions`, which change the first one with the code, and stop.
unfoldable pub update_first :
    String
    → (AssertionSnapshot → AssertionSnapshot)
    → List AssertionSnapshot
    → List AssertionSnapshot
update_first code f [] = []
update_first code f (a ∷ more) = if a.code == code then f a ∷ more else a ∷ update_first code f more

abbrev pub start_snapshot : AssertionSnapshot → AssertionSnapshot
start_snapshot a = record a { status = "running" }

abbrev pub complete_snapshot : Progress → AssertionSnapshot → AssertionSnapshot
complete_snapshot p a = record a {
  status = p.status;
  passed = p.passed;
  score = p.score;
  min_score = p.min_score;
  duration_ms = p.duration_ms;
  output = p.output;
}

module _ {R : Type 0} where
  abbrev pub change_snapshot : (ExecutionSnapshot → ExecutionSnapshot) → Server R → Server R
  change_snapshot f s = record s { state = record s.state { snapshot = f s.state.snapshot } }

  -- The broadcast of an event, whose identifier goes to the snapshot.
  unfoldable pub publish : String → String → EventData → Server R → Server R
  publish type run_id payload s =
      let (id, broker) = broadcast type run_id payload s.broker in
      record (change_snapshot (λ sn. record sn { last_event_id = id }) s) { broker = broker }

  unfoldable pub on_run_start : String → Playbook → Server R → Server R
  on_run_start run_id pb s =
      let s' = change_snapshot (λ sn. record sn { run_id = run_id }) s in
      publish "state_change" run_id (state_data (get_state_response s'.state)) s'

  unfoldable pub add_log : String → String → Server R → Server R
  add_log run_id message s =
      publish "log" run_id (log_data run_id message)
        (change_snapshot (λ sn. record sn { logs = sn.logs ++ message ∷ [] }) s)

  unfoldable pub on_section_start : String → Section → ℕ → ℕ → Server R → Server R
  on_section_start run_id section index total =
      add_log run_id
        (concat ("Processing Section " ∷ itoa index ∷ "/" ∷ itoa total ∷ ": " ∷ section.title ∷ []))

  unfoldable pub on_assertion_start : String → Assertion → Server R → Server R
  on_assertion_start run_id x s =
      publish "assertion_progress" run_id
        (progress_data (record {
          run_id = run_id;
          code = x.code;
          status = "running";
          passed = false;
          score = pos 0;
          min_score = get_min_passing_score x;
          duration_ms = 0;
          output = "";
        }))
        (change_snapshot
          (λ sn. record sn {
            active_assertion_code = x.code;
            assertions = update_first x.code start_snapshot sn.assertions;
          })
          s)

  unfoldable pub on_assertion_complete : String → Assertion → Progress → Server R → Server R
  on_assertion_complete run_id x p s =
      publish "assertion_progress" run_id
        (progress_data (record {
          run_id = run_id;
          code = x.code;
          status = p.status;
          passed = p.passed;
          score = p.score;
          min_score = p.min_score;
          duration_ms = p.duration_ms;
          output = p.output;
        }))
        (change_snapshot
          (λ sn. record sn { assertions = update_first x.code (complete_snapshot p) sn.assertions })
          s)

  unfoldable pub on_run_complete : String → Server R → Server R
  on_run_complete run_id s =
      publish "execution_completed" run_id
        (completed_data run_id s.state.status s.state.snapshot.duration_ms)
        (change_snapshot (λ sn. record sn { active_assertion_code = "" }) s)

  unfoldable pub on_run_cancelled : String → Server R → Server R
  on_run_cancelled run_id s =
      publish "execution_cancelled" run_id (cancelled_data run_id)
        (change_snapshot (λ sn. record sn { active_assertion_code = "" }) s)

  unfoldable pub on_run_error : String → String → Server R → Server R
  on_run_error run_id message = add_log run_id (concat ("Error: " ∷ message ∷ []))

  -- The method that an event of the director calls. The argument is the observer's `runID`.
  unfoldable pub observe : String → Event → Server R → Server R
  observe run_id (run_start id pb) = on_run_start id pb
  observe run_id (section_start section index total) = on_section_start run_id section index total
  observe run_id (assertion_start x index total) = on_assertion_start run_id x
  observe run_id (assertion_complete x p) = on_assertion_complete run_id x p
  observe run_id (log message) = add_log run_id message
  observe run_id (run_complete trace) = on_run_complete run_id
  observe run_id (run_cancelled id trace) = on_run_cancelled id
  observe run_id (run_error message) = on_run_error run_id message
