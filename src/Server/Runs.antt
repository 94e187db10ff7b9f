-- ===== src/Server/Runs.antt =====
-- `handleRun` and `handleCancel` (internal/server/handlers_execution.go). What `handleRun` does under
-- the mutex is one step with its broadcast, and so is each part of the goroutine that it starts: the
-- end of `SetupElevation`, and what follows the run of the director.
use crobe.Common.{
  ℕ, zero, suc, Bool, true, false, not, ◌&&◌, ◌||◌, ◌-◌, Option, none, some, List, [], ◌∷◌, ◌++◌,
  map, String, if◌then◌else◌, is_empty, ◌==◌, any, eqb, is_some,
}
use crobe.Common.Int.{pos}
use crobe.Common.Text.{concat, itoa}
use crobe.Playbook.{Playbook}
use crobe.Playbook.Elevation.{requires_elevation}
use crobe.Server.Types.{
  AppError, no_detail, ReportDestinationState, AssertionSnapshot, is_busy, status_loaded,
  status_running_elevating, status_running, status_running_cancelling, status_completed,
  status_completed_confirming_submission, err_code_playbook_validation_failed,
  err_code_elevation_failed, err_code_execution_aborted, err_code_folder_write_failed,
  folder_source_off, https_source_playbook, https_source_custom,
}
use crobe.Server.State.{StateManager, get_state_response, get_execution_snapshot}
use crobe.Server.Lifecycle.{on_execution_state_change}
use crobe.Server.Handlers.{
  Run, Server, Response, not_allowed, ok_state, refusal, conflict, accepted_body, snapshot_body,
  broadcast_state, cancel_target,
}

abbrev pub drop_at {ℓ} : {A : Type ℓ} → ℕ → List A → List A
drop_at n [] = []
drop_at zero (x ∷ xs) = xs
drop_at (suc n) (x ∷ xs) = x ∷ drop_at n xs

-- The first validation error, which `handleRun` answers with.
unfoldable pub validation_error : List AppError → Option AppError
validation_error [] = none
validation_error (e ∷ es) =
    if e.code == err_code_playbook_validation_failed then some e else validation_error es

-- The reset of one assertion: its threshold and its title stay.
abbrev pub reset_snapshot : AssertionSnapshot → AssertionSnapshot
reset_snapshot a = record a {
  status = "pending";
  passed = false;
  score = pos 0;
  duration_ms = 0;
  output = "";
}

abbrev pub first_status : Playbook → String
first_status pb = if requires_elevation pb then status_running_elevating else status_running

unfoldable pub without_run : ℕ → List Run → List Run
without_run number [] = []
without_run number (r ∷ rs) =
    let rest = without_run number rs in if eqb r.number number then rest else r ∷ rest

unfoldable pub mark_elevated : ℕ → List Run → List Run
mark_elevated number [] = []
mark_elevated number (r ∷ rs) =
    let rest = mark_elevated number rs in
    (if eqb r.number number then record r { is_elevating = false } else r) ∷ rest

abbrev pub has_url : ReportDestinationState → Bool
has_url d = elim d.https [ none ↦ false | some c ↦ not (is_empty c.url) ]

-- `hasHTTPS`
unfoldable pub has_https : Playbook → ReportDestinationState → Bool
has_https pb d =
    d.https_source == https_source_playbook && is_some pb.report_destination_https
    || d.https_source == https_source_custom && has_url d

module _ {R : Type 0} where
  -- The state of a run that starts.
  unfoldable pub started : Playbook → String → ℕ → ℕ → StateManager R → StateManager R
  started pb run_id number now sm = record sm {
    active_run_id = run_id;
    active_run_cancel = some number;
    active_run_done = some number;
    is_cancelled = false;
    run_start_time = some now;
    last_report = none;
    errors = [];
    status = first_status pb;
    snapshot = record sm.snapshot {
      assertions = map reset_snapshot sm.snapshot.assertions;
      logs = [];
      active_assertion_code = "";
      status = first_status pb;
    };
  }

  -- The start of a run, with its goroutine. `UnixNano` gives `stamp`, and the clock tells `now`.
  unfoldable pub begin_run : Playbook → ℕ → ℕ → Server R → Response × Server R
  begin_run pb stamp now s =
      let run_id = concat ("run-" ∷ itoa stamp ∷ []) in
      let sm = started pb run_id (suc s.run_count) now s.state in
      let run : Run = record {
        number = suc s.run_count;
        run_id = run_id;
        playbook = pb;
        is_elevating = requires_elevation pb;
      } in
      (
        record { status_code = 202; body = accepted_body run_id (get_state_response sm) },
        broadcast_state run_id
            (record s { state = sm; runs = s.runs ++ run ∷ []; run_count = suc s.run_count }),
      )

  -- `handleRun`
  unfoldable pub handle_run : String → ℕ → ℕ → Server R → Response × Server R
  handle_run method stamp now s =
      if not (method == "POST") then (not_allowed, s) else elim s.state.playbook [
        | none ↦ (
          refusal 400 "NO_PLAYBOOK" "No playbook loaded. Load a playbook before starting execution."
              no_detail,
          s,
        )
        | some pb ↦ elim (validation_error s.state.errors) [
          | some e ↦ (
            refusal 400 err_code_playbook_validation_failed
                "Cannot run playbook with validation errors" e.detail,
            s,
          )
          | none ↦
              if is_busy s.state.status
              then (conflict "Execution is already in progress", s)
              else begin_run pb stamp now s
        ]
      ]

  abbrev pub add_error : String → String → StateManager R → StateManager R
  add_error code message sm = record sm {
    errors = sm.errors ++ record { code = code; message = message; detail = no_detail } ∷ [];
  }

  abbrev pub set_both : String → String → StateManager R → StateManager R
  set_both status shown sm = record sm {
    status = status;
    snapshot = record sm.snapshot { status = shown };
  }

  -- The end of the goroutine: the state of the manager is broadcast, and the deferred call is made.
  unfoldable pub end_run : Run → StateManager R → Server R → Server R
  end_run run sm s = record (broadcast_state run.run_id (record s { state = sm })) {
    lifecycle = on_execution_state_change sm.status s.lifecycle;
    runs = without_run run.number s.runs;
  }

  -- After `SetupElevation`, which returns an error, if any.
  unfoldable pub finish_setup : Run → Option String → Server R → Server R
  finish_setup run (some e) s =
      end_run run
        (set_both status_loaded status_loaded (
          add_error err_code_elevation_failed (concat ("Elevation setup failed: " ∷ e ∷ []))
            s.state))
        s
  finish_setup run none s =
      let sm =
        if s.state.status == status_running_elevating
        then set_both status_running status_running s.state
        else s.state in
      broadcast_state run.run_id (record s { state = sm; runs = mark_elevated run.number s.runs })

  -- Whether the context of a run is cancelled.
  unfoldable pub is_run_cancelled : Run → Server R → Bool
  is_run_cancelled run s = any (λ n. eqb n run.number) s.cancelled_runs

  -- The folder of a completed run. `write_to_folder` gives the error of `WriteToFolder`, if any.
  unfoldable pub save_report : (String → R → Option String) → R → StateManager R → StateManager R
  save_report write_to_folder report sm =
      let d = sm.report_destination in
      if d.folder_source == folder_source_off
      then sm
      else elim (write_to_folder (if is_empty d.folder then "reports" else d.folder) report) [
        | none ↦ sm
        | some e ↦
            add_error err_code_folder_write_failed
              (concat ("Failed to write report to folder: " ∷ e ∷ [])) sm
      ]

  abbrev pub set_report : R → ℕ → StateManager R → StateManager R
  set_report report duration sm = record sm {
    last_report = some report;
    snapshot = record sm.snapshot { duration_ms = duration };
  }

  unfoldable pub cancelled_state : StateManager R → StateManager R
  cancelled_state sm = set_both status_loaded "cancelled" (
      add_error err_code_execution_aborted "Execution cancelled by user"
        (record sm { is_cancelled = true }))

  unfoldable pub completed_state :
      (String → R → Option String) → Playbook → R → StateManager R → StateManager R
  completed_state write_to_folder pb report sm =
      let status =
        if has_https pb sm.report_destination
        then status_completed_confirming_submission
        else status_completed in
      set_both status status (save_report write_to_folder report sm)

  -- What follows `RunWithObserver` and `GenerateReport`.
  unfoldable pub finish_run : (String → R → Option String) → Run → R → ℕ → Server R → Server R
  finish_run write_to_folder run report now s =
      let duration : ℕ = elim s.state.run_start_time [ none ↦ 0 | some start ↦ now - start ] in
      let sm = set_report report duration s.state in
      end_run run
        (if is_run_cancelled run s
          then cancelled_state sm
          else completed_state write_to_folder run.playbook report sm)
        s

  -- What `handleCancel` does under the mutex, with its broadcast: the status of a run that is to stop; it takes the
  -- cancel function, which it calls later (`call_cancel`).
  abbrev pub cancelling : Server R → Server R
  cancelling s =
      record (broadcast_state s.state.active_run_id (record s {
        state = set_both status_running_cancelling status_running_cancelling s.state;
      })) { cancels = s.cancels ++ cancel_target s.state }

  -- The call of a cancel function that a handler has taken, told by its place.
  unfoldable pub call_cancel : ℕ → Option ℕ → Server R → Server R
  call_cancel i none s = s
  call_cancel i (some number) s = record s {
    cancels = drop_at i s.cancels;
    cancelled_runs = number ∷ s.cancelled_runs;
  }

  -- `handleCancel`, to the release of the mutex and the broadcast: the handler then calls the cancel function
  -- (`call_cancel`) and waits for the run to end, ten
  -- seconds at most, and answers with the state (`handle_state`), as it does for `none`.
  unfoldable pub handle_cancel : String → Server R → Option Response × Server R
  handle_cancel method s =
      let status = s.state.status in
      if not (method == "POST")
      then (some not_allowed, s)
      else if not (status == status_running)
          && (not (status == status_running_elevating) && not (status == status_running_cancelling))
      then (some (conflict "No active execution to cancel"), s)
      else if status == status_running_cancelling
      then (some (ok_state (get_state_response s.state)), s)
      else (none, cancelling s)

  -- `handleExecutionGet`, at the time `now`.
  unfoldable pub handle_execution_get : String → ℕ → Server R → Response
  handle_execution_get method now s =
      if not (method == "GET")
      then not_allowed
      else record { status_code = 200; body = snapshot_body (get_execution_snapshot s.state now) }
