-- ===== src/Server/Mirror/Mirrored.antt =====
-- The snapshot shows the playbook that is loaded, whatever the order of the requests (internal/server).
use mathlib.Core.Path.{subst}
use crobe.Common.{
  ◌≡◌, refl, sym, ap, ◌∙◌, ℕ, Bool, true, false, Option, none, some, List, [], ◌∷◌, String,
  if◌then◌else◌, ◌==◌, Option-cases, if-elim, inl, inr, is_empty,
}
use crobe.Playbook.{Playbook}
use crobe.Playbook.Validator.{validate, ValidationError}
use crobe.Director.{
  Event, run_start, section_start, assertion_start, assertion_complete, log, run_complete,
  run_cancelled, run_error,
}
use crobe.Server.Types.{
  DestinationUpdateRequest, is_busy, status_running_elevating, status_completed_submission_error,
  folder_source_off,
}
use crobe.Server.State.{StateManager, set_load_error, validation_errors}
use crobe.Server.State.Methods.{
  set_playbook, unload_playbook, update_destination, breaks_lock, new_state_manager,
}
use crobe.Server.Handlers.{Run, Server, broadcast_state, shut_down, new_server}
use crobe.Server.Observer.{
  publish, add_log, on_run_start, on_section_start, on_assertion_start, on_assertion_complete,
  on_run_complete, on_run_cancelled, on_run_error, observe,
}
use crobe.Server.Runs.{
  validation_error, begin_run, started, finish_setup, finish_run, end_run, cancelled_state,
  completed_state, save_report, set_report, add_error, is_run_cancelled,
}
use crobe.Server.Destination.{Outside}
use crobe.Server.Requests.{Decoders, finish_load, load_state}
use crobe.Server.Handlers.{Loaded, load_ok, load_failed}
use crobe.Server.Reports.{end_submission, ended}
use crobe.Server.Steps.{Start, first_server, preload_state, Step}
use crobe.Server.Kept.{Anywhere, Fits-Anywhere, Kept, steps-Kept}
use crobe.Server.Orderly.{observe_changes}
use crobe.Server.Exclusive.{reached}
use crobe.Server.Mirror.{
  shown_codes, shown-pending, shown-reset, shows, shown-shows, validation_error-front,
  validation_error-kept, Mirrors, Mirrors-change,
}

errors_tell : (es : List ValidationError) → validation_error (validation_errors es) ≡ none → es ≡ []
unfolding validation_error
errors_tell [] h = refl
errors_tell (e ∷ es) h = absurd (cc)

module _ {R : Type 0} (is_agent : Bool) where
  abbrev pub IsMirrored : StateManager R → Type 0
  IsMirrored sm = Mirrors is_agent sm.playbook sm.errors sm.snapshot.assertions

  -- An error with another code.
  added :
      (code message : String) (sm : StateManager R)
      → IsMirrored sm
      → IsMirrored (add_error code message sm)
  added code message sm h =
      Mirrors-change is_agent sm.playbook sm.errors _ sm.snapshot.assertions sm.snapshot.assertions
        refl (λ q. validation_error-front sm.errors _ q) h

module _ {R : Type 0} where
  pub observe-shows :
      (run_id : String) (ev : Event) (s : Server R)
      → (observe run_id ev s).state.snapshot.assertions ≡ shows ev s.state.snapshot.assertions
  unfolding observe publish add_log on_run_start on_section_start on_assertion_start
      on_assertion_complete on_run_complete on_run_cancelled on_run_error
  observe-shows run_id (run_start id pb) s = refl
  observe-shows run_id (section_start section index total) s = refl
  observe-shows run_id (assertion_start x index total) s = refl
  observe-shows run_id (assertion_complete x p) s = refl
  observe-shows run_id (log message) s = refl
  observe-shows run_id (run_complete trace) s = refl
  observe-shows run_id (run_cancelled id trace) s = refl
  observe-shows run_id (run_error message) s = refl

module _ {R : Type 0} (o : Outside) (d : Decoders) (write_to_folder : String → R → Option String)
    (is_agent : Bool) where
  load-Mirrored :
      (l : Loaded) (sm : StateManager R) → IsMirrored is_agent (load_state o.abs true l sm)
  unfolding load_state set_playbook set_load_error
  load-Mirrored (load_ok pb raw) sm =
      (shown-pending pb.sections, λ q. inl (errors_tell (validate pb true) q))
  load-Mirrored (load_failed code message) sm = tt

  preload-Mirrored :
      (l : Option Loaded) (sm : StateManager R)
      → IsMirrored is_agent sm
      → IsMirrored is_agent (preload_state o.abs is_agent l sm)
  unfolding preload_state load_state set_playbook set_load_error
  preload-Mirrored none sm h = h
  preload-Mirrored (some (load_ok pb raw)) sm h =
      (shown-pending pb.sections, λ q. inr (errors_tell (validate pb is_agent) q))
  preload-Mirrored (some (load_failed code message)) sm h = tt

  unload-Mirrored :
      (sm : StateManager R)
      → IsMirrored is_agent sm
      → IsMirrored is_agent (unload_playbook o.abs sm).1
  unfolding unload_playbook
  unload-Mirrored sm h =
      if-elim (λ (u : Option String × StateManager R). IsMirrored is_agent u.1) (is_busy sm.status)
        _ _ (λ _. h) (λ _. tt)

  update-Mirrored :
      (req : DestinationUpdateRequest) (sm : StateManager R)
      → IsMirrored is_agent sm
      → IsMirrored is_agent (update_destination o.abs sm req).1
  unfolding update_destination
  update-Mirrored req sm h =
      if-elim (λ (u : Option String × StateManager R). IsMirrored is_agent u.1) (is_busy sm.status)
        _ _ (λ _. h)
        (λ _.
          if-elim (λ (u : Option String × StateManager R). IsMirrored is_agent u.1)
            (breaks_lock o.abs sm.cli_folder req) _ _ (λ _. h) (λ _. h))

  begin-Mirrored :
      (pb : Playbook) (stamp time : ℕ) (s : Server R)
      → validation_error s.state.errors ≡ none
      → IsMirrored is_agent s.state
      → IsMirrored is_agent (begin_run pb stamp time s).1.state
  unfolding begin_run broadcast_state started
  begin-Mirrored pb stamp time s v h =
      Mirrors-change is_agent s.state.playbook s.state.errors [] s.state.snapshot.assertions _
        (shown-reset s.state.snapshot.assertions) (λ _. v) h

  save-Mirrored :
      (report : R) (sm : StateManager R)
      → IsMirrored is_agent sm
      → IsMirrored is_agent (save_report write_to_folder report sm)
  unfolding save_report
  save-Mirrored report sm h =
      let e =
        write_to_folder
          (if is_empty sm.report_destination.folder
            then "reports"
            else sm.report_destination.folder)
          report in
      if-elim (IsMirrored is_agent) (sm.report_destination.folder_source == folder_source_off) sm _
        (λ _. h)
        (λ _. elim (Option-cases e) [
          | inl n ↦ rw n h
          | inr (m, n) ↦ rw n (added is_agent _ _ sm h)
        ])

  finished-Mirrored :
      (stopped : Bool) (pb : Playbook) (report : R) (sm : StateManager R)
      → IsMirrored is_agent sm
      → IsMirrored is_agent
          (if stopped then cancelled_state sm else completed_state write_to_folder pb report sm)
  unfolding cancelled_state completed_state
  finished-Mirrored true pb report sm h = added is_agent _ _ (record sm { is_cancelled = true }) h
  finished-Mirrored false pb report sm h = save-Mirrored report sm h

  ended-Mirrored :
      (e : Option String) (sm : StateManager R)
      → IsMirrored is_agent sm
      → IsMirrored is_agent (ended e sm)
  ended-Mirrored (some e) sm h =
      added is_agent _ _ (record sm { status = status_completed_submission_error }) h
  ended-Mirrored none sm h =
      Mirrors-change is_agent sm.playbook sm.errors _ sm.snapshot.assertions sm.snapshot.assertions
        refl (validation_error-kept sm.errors) h

  setup-Mirrored :
      (r : Run) (e : Option String) (s : Server R)
      → IsMirrored is_agent s.state
      → IsMirrored is_agent (finish_setup r e s).state
  unfolding finish_setup broadcast_state end_run
  setup-Mirrored r (some e) s h = added is_agent _ _ s.state h
  setup-Mirrored r none s h =
      if-elim (IsMirrored is_agent) (s.state.status == status_running_elevating) _ _ (λ _. h)
        (λ _. h)

  event-Mirrored :
      (r : Run) (ev : Event) (s : Server R)
      → IsMirrored is_agent s.state
      → IsMirrored is_agent (observe r.run_id ev s).state
  event-Mirrored r ev s h =
      let (sn, b, e) = observe_changes r.run_id ev s in
      let views = s.state.snapshot.assertions in
      let seen : sn.assertions ≡ shows ev views =
        sym (ap (λ y. y.state.snapshot.assertions) e) ∙ observe-shows r.run_id ev s in
      subst (λ (y : Server R). IsMirrored is_agent y.state) (sym e)
        (Mirrors-change is_agent s.state.playbook s.state.errors s.state.errors views sn.assertions
          (ap shown_codes seen ∙ shown-shows ev views) (λ q. q) h)

  IsMirrored-Kept :
      Kept o d write_to_folder (Anywhere o d write_to_folder) (λ s. IsMirrored is_agent s.state)
  unfolding broadcast_state end_run finish_load end_submission finish_run shut_down
  IsMirrored-Kept = record {
    asked = record {
      pend = λ l s h. h;
      call = λ i n s h. h;
      unload = λ s q h. unload-Mirrored s.state h;
      update = λ req s q v h. update-Mirrored req s.state h;
      begin = λ pb stamp time s n v q h. begin-Mirrored pb stamp time s v h;
      stopping = λ s q h. h;
      send = λ c report s q v e h. h;
      close = λ s h. h;
    };
    load = λ i l s q h. load-Mirrored l s.state;
    setup = λ i r e s n h. setup-Mirrored r e s h;
    event = λ i r ev s n h. event-Mirrored r ev s h;
    done = λ i r report time s n h.
        finished-Mirrored (is_run_cancelled r s) r.playbook report (set_report report _ s.state) h;
    sent = λ i sub e s n h. ended-Mirrored e s.state h;
  }

module _ {R : Type 0} (o : Outside) (d : Decoders)
    (write_to_folder : String → R → Option String) where
  -- In every state that the server can reach.
  pub reached-Mirrored :
      (st : Start) (xs : List (Step R))
      → IsMirrored st.is_agent (reached o d write_to_folder st xs).state
  reached-Mirrored st xs =
      steps-Kept o d write_to_folder (Anywhere o d write_to_folder)
        (λ s. IsMirrored st.is_agent s.state) (IsMirrored-Kept o d write_to_folder st.is_agent) xs
        (first_server o.abs st) (Fits-Anywhere o d write_to_folder xs (first_server o.abs st))
        (unfold first_server new_server in
          preload-Mirrored o d write_to_folder st.is_agent st.preload
            (new_state_manager o.abs st.cli_folder st.is_ui) (unfold new_state_manager in tt))
