-- ===== src/Server/State/Calls.antt =====
-- The calls of `StateManager` that change the state (internal/server/state.go): unloading, and the destination of a playbook that has been loaded.
use mathlib.Core.Bool.{false≢true}
use crobe.Common.{
  if◌then◌else◌, ◌&&◌, ◌≡◌, refl, true, false, Option, none, List, [], ◌∷◌, String, is_empty, ◌==◌,
  Bool-cases, inl, inr,
}
use crobe.Playbook.{Playbook, destination_https}
use crobe.Playbook.Validator.{ValidationError}
use crobe.Server.Types.{
  Detail, ReportDestinationState, DestinationUpdateRequest, is_busy, folder_source_off,
  https_source_off, https_source_playbook,
}
use crobe.Server.State.{StateManager, set_load_error, set_status, can_mutate}
use crobe.Server.State.Methods.{
  new_state_manager, folder_destination, playbook_destination, set_playbook, unload_playbook,
  update_destination,
}

-- One call of a method that changes the state.
pub data Call : Type 0 where
  load : Playbook → String → List ValidationError → Call
  load_error : String → String → Detail → Call
  unload : Call
  update : DestinationUpdateRequest → Call
  status : String → Call

module _ (abs : String → Option String) where
  unfoldable pub call : {R : Type 0} → Call → StateManager R → StateManager R
  call (load pb raw es) sm = set_playbook abs sm pb raw es
  call (load_error c m d) sm = set_load_error sm c m d
  call unload sm = (unload_playbook abs sm).1
  call (update req) sm = (update_destination abs sm req).1
  call (status s) sm = set_status sm s

  unfoldable pub calls : {R : Type 0} → List Call → StateManager R → StateManager R
  calls [] sm = sm
  calls (c ∷ cs) sm = calls cs (call c sm)

  -- While no run and no submission is under way, unloading succeeds, and leaves the state of a new
  -- manager, but for what it still holds of the last run: the time at which it started, its cancel function and
  -- its channel.
  pub unload_resets :
      {R : Type 0} (sm : StateManager R)
      → can_mutate sm ≡ true
      → ((unload_playbook abs sm).0 ≡ none)
        × ((unload_playbook abs sm).1 ≡ record (new_state_manager abs sm.cli_folder sm.is_ui) {
          run_start_time = sm.run_start_time;
          active_run_cancel = sm.active_run_cancel;
          active_run_done = sm.active_run_done;
        })
  unfolding can_mutate unload_playbook new_state_manager
  unload_resets sm h = elim (Bool-cases (is_busy sm.status)) [
    | inl e ↦ let h' = rw e at h in absurd (false≢true h')
    | inr e ↦ rw e (refl, refl)
  ]

  one_destination_lem :
      (cli : String) (pb : Playbook) (d : ReportDestinationState)
      → let d' = playbook_destination abs false cli pb d in
        let by_https = is_empty cli && pb.report_destination == destination_https in
        ((d'.folder_source == folder_source_off) ≡ by_https)
        × (d'.https_source ≡ (if by_https then https_source_playbook else https_source_off))
  unfolding playbook_destination folder_destination
  one_destination_lem cli pb d = elim (Bool-cases (is_empty cli)) [
    | inr e ↦ rw e (refl, refl)
    | inl e ↦ elim (Bool-cases (pb.report_destination == destination_https)) [
      | inl e' ↦ rw (e, e') (refl, refl)
      | inr e' ↦ elim (Bool-cases (is_empty pb.report_destination_folder)) [
        | inl e'' ↦ rw (e, e', e'') (refl, refl)
        | inr e'' ↦ rw (e, e', e'') (refl, refl)
      ]
    ]
  ]

  -- Without the web pages, a playbook that has been loaded has exactly one destination: the folder is
  -- off just when the report goes to the playbook's HTTPS endpoint, which it does just when the
  -- playbook says so and no flag names a folder.
  pub one_destination :
      {R : Type 0} (sm : StateManager R) (pb : Playbook) (raw : String) (es : List ValidationError)
      → sm.is_ui ≡ false
      → let d = (call (load pb raw es) sm).report_destination in
        let by_https = is_empty sm.cli_folder && pb.report_destination == destination_https in
        ((d.folder_source == folder_source_off) ≡ by_https)
        × (d.https_source ≡ (if by_https then https_source_playbook else https_source_off))
  unfolding call set_playbook
  one_destination sm pb raw es u = rw u (one_destination_lem sm.cli_folder pb _)
