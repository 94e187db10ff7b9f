-- ===== src/Server/State/Methods.antt =====
-- The methods of `StateManager` that set the report's destination (internal/server/state.go).
use crobe.Common.{
  Bool, false, not, ◌&&◌, ◌||◌, Option, none, some, List, [], String, if◌then◌else◌, is_empty, ◌==◌,
  is_some,
}
use crobe.Playbook.{Playbook, destination_https}
use crobe.Playbook.Validator.{ValidationError}
use crobe.Server.Types.{
  PlaybookDestinationDefaults, ReportDestinationState, DestinationUpdateRequest, is_busy,
  status_idle, status_loaded, folder_source_default, folder_source_cli, folder_source_playbook,
  folder_source_off, https_source_playbook, https_source_off,
}
use crobe.Server.State.{
  StateManager, empty_snapshot, validation_errors, inspect_https, pending_snapshots,
}

module _ (abs : String → Option String) where
  -- `resolveFolderPath`
  unfoldable pub resolve_folder_path : String → String
  resolve_folder_path dir =
      let d = if is_empty dir then "reports" else dir in
      elim (abs d) [ some path ↦ path | none ↦ d ]

  -- The destination of a new manager, and of one whose playbook is unloaded.
  unfoldable pub first_destination : String → ReportDestinationState
  first_destination cli_folder = record {
    folder = resolve_folder_path cli_folder;
    folder_source = if is_empty cli_folder then folder_source_default else folder_source_cli;
    https_source = https_source_off;
    https = none;
    playbook_defaults = none;
  }

  -- `NewStateManager`
  unfoldable pub new_state_manager : {R : Type 0} → String → Bool → StateManager R
  new_state_manager cli_folder is_ui = record {
    status = status_idle;
    errors = [];
    report_destination = first_destination cli_folder;
    cli_folder = cli_folder;
    is_ui = is_ui;
    playbook = none;
    playbook_raw = "";
    active_run_id = "";
    active_run_cancel = none;
    active_run_done = none;
    is_cancelled = false;
    run_start_time = none;
    snapshot = empty_snapshot status_idle;
    last_report = none;
  }

  -- The folder destination from the flag, the playbook or the default.
  unfoldable pub folder_destination :
      String → Playbook → ReportDestinationState → ReportDestinationState
  folder_destination cli_folder pb d =
      if not (is_empty cli_folder)
      then record d { folder_source = folder_source_cli; folder = resolve_folder_path cli_folder }
      else if not (is_empty pb.report_destination_folder)
      then record d {
        folder_source = folder_source_playbook;
        folder = resolve_folder_path pb.report_destination_folder;
      }
      else record d {
        folder_source = folder_source_default;
        folder = resolve_folder_path "reports";
      }

  -- The destinations of `SetPlaybook`: independent for the web pages, one of the two otherwise.
  unfoldable pub playbook_destination :
      Bool → String → Playbook → ReportDestinationState → ReportDestinationState
  playbook_destination is_ui cli_folder pb d =
      let by_https = pb.report_destination == destination_https in
      let by_folder = folder_destination cli_folder pb d in
      if is_ui
      then record by_folder {
        https_source = if by_https then https_source_playbook else https_source_off;
      }
      else if not (is_empty cli_folder)
      then record by_folder { https_source = https_source_off }
      else if by_https
      then record d { folder_source = folder_source_off; https_source = https_source_playbook }
      else record by_folder { https_source = https_source_off }

  -- `SetPlaybook`
  unfoldable pub set_playbook :
      {R : Type 0} → StateManager R → Playbook → String → List ValidationError → StateManager R
  set_playbook sm pb raw val_errors =
      let defaults : PlaybookDestinationDefaults = record {
        has_folder = not (is_empty pb.report_destination_folder);
        folder_path = resolve_folder_path pb.report_destination_folder;
        has_https = is_some pb.report_destination_https;
        https = inspect_https pb.report_destination_https;
      } in
      record sm {
        playbook = some pb;
        playbook_raw = raw;
        status = status_loaded;
        errors = validation_errors val_errors;
        is_cancelled = false;
        last_report = none;
        active_run_id = "";
        report_destination =
            playbook_destination sm.is_ui sm.cli_folder pb
              (record sm.report_destination { playbook_defaults = some defaults });
        snapshot = record (empty_snapshot status_loaded) {
          assertions = pending_snapshots pb.sections;
        };
      }

  -- `UnloadPlaybook`: the error, if any, and the state.
  unfoldable pub unload_playbook : {R : Type 0} → StateManager R → Option String × StateManager R
  unload_playbook sm =
      if is_busy sm.status
      then (some "cannot unload playbook during execution or submission", sm)
      else (
        none,
        record sm {
          status = status_idle;
          playbook = none;
          playbook_raw = "";
          errors = [];
          last_report = none;
          is_cancelled = false;
          active_run_id = "";
          report_destination = first_destination sm.cli_folder;
          snapshot = empty_snapshot status_idle;
        },
      )

  -- Whether a request asks for another folder than the flag.
  unfoldable pub breaks_lock : String → DestinationUpdateRequest → Bool
  breaks_lock cli_folder req =
      not (is_empty cli_folder)
      && (elim req.folder_source [ none ↦ false | some s ↦ not (s == folder_source_cli) ]
          || elim req.folder [
            | none ↦ false
            | some f ↦ not (resolve_folder_path f == resolve_folder_path cli_folder)
          ])

  -- The changes that a request asks for.
  unfoldable pub apply_update :
      DestinationUpdateRequest → ReportDestinationState → ReportDestinationState
  apply_update req d = record d {
    folder_source = elim req.folder_source [ none ↦ d.folder_source | some s ↦ s ];
    folder = elim req.folder [ none ↦ d.folder | some f ↦ resolve_folder_path f ];
    https_source = elim req.https_source [ none ↦ d.https_source | some s ↦ s ];
    https = elim req.https [ none ↦ d.https | some c ↦ some c ];
  }

  -- `UpdateDestination`: the error, if any, and the state.
  unfoldable pub update_destination :
      {R : Type 0} → StateManager R → DestinationUpdateRequest → Option String × StateManager R
  update_destination sm req =
      if is_busy sm.status
      then (some "cannot update destination during execution or submission", sm)
      else if breaks_lock sm.cli_folder req
      then (some "cannot modify destination: folder is locked by --folder CLI flag", sm)
      else (none, record sm { report_destination = apply_update req sm.report_destination })
