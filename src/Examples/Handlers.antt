-- ===== src/Examples/Handlers.antt =====
-- The theorems on the handlers of the server, at a run that is loaded, started, set up, and watched while a
-- client cancels it.
use crobe.Common.{
  ◌↔◌, length, ◌++◌, ℕ, ◌≡◌, refl, true, false, Option, none, some, List, [], ◌∷◌, map, String,
}
use crobe.Common.Int.{pos}
use crobe.Common.Result.{ok}
use crobe.Common.Text.{trim_space, is_space, concat, itoa, ends_with}
use crobe.Playbook.Elevation.{
  requires_elevation, elevation_stats, visit_sections, visit_assertions, visit_assertion,
  visit_cmds, visit_execs, mark,
}
use crobe.Playbook.Validator.{
  validate, check_title, check_destination, check_https, check_sections, validate_sections,
  validate_section, validate_body, validate_assertions, validate_assertion, check_code, check_agent,
  check_execs, check_cmds, check_cmd, check_gathers, check_file, prohibited,
}
use crobe.Server.State.{can_mutate}
use crobe.Server.State.Methods.{
  new_state_manager, set_playbook, update_destination, breaks_lock, apply_update,
}
use crobe.Server.Runs.{
  handle_run, finish_run, begin_run, started, validation_error, finish_setup, mark_elevated,
}
use crobe.Executor.Run.{run_exec}
use crobe.Director.{Event}
use crobe.Director.Run.{Flow, run_with_observer}
use crobe.Server.Types.{HttpsDestinationConfig, is_busy, https_source_custom}
use crobe.Server.Lifecycle.{LifecycleConfig}
use crobe.Server.Handlers.{Run, Server, new_server, broadcast_state}
use crobe.Server.Destination.{
  Outside, directory, validate_update, check_folder_source, check_folder,
  check_https as check_endpoint, validate_https, check_headers, check_url,
  is_valid_header_field_name, all_token_chars, is_token_char, is_valid_header_field_value,
  is_control,
}
use crobe.Server.Requests.{
  Decoders, uploaded, bad_status, begin_upload, finish_load, load_state, read_upload,
  handle_report_destination_put,
}
use crobe.Server.Handlers.{load_ok}
use crobe.Server.Steps.{
  Start, first_server, preload_state, begin_load, load_next, load, Step, upload, destination, run,
  cancel, set_up, observed, steps, step, advance,
}
use crobe.Server.Exclusive.{reached}
use crobe.Director.Protocol.Told.{last_event}
use crobe.Director.Protocol.Ordered.{events_ordered, assertions_of}
use crobe.Director.Protocol.{Follows}
use crobe.Server.Overtaken.{upload_overtaken}
use crobe.Server.Cancelled.{called_between}
use crobe.Server.Destination.Accepted.{IsEndpoint, validate_https_iff}
use crobe.Server.Destination.Guarded.{custom-IsEndpoint}
use crobe.Examples.Playbooks.{playbook_accepted}
use crobe.Examples.Samples.{playbook, host, late, machine}

abbrev outside : Outside
outside = record {
  abs = λ dir. some dir;
  quote = λ s. s;
  parse_request_uri = λ url. ok ("https", "example.org");
  stat = λ dir. directory;
}

abbrev decoders : Decoders
decoders = record {
  json = λ content. ok playbook;
  yaml = λ content. ok playbook;
  to_lower = λ s. s;
  fetch = λ req. bad_status 404;
}

abbrev config : LifecycleConfig
config = record {
  startup_grace_period = pos 0;
  inactivity_timeout = pos 0;
  disable_auto_shutdown = false;
}

abbrev first_start : Start
first_start = record {
  cli_folder = "";
  is_ui = true;
  cfg = config;
  is_agent = false;
  preload = none;
}

abbrev to_folder : String → String → Option String
to_folder dir report = none

abbrev begun : List (Step String)
begun =
    upload "POST" (uploaded "playbook.json" "raw") ∷ load 0 ∷ run "POST" 7 8 ∷ set_up 0 none ∷ []

abbrev begun_server : Server String
begun_server = reached outside decoders to_folder first_start begun

abbrev first_run : Run
first_run = record { number = 1; run_id = "run-7"; playbook = playbook; is_elevating = false }

abbrev cancelled_flow : Flow ℕ
cancelled_flow = run_with_observer (host late) (run_exec (host late)) playbook "run-7" machine 0

abbrev heard_in : Event → Step String
heard_in ev = observed 0 ev

abbrev asked_between : List (Step String)
asked_between = cancel "POST" ∷ map heard_in cancelled_flow.events

events_ordered_example :
    (front : List Event) × (cancelled_flow.events
      ≡ front ++ last_event (host late) (run_exec (host late)) playbook "run-7" cancelled_flow ∷ [])
    × Follows (assertions_of playbook.sections) front []
events_ordered_example =
    events_ordered (host late) (run_exec (host late)) playbook "run-7" machine 0

abbrev called_server : Server String
called_server = called_between outside decoders to_folder first_start begun [] 0 []

abbrev cancelled_server : Server String
cancelled_server = finish_run to_folder first_run "report" 9 called_server

-- An endpoint that is asked for.
abbrev custom : HttpsDestinationConfig
custom = record {
  url = "https://example.org";
  format = "json";
  secret = "";
  headers = ("X-Key", "one two") ∷ [];
}

validate_https_iff_example : (validate_https outside custom ≡ none) ↔ IsEndpoint outside custom
validate_https_iff_example = validate_https_iff outside custom

abbrev chosen : List (Step String)
chosen =
    destination "PUT" (
      ok (record {
        folder = none;
        folder_source = none;
        https_source = some "custom";
        https = some custom;
      }))
    ∷ []

abbrev chosen_server : Server String
chosen_server = reached outside decoders to_folder first_start chosen

chosen_is_custom : chosen_server.state.report_destination.https_source ≡ https_source_custom
unfolding steps step first_server preload_state handle_report_destination_put can_mutate is_busy
    new_server new_state_manager broadcast_state update_destination breaks_lock apply_update
    validate_update check_folder_source check_folder check_endpoint validate_https check_headers
    check_url is_valid_header_field_name all_token_chars is_token_char is_valid_header_field_value
    is_control trim_space is_space
chosen_is_custom = refl

custom-IsEndpoint_example :
    (c : HttpsDestinationConfig) × (chosen_server.state.report_destination.https ≡ some c)
    × (validate_https outside c ≡ none)
    × IsEndpoint outside c
custom-IsEndpoint_example =
    custom-IsEndpoint outside decoders to_folder first_start chosen chosen_is_custom

-- A server with a playbook that has been loaded.
abbrev ready : Server String
ready =
    reached outside decoders to_folder first_start
      (upload "POST" (uploaded "p" "raw") ∷ load 0 ∷ [])

ready_is_free : ready.runs ≡ []
unfolding steps step advance handle_run begin_run started begin_upload begin_load load_next
    first_server preload_state can_mutate is_busy new_server new_state_manager finish_load
    broadcast_state load_state read_upload ends_with set_playbook validation_error finish_setup
    mark_elevated validate check_title check_destination check_https check_sections
    validate_sections validate_section validate_body validate_assertions validate_assertion
    check_code check_agent check_execs check_cmds check_cmd check_gathers check_file prohibited
    trim_space is_space concat itoa requires_elevation elevation_stats visit_sections
    visit_assertions visit_assertion visit_cmds visit_execs mark
ready_is_free = refl

ready_has_playbook : ready.state.playbook ≡ some playbook
unfolding steps step advance handle_run begin_run started begin_upload begin_load load_next
    first_server preload_state can_mutate is_busy new_server new_state_manager finish_load
    broadcast_state load_state read_upload ends_with set_playbook validation_error finish_setup
    mark_elevated validate check_title check_destination check_https check_sections
    validate_sections validate_section validate_body validate_assertions validate_assertion
    check_code check_agent check_execs check_cmds check_cmd check_gathers check_file prohibited
    trim_space is_space concat itoa requires_elevation elevation_stats visit_sections
    visit_assertions visit_assertion visit_cmds visit_execs mark
ready_has_playbook = refl

ready_is_valid : validation_error ready.state.errors ≡ none
unfolding steps step advance handle_run begin_run started begin_upload begin_load load_next
    first_server preload_state can_mutate is_busy new_server new_state_manager finish_load
    broadcast_state load_state read_upload ends_with set_playbook validation_error finish_setup
    mark_elevated validate check_title check_destination check_https check_sections
    validate_sections validate_section validate_body validate_assertions validate_assertion
    check_code check_agent check_execs check_cmds check_cmd check_gathers check_file prohibited
    trim_space is_space concat itoa requires_elevation elevation_stats visit_sections
    visit_assertions visit_assertion visit_cmds visit_execs mark
ready_is_valid = refl

ready_is_idle : is_busy ready.state.status ≡ false
unfolding steps step advance handle_run begin_run started begin_upload begin_load load_next
    first_server preload_state can_mutate is_busy new_server new_state_manager finish_load
    broadcast_state load_state read_upload ends_with set_playbook validation_error finish_setup
    mark_elevated validate check_title check_destination check_https check_sections
    validate_sections validate_section validate_body validate_assertions validate_assertion
    check_code check_agent check_execs check_cmds check_cmd check_gathers check_file prohibited
    trim_space is_space concat itoa requires_elevation elevation_stats visit_sections
    visit_assertions visit_assertion visit_cmds visit_execs mark
ready_is_idle = refl

upload_overtaken_example :
    let running_server = (handle_run "POST" 1 2 ready).1 in
    let loaded_server = (finish_load outside.abs (load_ok playbook "raw") running_server).1 in
    (can_mutate ready.state ≡ true)
    × (can_mutate running_server.state ≡ false)
    × (length (handle_run "POST" 3 4 loaded_server).1.runs ≡ 2)
upload_overtaken_example =
    upload_overtaken outside.abs ready playbook playbook "raw" 1 3 2 4 ready_is_free
      ready_has_playbook ready_is_valid ready_is_idle playbook_accepted
