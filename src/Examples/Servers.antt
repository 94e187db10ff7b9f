-- ===== src/Examples/Servers.antt =====
-- The theorems on the server, at concrete states and histories.
use crobe.Common.{
  arith, ℕ, ◌+◌, ◌⊎◌, ◌≡◌, refl, true, false, not, ◌&&◌, Option, none, some, List, [], ◌∷◌, String,
  eqb, ◌==◌, is_empty, if◌then◌else◌,
}
use crobe.Common.Int.{pos}
use crobe.Playbook.{destination_https, ReportDestinationConfig}
use crobe.Server.Types.{
  DestinationUpdateRequest, is_busy, no_detail, folder_source_off, folder_source_cli,
  https_source_playbook, https_source_off,
}
use crobe.Server.State.{StateManager, set_status, can_mutate, get_playbook_inspection}
use crobe.Server.State.Methods.{resolve_folder_path, new_state_manager, unload_playbook}
use crobe.Server.State.Calls.{
  Call, load, load_error, unload, update, call, calls, unload_resets, one_destination,
}
use crobe.Server.State.Lock.{folder_locked}
use crobe.Server.State.Secrets.{IsAlike, with_https, inspection_hides_secrets}
use crobe.Server.Lifecycle.{
  LifecycleConfig, new_lifecycle_manager, on_idle_timeout_expired, on_client_disconnect,
  on_grace_period_expired, on_client_connect,
}
use crobe.Server.Lifecycle.Idle.{
  Call as Signal, connect, disconnect, grace_over, after, connected, halted, IsIdle, armed-IsIdle,
  after_call, shutdown_iff_idle,
}
use crobe.Examples.Playbooks.{playbook_accepted}
use crobe.Server.State.Dispatch.{endpoint, dispatch_folder, dispatch_https, dispatch_report}
use crobe.Server.State.Delivery.{loaded_dispatch}
use crobe.Server.Events.{new_event_broker, log_data}
use crobe.Server.Events.Order.{
  Call as Broker_call, join, leave, take, send, Rising, inbox, inbox_rises,
}
use crobe.Examples.Samples.{playbook, endpoint_config}

abbrev abs : String → Option String
abs dir = some dir

abbrev request : DestinationUpdateRequest
request = record {
  folder = some "/tmp";
  folder_source = none;
  https_source = some "custom";
  https = none;
}

abbrev history : List Call
history = load playbook "raw" [] ∷ update request ∷ unload ∷ load_error "c" "m" no_detail ∷ []

abbrev out_manager : StateManager String
out_manager = calls abs history (new_state_manager abs "out" true)

folder_locked_example :
    let d = out_manager.report_destination in
    (d.folder_source ≡ folder_source_cli) × (d.folder ≡ resolve_folder_path abs "out")
folder_locked_example = folder_locked abs String "out" true history refl

abbrev loaded : StateManager String
loaded = set_status (new_state_manager abs "" false) "loaded"

loaded-can_mutate : can_mutate loaded ≡ true
unfolding can_mutate is_busy set_status
loaded-can_mutate = refl

unload_resets_example :
    ((unload_playbook abs loaded).0 ≡ none)
    × ((unload_playbook abs loaded).1
        ≡ record (new_state_manager abs loaded.cli_folder loaded.is_ui) {
          run_start_time = loaded.run_start_time;
          active_run_cancel = loaded.active_run_cancel;
          active_run_done = loaded.active_run_done;
        })
unload_resets_example = unload_resets abs loaded loaded-can_mutate

loaded_is_direct : loaded.is_ui ≡ false
unfolding set_status new_state_manager
loaded_is_direct = refl

one_destination_example :
    let d = (call abs (load playbook "raw" []) loaded).report_destination in
    let by_https = is_empty loaded.cli_folder && playbook.report_destination == destination_https in
    ((d.folder_source == folder_source_off) ≡ by_https)
    × (d.https_source ≡ (if by_https then https_source_playbook else https_source_off))
one_destination_example = one_destination abs loaded playbook "raw" [] loaded_is_direct

abbrev other_config : ReportDestinationConfig
other_config = record endpoint_config {
  signature_secret = "another secret";
  additional_headers = ("X-Key", "another key") ∷ [];
}

configs-IsAlike : IsAlike endpoint_config other_config
configs-IsAlike = record { url = refl; format = refl; has_secret = refl; header_names = refl }

inspection_hides_secrets_example :
    get_playbook_inspection
      (record loaded { playbook = some (with_https playbook endpoint_config) })
    ≡ get_playbook_inspection (record loaded { playbook = some (with_https playbook other_config) })
inspection_hides_secrets_example =
    inspection_hides_secrets loaded playbook endpoint_config other_config configs-IsAlike

abbrev config : LifecycleConfig
config = record {
  startup_grace_period = pos 0;
  inactivity_timeout = pos 0;
  disable_auto_shutdown = false;
}

abbrev visit : List Signal
visit = connect ∷ grace_over "loaded" ∷ disconnect "loaded" ∷ []

visit_arms : (after visit (new_lifecycle_manager config)).idle_timer ≡ true
unfolding after after_call on_client_disconnect on_grace_period_expired on_client_connect
    new_lifecycle_manager is_busy
visit_arms = refl

armed-IsIdle_example : IsIdle (after visit (new_lifecycle_manager config))
armed-IsIdle_example = armed-IsIdle config visit visit_arms

shutdown_iff_idle_example :
    (on_idle_timeout_expired "loaded" (after visit (new_lifecycle_manager config))).1 ≡ (
      eqb (connected 0 visit) 0
      && (not (halted visit) && (not config.disable_auto_shutdown && not (is_busy "loaded"))))
shutdown_iff_idle_example = shutdown_iff_idle config visit "loaded"

-- One client that takes two events while another leaves.
abbrev stream : List Broker_call
stream =
    join
    ∷ join
    ∷ send "log" "run" (log_data "run" "one")
    ∷ take 0
    ∷ leave 1
    ∷ send "log" "run" (log_data "run" "two")
    ∷ take 0
    ∷ []

inbox_rises_example : Rising 0 (inbox 0 stream new_event_broker)
inbox_rises_example = inbox_rises 0 stream (omega arith)

-- Writers that succeed, and count their calls.
abbrev to_disk : String → String → ℕ → Option String × ℕ
to_disk dir report n = (none, n + 1)

abbrev to_http : ReportDestinationConfig → String → ℕ → Option String × ℕ
to_http c report n = (none, n + 1)

loaded_dispatch_example :
    let sm' = call abs (load playbook "raw" []) loaded in
    let by_https = is_empty loaded.cli_folder && playbook.report_destination == destination_https in
    let sent = dispatch_report to_disk to_http sm' "report" 0 in
    (by_https ≡ true)
      × ((c : ReportDestinationConfig) × (playbook.report_destination_https ≡ some c)
          × (sent ≡ dispatch_https to_disk to_http (endpoint c) "report" 0))
    ⊎ (by_https ≡ false)
      × ((sm'.report_destination.folder_source == folder_source_off) ≡ false)
      × (sent ≡ dispatch_folder to_disk to_http sm'.report_destination "report" 0)
loaded_dispatch_example =
    loaded_dispatch to_disk to_http abs loaded playbook "raw" true "report" 0 loaded_is_direct
      playbook_accepted
