-- ===== src/Server/State/Dispatch.antt =====
-- `DispatchReport` (internal/server/state.go). The writers of internal/reportwriter are parameters, which
-- return an error, if any, and the world after the attempt.
use crobe.Common.{Option, none, some, [], ◌∷◌, String, if◌then◌else◌, is_empty, ◌==◌}
use crobe.Playbook.{Playbook, ReportDestinationConfig}
use crobe.Common.Text.{concat}
use crobe.Server.Types.{
  HttpsDestinationConfig, ReportDestinationState, folder_source_off, https_source_playbook,
  https_source_custom,
}
use crobe.Server.State.{StateManager}

abbrev pub custom_config : HttpsDestinationConfig → ReportDestinationConfig
custom_config c = record {
  url = c.url;
  format = c.format;
  signature_secret = c.secret;
  additional_headers = c.headers;
}

abbrev missing_https : String
missing_https = "report destination is https, but reportDestinationHttps configuration is missing"

abbrev wrapped : String → Option String → Option String
wrapped what none = none
wrapped what (some e) = some (concat (what ∷ e ∷ []))

-- What `DispatchReport` submits to, if anything.
pub data Target : Type 0 where
  nowhere : Target
  missing : Target
  endpoint : ReportDestinationConfig → Target

abbrev playbook_target : Option Playbook → Target
playbook_target none = missing
playbook_target (some pb) = elim pb.report_destination_https [
  | none ↦ missing
  | some c ↦ endpoint c
]

abbrev custom_target : Option HttpsDestinationConfig → Target
custom_target none = nowhere
custom_target (some c) = endpoint (custom_config c)

-- The conditions of the second part.
unfoldable pub https_target : {R : Type 0} → StateManager R → Target
https_target sm =
    if sm.report_destination.https_source == https_source_playbook
    then playbook_target sm.playbook
    else if sm.report_destination.https_source == https_source_custom
    then custom_target sm.report_destination.https
    else nowhere

module _ {R W : Type 0} (write_to_folder : String → R → W → Option String × W)
    (write_to_http : ReportDestinationConfig → R → W → Option String × W) where
  -- The first part: the folder.
  unfoldable pub dispatch_folder : ReportDestinationState → R → W → Option String × W
  dispatch_folder d res w =
      let (e, w') = write_to_folder (if is_empty d.folder then "reports" else d.folder) res w in
      if d.folder_source == folder_source_off
      then (none, w)
      else (wrapped "failed to write report to folder: " e, w')

  -- The second part: the endpoint.
  unfoldable pub dispatch_https : Target → R → W → Option String × W
  dispatch_https nowhere res w = (none, w)
  dispatch_https missing res w = (some missing_https, w)
  dispatch_https (endpoint c) res w =
      let (e, w') = write_to_http c res w in
      (wrapped "failed to send report to HTTPS endpoint: " e, w')

  -- `DispatchReport`
  unfoldable pub dispatch_report : StateManager R → R → W → Option String × W
  dispatch_report sm res w =
      let (e, w') = dispatch_folder sm.report_destination res w in
      let second = dispatch_https (https_target sm) res w' in
      elim e [ some message ↦ (some message, w') | none ↦ second ]
