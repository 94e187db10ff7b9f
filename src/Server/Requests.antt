-- ===== src/Server/Requests.antt =====
-- The handlers of internal/server/handlers_playbook.go and handlers_destination.go. What they take from
-- a request, from the network and from the decoders is a parameter. A handler that loads a playbook is two
-- steps: it asks `CanMutate` and reads, and it takes the mutex again to load what it has read.
use crobe.Common.{
  ℕ, Bool, true, false, not, Option, none, some, List, [], ◌∷◌, String, if◌then◌else◌, ◌==◌,
  starts_with, ◌⊎◌, inl, inr,
}
use crobe.Common.Text.{concat, itoa, ends_with}
use crobe.Common.Result.{Result, ok, err}
use crobe.Playbook.{Playbook}
use crobe.Playbook.Validator.{validate}
use crobe.Server.Types.{
  no_detail, DestinationUpdateRequest, err_code_playbook_parse_failed, err_code_remote_fetch_failed,
}
use crobe.Server.State.{
  StateManager, can_mutate, get_state_response, get_playbook_inspection, set_load_error,
}
use crobe.Server.State.Methods.{set_playbook, unload_playbook, update_destination}
use crobe.Server.Handlers.{
  Loaded, load_ok, load_failed, Server, Response, not_allowed, ok_state, state_body,
  inspection_body, shutting_down_body, refusal, conflict, broadcast_state,
}
use crobe.Server.Destination.{Outside, validate_update}

-- The outcome of reading a multipart upload: the form, the field, the contents.
pub data Upload : Type 0 where
  bad_form unreadable_file : String → Upload
  no_file : Upload
  uploaded : String → String → Upload

pub record RemotePlaybookRequest : Type 0 where
  pub url : String
  pub headers : List (String × String)

-- The outcome of a request for a remote playbook: the request that cannot be made, the failure to send
-- it, the status code if it is not 200, the failure to read the answer, or its type and contents.
pub data Fetched : Type 0 where
  bad_request unreachable unreadable_body : String → Fetched
  bad_status : ℕ → Fetched
  fetched : String → String → Fetched

-- `json.Unmarshal`, `yaml.Unmarshal`, `strings.ToLower`, and the client of HTTP.
pub record Decoders : Type 0 where
  pub json : String → Result Playbook
  pub yaml : String → Result Playbook
  pub to_lower : String → String
  pub fetch : RemotePlaybookRequest → Fetched

abbrev parsed : String → String → Result Playbook → Loaded
parsed what content (err e) = load_failed err_code_playbook_parse_failed (concat (what ∷ e ∷ []))
parsed what content (ok pb) = load_ok pb content

-- What an upload gives.
unfoldable pub read_upload : Decoders → Upload → Loaded
read_upload d (bad_form e) =
    load_failed err_code_playbook_parse_failed
      (concat ("Failed to parse multipart upload: " ∷ e ∷ []))
read_upload d no_file =
    load_failed err_code_playbook_parse_failed "Missing 'file' field in multipart upload"
read_upload d (unreadable_file e) =
    load_failed err_code_playbook_parse_failed (concat ("Failed to read uploaded file: " ∷ e ∷ []))
read_upload d (uploaded filename content) =
    let is_json = ends_with (d.to_lower filename) ".json" in
    parsed "Failed to parse playbook: " content (if is_json then d.json content else d.yaml content)

-- What the server of a remote playbook gives.
unfoldable pub read_fetched : Decoders → Fetched → Loaded
read_fetched d (bad_request e) =
    load_failed err_code_remote_fetch_failed (concat ("Failed to create HTTP request: " ∷ e ∷ []))
read_fetched d (unreachable e) =
    load_failed err_code_remote_fetch_failed (concat ("Failed to fetch remote playbook: " ∷ e ∷ []))
read_fetched d (bad_status n) =
    load_failed err_code_remote_fetch_failed
      (concat ("Remote server responded with status " ∷ itoa n ∷ []))
read_fetched d (unreadable_body e) =
    load_failed err_code_remote_fetch_failed (concat ("Failed to read remote playbook: " ∷ e ∷ []))
read_fetched d (fetched type content) =
    let is_json = starts_with (d.to_lower type) "application/json" in
    parsed "Failed to parse remote playbook: " content
      (if is_json then d.json content else d.yaml content)

-- What a request for a remote playbook gives. Its body is decoded from JSON.
unfoldable pub read_remote : Decoders → Result RemotePlaybookRequest → Loaded
read_remote d (err e) =
    load_failed err_code_remote_fetch_failed (concat ("Invalid JSON request body: " ∷ e ∷ []))
read_remote d (ok req) =
    if not (starts_with req.url "https://")
    then load_failed err_code_remote_fetch_failed "Remote playbook URL must use HTTPS"
    else read_fetched d (d.fetch req)

abbrev load_status : Loaded → ℕ
load_status (load_ok pb raw) = 200
load_status (load_failed code message) = 400

module _ {R : Type 0} where
  -- `handlePlaybookUpload`, to the end of its reading: the answer if it is refused, or what it will load.
  unfoldable pub begin_upload : Decoders → String → Upload → Server R → Response ⊎ Loaded
  begin_upload d method upload s =
      if not (method == "POST")
      then inl not_allowed
      else if not (can_mutate s.state)
      then inl (conflict "Cannot upload playbook during active execution or submission")
      else inr (read_upload d upload)

  -- `handlePlaybookRemote`, to the end of its reading.
  unfoldable pub begin_remote :
      Decoders → String → Result RemotePlaybookRequest → Server R → Response ⊎ Loaded
  begin_remote d method req s =
      if not (method == "POST")
      then inl not_allowed
      else if not (can_mutate s.state)
      then inl (conflict "Cannot fetch remote playbook during active execution or submission")
      else inr (read_remote d req)

module _ {R : Type 0} (abs : String → Option String) where
  -- `SetPlaybook` after `Validate(isAgent)`, or `SetLoadError`.
  unfoldable pub load_state : Bool → Loaded → StateManager R → StateManager R
  load_state is_agent (load_ok pb raw) sm = set_playbook abs sm pb raw (validate pb is_agent)
  load_state is_agent (load_failed code message) sm = set_load_error sm code message no_detail

  -- The second half of the two handlers that load a playbook, which validate it for the agent. It takes
  -- the mutex without asking `CanMutate` again.
  unfoldable pub finish_load : Loaded → Server R → Response × Server R
  finish_load l s =
      let s' = broadcast_state "" (record s { state = load_state true l s.state }) in
      (
        record {
          status_code = load_status l;
          body = state_body (get_state_response (load_state true l s.state));
        },
        s',
      )

  -- `handlePlaybookDelete`
  unfoldable pub handle_playbook_delete : String → Server R → Response × Server R
  handle_playbook_delete method s =
      let (e, sm) = unload_playbook abs s.state in
      if not (method == "DELETE") then (not_allowed, s) else elim e [
        | some message ↦ (conflict message, s)
        | none ↦ (ok_state (get_state_response sm), broadcast_state "" (record s { state = sm }))
      ]

-- `handlePlaybookGet`
unfoldable pub handle_playbook_get : {R : Type 0} → String → Server R → Response
handle_playbook_get method s =
    if not (method == "GET") then not_allowed else elim (get_playbook_inspection s.state) [
      | err e ↦ refusal 404 "NO_PLAYBOOK" e no_detail
      | ok inspection ↦ record { status_code = 200; body = inspection_body inspection }
    ]

-- `handleState`
unfoldable pub handle_state : {R : Type 0} → String → Server R → Response
handle_state method s =
    if not (method == "GET") then not_allowed else ok_state (get_state_response s.state)

-- `handleShutdown`: the answer, and whether the server is to shut down.
unfoldable pub handle_shutdown : String → Response × Bool
handle_shutdown method =
    if not (method == "POST")
    then (not_allowed, false)
    else (record { status_code = 200; body = shutting_down_body }, true)

-- The answer and the server after `UpdateDestination`.
abbrev pub updated : {R : Type 0} → Option String × StateManager R → Server R → Response × Server R
updated (some e, sm) s = (refusal 400 "DESTINATION_UPDATE_FAILED" e no_detail, s)
updated (none, sm) s =
    (ok_state (get_state_response sm), broadcast_state "" (record s { state = sm }))

-- `handleReportDestinationPut`. The body is decoded from JSON.
unfoldable pub handle_report_destination_put :
    {R : Type 0}
    → Outside
    → String
    → Result DestinationUpdateRequest
    → Server R
    → Response × Server R
handle_report_destination_put o method (err e) s =
    if not (method == "PUT")
    then (not_allowed, s)
    else if not (can_mutate s.state)
    then (conflict "Cannot update report destination during active execution or submission", s)
    else (
      refusal 400 "INVALID_REQUEST"
          (concat ("Failed to decode destination update payload: " ∷ e ∷ [])) no_detail,
      s,
    )
handle_report_destination_put o method (ok req) s =
    if not (method == "PUT")
    then (not_allowed, s)
    else if not (can_mutate s.state)
    then (conflict "Cannot update report destination during active execution or submission", s)
    else elim (validate_update o req) [
      | some e ↦ (refusal 400 "INVALID_DESTINATION" e no_detail, s)
      | none ↦ updated (update_destination o.abs s.state req) s
    ]
