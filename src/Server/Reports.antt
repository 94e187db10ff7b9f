-- ===== src/Server/Reports.antt =====
-- The handlers of internal/server/handlers_report.go. A submission is two steps: what
-- `handleReportRemoteSubmit` does before `WriteToHTTP`, and what it does after.
use crobe.Common.{
  ℕ, not, ◌&&◌, Option, none, some, List, [], ◌∷◌, ◌++◌, String, if◌then◌else◌, is_empty, ◌==◌,
  is_some,
}
use crobe.Common.Text.{concat}
use crobe.Common.Result.{Result, ok, err}
use crobe.Playbook.{Playbook, ReportDestinationConfig}
use crobe.Server.Types.{
  HttpsDestinationConfig, AppError, no_detail, is_busy, status_completed_submitting,
  status_completed_submitted, status_completed_submission_error, err_code_remote_submission_failed,
  err_code_remote_submission_timeout, https_source_playbook, https_source_custom,
}
use crobe.Server.State.{StateManager, get_state_response}
use crobe.Server.State.Dispatch.{custom_config}
use crobe.Server.Lifecycle.{on_execution_state_change}
use crobe.Server.Handlers.{
  Submission, Server, Response, not_allowed, state_body, text_body, refusal, conflict,
  broadcast_state,
}
use crobe.Server.Runs.{drop_at, add_error}

abbrev pub playbook_https : Option Playbook → Option ReportDestinationConfig
playbook_https none = none
playbook_https (some pb) = pb.report_destination_https

abbrev pub custom_https : Option HttpsDestinationConfig → Option ReportDestinationConfig
custom_https none = none
custom_https (some c) = some (custom_config c)

-- The endpoint of a submission, if there is one.
unfoldable pub https_config : {R : Type 0} → StateManager R → Option ReportDestinationConfig
https_config sm =
    let d = sm.report_destination in
    if d.https_source == https_source_custom && is_some d.https
    then custom_https d.https
    else if d.https_source == https_source_playbook
    then playbook_https sm.playbook
    else none

-- What a submission sends: a valid report, and the endpoint if it has a URL.
abbrev pub sendable_to :
    {R : Type 0} → Option ReportDestinationConfig → R → String → Option (Submission R)
sendable_to none report run_id = none
sendable_to (some c) report run_id =
    if is_empty c.url then none else some (record { config = c; report = report; run_id = run_id })

-- The report that may be submitted.
abbrev pub valid_report : {R : Type 0} → StateManager R → Option R
valid_report sm = if sm.is_cancelled then none else sm.last_report

-- The errors of earlier submissions are dropped.
unfoldable pub without_submission_errors : List AppError → List AppError
without_submission_errors [] = []
without_submission_errors (e ∷ es) =
    let rest = without_submission_errors es in
    if not (e.code == err_code_remote_submission_failed)
      && not (e.code == err_code_remote_submission_timeout)
    then e ∷ rest
    else rest

module _ {R : Type 0} where
  abbrev pub submitting : Submission R → Server R → Server R
  submitting sub s = broadcast_state sub.run_id (record s {
    state = record s.state { status = status_completed_submitting };
    submissions = s.submissions ++ sub ∷ [];
  })

  -- `handleReportRemoteSubmit`, to the call of `WriteToHTTP`: the answer if it is refused.
  unfoldable pub begin_submission : String → Server R → Option Response × Server R
  begin_submission method s =
      let sm = s.state in
      if not (method == "POST")
      then (some not_allowed, s)
      else if is_busy sm.status
      then (
        some (conflict "Cannot submit remote report while execution or submission is in progress"),
        s,
      )
      else elim (valid_report sm) [
        | none ↦
            (some (conflict "Cannot submit remote report: no valid completed report available"), s)
        | some report ↦ elim (sendable_to (https_config sm) report sm.active_run_id) [
          | none ↦ (
            some (refusal 400 "NO_DESTINATION" "No remote HTTPS destination configured" no_detail),
            s,
          )
          | some sub ↦ (none, submitting sub s)
        ]
      ]

  abbrev pub submission_failed : String → StateManager R → StateManager R
  submission_failed e sm =
      add_error err_code_remote_submission_failed (concat ("Remote submission failed: " ∷ e ∷ []))
        (record sm { status = status_completed_submission_error })

  abbrev pub submission_succeeded : StateManager R → StateManager R
  submission_succeeded sm = record sm {
    status = status_completed_submitted;
    errors = without_submission_errors sm.errors;
  }

  -- The state after `WriteToHTTP`, which returns an error, if any.
  abbrev pub ended : Option String → StateManager R → StateManager R
  ended none sm = submission_succeeded sm
  ended (some e) sm = submission_failed e sm

  -- What follows `WriteToHTTP`: the answer, and the server. The submission is the one at the index.
  unfoldable pub end_submission : ℕ → Submission R → Option String → Server R → Response × Server R
  end_submission i sub error s =
      let sm = ended error s.state in
      (
        record {
          status_code = if is_some error then 502 else 200;
          body = state_body (get_state_response sm);
        },
        record (broadcast_state sub.run_id (record s { state = sm })) {
          lifecycle = on_execution_state_change sm.status s.lifecycle;
          submissions = drop_at i s.submissions;
        },
      )

-- The answers with a report. `structured`, `markdown` and `log` are the parts of a `FinalResult`, and
-- `archive` is `BuildReportArchive` with the names that it gives; `download` and `format` are what the
-- query says.
module _ {R : Type 0} (structured markdown log : R → String)
    (archive : R → String → Result (String × String × String)) where
  abbrev no_report : String → Response
  no_report message = refusal 404 "NO_REPORT" message no_detail

  -- `handleReportGet`
  unfoldable pub handle_report_get : String → StateManager R → Response
  handle_report_get method sm = if not (method == "GET") then not_allowed else elim sm.last_report [
    | none ↦ no_report "No report available. Run a playbook first."
    | some rep ↦
        if sm.is_cancelled
        then conflict "Structured JSON report is unavailable for cancelled runs"
        else record { status_code = 200; body = text_body "application/json" (structured rep) none }
  ]

  abbrev attachment : String → String → Option String
  attachment download name = if download == "1" then some name else none

  -- `handleReportMDGet`
  unfoldable pub handle_report_md_get : String → String → StateManager R → Response
  handle_report_md_get method download sm =
      if not (method == "GET") then not_allowed else elim sm.last_report [
        | none ↦ no_report "No markdown report available. Run a playbook first."
        | some rep ↦ record {
          status_code = 200;
          body =
              text_body "text/markdown; charset=utf-8" (markdown rep)
                (attachment download "report.md");
        }
      ]

  -- `handleReportLogGet`
  unfoldable pub handle_report_log_get : String → String → StateManager R → Response
  handle_report_log_get method download sm =
      if not (method == "GET") then not_allowed else elim sm.last_report [
        | none ↦ no_report "No execution log available. Run a playbook first."
        | some rep ↦ record {
          status_code = 200;
          body = text_body "text/plain; charset=utf-8" (log rep) (attachment download "report.log");
        }
      ]

  abbrev archived : Result (String × String × String) → Response
  archived (err e) = refusal 400 "ARCHIVE_FAILED" e no_detail
  archived (ok (content, type, name)) = record {
    status_code = 200;
    body = text_body type content (some name);
  }

  -- `handleReportDownload`
  unfoldable pub handle_report_download : String → String → StateManager R → Response
  handle_report_download method format sm =
      if not (method == "GET") then not_allowed else elim sm.last_report [
        | none ↦ no_report "No report bundle available to download. Run a playbook first."
        | some rep ↦
            if sm.is_cancelled
            then conflict "Report archive download is unavailable for cancelled runs"
            else archived (archive rep (if is_empty format then "zip" else format))
      ]
