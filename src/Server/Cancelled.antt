-- ===== src/Server/Cancelled.antt =====
-- What a cancellation brings about (internal/server/handlers_execution.go).
use crobe.Common.{◌≡◌, ℕ, Option, none, List, ◌++◌, String}
use crobe.Server.Types.{AppError, no_detail, err_code_execution_aborted}
use crobe.Server.Handlers.{Server, Response, conflict}
use crobe.Server.Runs.{handle_cancel}
use crobe.Server.Destination.{Outside}
use crobe.Server.Requests.{Decoders}
use crobe.Server.Steps.{Start, step, call, Step, steps}
use crobe.Server.Kept.{Kept}
use crobe.Server.Exclusive.{reached}

-- The answer to a submission without a report that may be sent.
abbrev pub no_valid_report : Response
no_valid_report = conflict "Cannot submit remote report: no valid completed report available"

-- What a run that ends as cancelled adds to the errors.
abbrev pub aborted : AppError
aborted = record {
  code = err_code_execution_aborted;
  message = "Execution cancelled by user";
  detail = no_detail;
}

module _ {R : Type 0} (o : Outside) (d : Decoders)
    (write_to_folder : String → R → Option String) where
  abbrev Takes : Server R → List ℕ → Option Response × Server R → Type 0
  Takes s target out = out.0 ≡ none → out.1.cancels ≡ s.cancels ++ target

  -- The server when a request to cancel has come after `xs`, and `ys` have followed; and when the handler of
  -- the cancel function at the place `j` has then called it, and `zs` have followed.
  abbrev pub cancelled_between : Start → List (Step R) → List (Step R) → Server R
  cancelled_between st xs ys =
      steps o d write_to_folder ys (handle_cancel "POST" (reached o d write_to_folder st xs)).1

  abbrev pub called_between : Start → List (Step R) → List (Step R) → ℕ → List (Step R) → Server R
  called_between st xs ys j zs =
      steps o d write_to_folder zs (step o d write_to_folder (call j) (cancelled_between st xs ys))
