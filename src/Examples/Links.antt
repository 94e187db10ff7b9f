-- ===== src/Examples/Links.antt =====
-- The theorems on the client and its worker, at a request that is sent, run and answered.
use crobe.Common.{ℕ, ◌≡◌, ◌≢◌, ◌⊎◌, refl, true, Option, none, some, [], String, arith}
use crobe.Common.Int.{pos}
use crobe.Common.Result.{Result, ok, err}
use crobe.Executor.{ExecutionRequest, ExecutionResult}
use crobe.Elevation.{Link, WireMessage, new_link, request_id, send_request, accept_response}
use crobe.Elevation.Worker.{
  worker_step, handle_message, end_job, result_message, asks, turns, ends, LinkReach, start, later,
}
use crobe.Elevation.Relayed.{relayed, mismatched, run_relayed}
use crobe.Elevation.Setup.{SetUp, setup_elevation, setup_elevation-SetUp}
use crobe.Examples.Samples.{playbook}

abbrev request : ExecutionRequest
request = record { script = "id"; shell = "sh"; extension = "" }

abbrev root_result : ExecutionResult
root_result = record { stdout = "root"; stderr = ""; exit_code = pos 0; success = true }

-- A runner that answers every request in the same way.
data IsRoot : ExecutionRequest → ExecutionResult → Option String → Type 0 where
  is_root : (req : ExecutionRequest) → IsRoot req root_result none

abbrev asked_link : Link
asked_link = (send_request none none request new_link).1

abbrev taken_link : Link
taken_link = worker_step none asked_link

abbrev answered_link : Link
answered_link = end_job 0 (request_id 1) root_result none none taken_link

answered-LinkReach : LinkReach IsRoot answered_link
unfolding send_request worker_step handle_message
answered-LinkReach =
    later (later (later start (asks new_link none none request)) (turns asked_link none))
      (ends taken_link 0 (request_id 1) request root_result none none refl (is_root request))

abbrev answer : WireMessage
answer = result_message (request_id 1) root_result none

run_relayed_example :
    (((answer).id ≢ request_id 1)
      × (accept_response (request_id 1) (ok answer) ≡ mismatched (answer).id (request_id 1)))
    ⊎ ((res : ExecutionResult) × (e : Option String) × IsRoot request res e
        × (accept_response (request_id 1) (ok answer) ≡ relayed res e))
unfolding send_request worker_step handle_message end_job
run_relayed_example =
    run_relayed IsRoot answered_link 1 request answer [] answered-LinkReach (omega arith)
      (omega arith, refl) refl

abbrev created : Result ℕ
created = err "no pkexec"

setup_elevation-SetUp_example :
    SetUp (some playbook) none (setup_elevation (some playbook) created none)
setup_elevation-SetUp_example = setup_elevation-SetUp (some playbook) created none
