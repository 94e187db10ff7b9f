-- ===== src/Elevation/Worker.antt =====
-- The worker's loop (internal/elevation/worker.go), and the client and the worker as a machine of steps.
use crobe.Common.{
  ℕ, zero, suc, Option, none, some, List, [], ◌∷◌, ◌++◌, String, ◌≡◌, true, if◌then◌else◌,
}
use crobe.Executor.{ExecutionRequest, ExecutionResult}
use crobe.Elevation.{
  exec_type, result_type, ping_type, pong_type, shutdown_type, WireMessage, Link, new_link,
  plain_message, send_request, send_ping, close_client, decode_next,
}

-- `sendResp` in the worker's loop, which ends if it fails.
abbrev pub send_reply : Option String → WireMessage → Link → Link
send_reply (some e) msg l = record l { stopped = true }
send_reply none msg l = record l { to_client = l.to_client ++ msg ∷ [] }

-- What the worker's loop does with a message.
unfoldable pub handle_message : Option String → WireMessage → Link → Link
handle_message sent msg l = elim msg.message_type [
  | exec_type ↦ elim msg.exec [
    | none ↦ send_reply sent (plain_message result_type msg.id "exec request payload missing") l
    | some req ↦ record l { jobs = l.jobs ++ (msg.id, req) ∷ [] }
  ]
  | ping_type ↦ send_reply sent (plain_message pong_type msg.id "") l
  | shutdown_type ↦ record l { stopped = true }
  | _ ↦ l
]

-- The next turn of the loop: it takes the oldest message, if there is one.
unfoldable pub worker_step : Option String → Link → Link
worker_step sent l = if l.stopped then l else elim l.to_worker [
  | [] ↦ l
  | msg ∷ rest ↦ handle_message sent msg (record l { to_worker = rest })
]

-- `execErr.Error()`, if there is an error.
abbrev pub error_text : Option String → String
error_text none = ""
error_text (some e) = e

-- The message of a job that has ended.
abbrev pub result_message : String → ExecutionResult → Option String → WireMessage
result_message id res e = record {
  message_type = result_type;
  id = id;
  exec = none;
  result = some res;
  error = error_text e;
}

abbrev pub job_at : ℕ → List (String × ExecutionRequest) → Option (String × ExecutionRequest)
job_at n [] = none
job_at zero (x ∷ xs) = some x
job_at (suc n) (x ∷ xs) = job_at n xs

abbrev pub drop_job : ℕ → List (String × ExecutionRequest) → List (String × ExecutionRequest)
drop_job n [] = []
drop_job zero (x ∷ xs) = xs
drop_job (suc n) (x ∷ xs) = x ∷ drop_job n xs

-- The goroutine of the job at a place has called the local runner, and sends its message; whether that
-- succeeds is ignored.
unfoldable pub end_job : ℕ → String → ExecutionResult → Option String → Option String → Link → Link
end_job i id res e sent l = elim sent [
  | some e' ↦ record l { jobs = drop_job i l.jobs }
  | none ↦ record l {
    jobs = drop_job i l.jobs;
    to_client = l.to_client ++ result_message id res e ∷ [];
  }
]

-- What the local runner may return for a request.
abbrev pub LocalRunner : Type 1
LocalRunner = ExecutionRequest → ExecutionResult → Option String → Type 0

-- The steps of the client and of the worker, in any order. Several calls of the client may be under way, and each decodes one message at a time.
pub data LinkStep (Ran : LocalRunner) : Link → Link → Type 0 where
  asks :
      (l : Link) (ctx_err written : Option String) (req : ExecutionRequest)
      → LinkStep Ran l (send_request ctx_err written req l).1
  pings : (l : Link) (written : Option String) → LinkStep Ran l (send_ping written l).1
  closes : (l : Link) (written : Option String) → LinkStep Ran l (close_client written l)
  decodes : (l : Link) → LinkStep Ran l (decode_next l).1
  turns : (l : Link) (sent : Option String) → LinkStep Ran l (worker_step sent l)
  fails : (l : Link) → LinkStep Ran l (record l { stopped = true })
  ends :
      (l : Link) (i : ℕ) (id : String) (req : ExecutionRequest) (res : ExecutionResult)
      (e sent : Option String)
      → job_at i l.jobs ≡ some (id, req)
      → Ran req res e
      → LinkStep Ran l (end_job i id res e sent l)

pub data LinkReach (Ran : LocalRunner) : Link → Type 0 where
  start : LinkReach Ran new_link
  later : {l l' : Link} → LinkReach Ran l → LinkStep Ran l l' → LinkReach Ran l'
