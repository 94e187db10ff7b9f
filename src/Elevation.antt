-- ===== src/Elevation.antt =====
-- The commands that need privileges (internal/elevation): a client sends requests to a worker process, and
-- the worker answers them, with the messages of protocol.go. `Client` is in client.go. The encoders, the
-- decoders, the socket and the process are outside: what fails there is an argument.
use crobe.Common.{
  ℕ, zero, suc, ◌+◌, ◌%◌, ◌≤◌, Bool, true, false, not, ◌||◌, ◌&&◌, Option, none, some, List, [],
  ◌∷◌, ◌++◌, String, if◌then◌else◌, ◌==◌, is_empty, eqb, ◌≡◌,
}
use crobe.Common.Int.{pos}
use crobe.Common.Text.{concat, itoa}
use crobe.Common.Result.{Result, ok, err}
use crobe.Executor.{ExecutionRequest, ExecutionResult}
pub mod Worker
pub mod Traced
pub mod Preserved
pub mod Relayed
pub mod Setup

-- `MessageType`, a string: the five constants of protocol.go, and any other text.
pub data MessageType : Type 0 where
  exec_type result_type ping_type pong_type shutdown_type : MessageType
  other_type : String → MessageType

-- A field that is left out is empty, or nil.
pub record WireMessage : Type 0 where
  pub message_type : MessageType
  pub id : String
  pub exec : Option ExecutionRequest
  pub result : Option ExecutionResult
  pub error : String

-- A client and its worker. `seq` is how often `atomic.AddUint64(&c.seq, 1)` was called, so that the counter is
-- `seq % 2 ^ 64`. The messages under way are queues, the oldest first. A job of the worker has the identifier
-- of its request. `asked` is what the program does not keep: the request that was sent under each number.
pub record Link : Type 0 where
  pub seq : ℕ
  pub closed : Bool
  pub to_worker : List WireMessage
  pub jobs : List (String × ExecutionRequest)
  pub stopped : Bool
  pub to_client : List WireMessage
  pub asked : ℕ → Option ExecutionRequest

-- After `NewClient` has accepted the connection.
abbrev pub new_link : Link
new_link = record {
  seq = 0;
  closed = false;
  to_worker = [];
  jobs = [];
  stopped = false;
  to_client = [];
  asked = λ n. none;
}

abbrev pub empty_result : ExecutionResult
empty_result = record { stdout = ""; stderr = ""; exit_code = pos 0; success = false }

-- `fmt.Sprintf("req-%d", n)`, of the counter.
unfoldable pub request_id : ℕ → String
request_id n = concat ("req-" ∷ itoa (n % 18446744073709551616) ∷ [])

unfoldable pub ping_id : ℕ → String
ping_id n = concat ("ping-" ∷ itoa (n % 18446744073709551616) ∷ [])

abbrev pub exec_message : String → ExecutionRequest → WireMessage
exec_message id req = record {
  message_type = exec_type;
  id = id;
  exec = some req;
  result = none;
  error = "";
}

-- A message without a payload.
abbrev pub plain_message : MessageType → String → String → WireMessage
plain_message message_type id error = record {
  message_type = message_type;
  id = id;
  exec = none;
  result = none;
  error = error;
}

-- `Client.Run` while it holds the mutex: the identifier of the request, or the error it returns.
-- `ctx_err` is `ctx.Err()`, and `written` what `Encode` returns; a message that is not written is not received.
unfoldable pub send_request :
    Option String → Option String → ExecutionRequest → Link → Result String × Link
send_request ctx_err written req l = if l.closed then (err "client closed", l) else elim ctx_err [
  | some e ↦ (err e, l)
  | none ↦
      let n = suc l.seq in
      elim written [
        | some e ↦ (err (concat ("failed to send exec request: " ∷ e ∷ [])), record l { seq = n })
        | none ↦ (
          ok (request_id n),
          record l {
            seq = n;
            to_worker = l.to_worker ++ exec_message (request_id n) req ∷ [];
            asked = λ k. if eqb k n then some req else l.asked k;
          },
        )
      ]
]

-- The result of a message that has none.
abbrev pub result_or_empty : Option ExecutionResult → ExecutionResult
result_or_empty none = empty_result
result_or_empty (some res) = res

-- `Client.Run` once its goroutine has decoded a message, or failed to.
unfoldable pub accept_response : String → Result WireMessage → ExecutionResult × Option String
accept_response req_id (err e) =
    (empty_result, some (concat ("failed to receive exec response: " ∷ e ∷ [])))
accept_response req_id (ok resp) =
    if not (resp.id == req_id)
    then (
      empty_result,
      some (concat ("mismatched response ID: got " ∷ resp.id ∷ ", want " ∷ req_id ∷ [])),
    )
    else if not (is_empty resp.error)
    then (result_or_empty resp.result, some (concat ("elevated worker error: " ∷ resp.error ∷ [])))
    else elim resp.result [
      | none ↦ (empty_result, some "nil result from elevated worker")
      | some res ↦ (res, none)
    ]

-- `Client.Run` while it waits: `none` if the context is done before a message is decoded.
unfoldable pub await_response :
    String → String → Option (Result WireMessage) → ExecutionResult × Option String
await_response req_id ctx_err none = (empty_result, some ctx_err)
await_response req_id ctx_err (some decoded) = accept_response req_id decoded

-- `Client.Ping` while it holds the mutex.
unfoldable pub send_ping : Option String → Link → Result String × Link
send_ping written l =
    if l.closed
    then (err "client closed", l)
    else let n = suc l.seq in
      elim written [
        | some e ↦ (err (concat ("failed to send ping: " ∷ e ∷ [])), record l { seq = n })
        | none ↦ (
          ok (ping_id n),
          record l {
            seq = n;
            to_worker = l.to_worker ++ plain_message ping_type (ping_id n) "" ∷ [];
          },
        )
      ]

-- Whether a message is of the type of a pong.
abbrev pub is_pong : MessageType → Bool
is_pong pong_type = true
is_pong _ = false

abbrev pub type_text : MessageType → String
type_text exec_type = "exec"
type_text result_type = "result"
type_text ping_type = "ping"
type_text pong_type = "pong"
type_text shutdown_type = "shutdown"
type_text (other_type s) = s

-- `Client.Ping` once it has decoded a message, or failed to: its error.
unfoldable pub accept_pong : String → Result WireMessage → Option String
accept_pong id (err e) = some (concat ("failed to receive pong: " ∷ e ∷ []))
accept_pong id (ok resp) =
    if not (is_pong resp.message_type) || not (resp.id == id)
    then some (
        concat (
          "unexpected ping response: type=" ∷ type_text resp.message_type ∷ ", id=" ∷ resp.id ∷ []))
    else none

-- `Client.Close`: what `Encode` returns is ignored.
unfoldable pub close_client : Option String → Link → Link
close_client written l = if l.closed then l else elim written [
  | some e ↦ record l { closed = true }
  | none ↦ record l {
    closed = true;
    to_worker = l.to_worker ++ plain_message shutdown_type "" "" ∷ [];
  }
]

-- `Decode` of the client: the oldest message to it, if there is one.
unfoldable pub decode_next : Link → Option WireMessage × Link
decode_next l = elim l.to_client [
  | [] ↦ (none, l)
  | msg ∷ rest ↦ (some msg, record l { to_client = rest })
]
