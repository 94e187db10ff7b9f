-- ===== src/Server/Events.antt =====
-- `EventBroker` (internal/server/events.go), which sends the events of a run to the connected clients. Each
-- method holds the mutex, so it is one step. A channel is a number with the events in its buffer, and a
-- client's receive takes the oldest of them.
use crobe.Common.{
  ℕ, suc, ◌+◌, ◌%◌, Bool, not, Option, none, some, List, [], ◌∷◌, ◌++◌, map, String, if◌then◌else◌,
  ltb, eqb, length,
}
use crobe.Common.Int.{ℤ}
use crobe.Server.Types.{AppStateResponse}
pub mod Order

pub record AssertionProgressEventData : Type 0 where
  pub run_id : String
  pub code : String
  pub status : String
  pub passed : Bool
  pub score : ℤ
  pub min_score : ℤ
  pub duration_ms : ℕ
  pub output : String

-- The data of an event: a state, `AssertionProgressEventData`, and the fields of `LogEventData`,
-- `ExecutionCompletedEventData`, `ExecutionCancelledEventData` and `TerminationEventData`, in order.
pub data EventData : Type 0 where
  state_data : AppStateResponse → EventData
  progress_data : AssertionProgressEventData → EventData
  log_data : String → String → EventData
  completed_data : String → String → ℕ → EventData
  cancelled_data : String → EventData
  termination_data : String → EventData

pub record SseEvent : Type 0 where
  pub id : ℕ
  pub type : String
  pub run_id : String
  pub payload : EventData

-- `last_event_id` is an int64, told by its 64 bits, which below 2 ^ 63 are the number itself. `next` is the number
-- of the channel that is made next.
pub record EventBroker : Type 0 where
  pub subscribers : List (ℕ × List SseEvent)
  pub last_event_id : ℕ
  pub next : ℕ

-- The room of `make(chan SSEEvent, 128)`.
abbrev pub capacity : ℕ
capacity = 128

-- `NewEventBroker`
unfoldable pub new_event_broker : EventBroker
new_event_broker = record { subscribers = []; last_event_id = 0; next = 0 }

-- `Subscribe`: the channel, and the broker.
unfoldable pub subscribe : EventBroker → ℕ × EventBroker
subscribe b = (b.next, record b { subscribers = (b.next, []) ∷ b.subscribers; next = suc b.next })

abbrev pub without : ℕ → List (ℕ × List SseEvent) → List (ℕ × List SseEvent)
without ch [] = []
without ch ((c, q) ∷ subs) = if eqb c ch then without ch subs else (c, q) ∷ without ch subs

-- `Unsubscribe`
unfoldable pub unsubscribe : ℕ → EventBroker → EventBroker
unsubscribe ch b = record b { subscribers = without ch b.subscribers }

-- The `select` that sends or drops.
abbrev pub offer : SseEvent → List SseEvent → List SseEvent
offer ev q = if ltb (length q) capacity then q ++ ev ∷ [] else q

abbrev pub send_all : SseEvent → List (ℕ × List SseEvent) → List (ℕ × List SseEvent)
send_all ev [] = []
send_all ev ((c, q) ∷ subs) = (c, offer ev q) ∷ send_all ev subs

-- `lastEventID++`, which wraps around.
abbrev pub next_id : ℕ → ℕ
next_id n = (n + 1) % 18446744073709551616

-- `Broadcast`: the identifier of the event, and the broker.
unfoldable pub broadcast : String → String → EventData → EventBroker → ℕ × EventBroker
broadcast type run_id payload b =
    let id = next_id b.last_event_id in
    let ev : SseEvent = record { id = id; type = type; run_id = run_id; payload = payload } in
    (id, record b { subscribers = send_all ev b.subscribers; last_event_id = id })

abbrev pub count_open : List (ℕ × List SseEvent) → ℕ
count_open [] = 0
count_open ((c, q) ∷ subs) =
    let rest = count_open subs in if ltb (length q) capacity then suc rest else rest

-- `BroadcastTermination`, but for its wait: the identifier, the number of clients to wait for, and the
-- broker.
unfoldable pub broadcast_termination : EventBroker → ℕ × ℕ × EventBroker
broadcast_termination b =
    let id = next_id b.last_event_id in
    let ev : SseEvent = record {
      id = id;
      type = "termination";
      run_id = "";
      payload = termination_data "shutdown";
    } in
    if eqb (length b.subscribers) 0 then (0, 0, b) else (
      id,
      count_open b.subscribers,
      record b { subscribers = send_all ev b.subscribers; last_event_id = id },
    )

abbrev pub queue_of : ℕ → List (ℕ × List SseEvent) → List SseEvent
queue_of ch [] = []
queue_of ch ((c, q) ∷ subs) = if eqb c ch then q else queue_of ch subs

abbrev pub tail : List SseEvent → List SseEvent
tail [] = []
tail (e ∷ q) = q

abbrev pub take_from : ℕ → List (ℕ × List SseEvent) → List (ℕ × List SseEvent)
take_from ch [] = []
take_from ch ((c, q) ∷ subs) = if eqb c ch then (c, tail q) ∷ subs else (c, q) ∷ take_from ch subs

-- The receive of `handleEvents`, which waits if there is nothing: the broker, after the oldest event has
-- been taken out of the buffer.
unfoldable pub receive : ℕ → EventBroker → EventBroker
receive ch b = record b { subscribers = take_from ch b.subscribers }
