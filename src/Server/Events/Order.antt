-- ===== src/Server/Events/Order.antt =====
-- The order in which a client gets its events (internal/server/events.go).
use mathlib.Core.Path.{subst}
use crobe.Common.{
  ℕ, ◌+◌, ◌≤◌, ◌<◌, ◌≡◌, ◌≢◌, refl, sym, ◌∙◌, List, [], ◌∷◌, ◌++◌, String, if◌then◌else◌, ltb, eqb,
  length, arith, Bool-cases, inl, inr, if-elim,
}
use crobe.Server.Events.{
  next_id, SseEvent, EventData, EventBroker, capacity, new_event_broker, subscribe, unsubscribe,
  broadcast, broadcast_termination, receive, without, offer, send_all, queue_of, tail, take_from,
}

pub data Call : Type 0 where
  join : Call
  leave take : ℕ → Call
  send : String → String → EventData → Call
  terminate : Call

unfoldable pub after_call : Call → EventBroker → EventBroker
after_call join b = (subscribe b).1
after_call (leave ch) b = unsubscribe ch b
after_call (take ch) b = receive ch b
after_call (send t r d) b = (broadcast t r d b).1
after_call terminate b = (broadcast_termination b).2

-- The event that a call takes from a channel, if any.
abbrev first : List SseEvent → List SseEvent
first [] = []
first (e ∷ q) = e ∷ []

abbrev pub got : ℕ → Call → EventBroker → List SseEvent
got ch join b = []
got ch (leave c) b = []
got ch (take c) b = if eqb c ch then first (queue_of ch b.subscribers) else []
got ch (send t r d) b = []
got ch terminate b = []

-- All that the calls take from a channel, in order.
unfoldable pub inbox : ℕ → List Call → EventBroker → List SseEvent
inbox ch [] b = []
inbox ch (c ∷ cs) b = got ch c b ++ inbox ch cs (after_call c b)

-- The identifiers rise, from above `low`.
abbrev pub Rising : ℕ → List SseEvent → Type 0
Rising low [] = Unit
Rising low (e ∷ es) = (low < e.id) × Rising e.id es

-- They rise from above `low` to `high` at most.
abbrev Between : ℕ → ℕ → List SseEvent → Type 0
Between low high [] = low ≤ high
Between low high (e ∷ es) = (low < e.id) × Between e.id high es

Between-raise : (low high : ℕ) (q : List SseEvent) → Between low high q → Between low (high + 1) q
Between-raise low high [] h = omega arith
Between-raise low high (e ∷ q) h = (h.0, Between-raise e.id high q h.1)

Between-push :
    (low high : ℕ) (q : List SseEvent) (ev : SseEvent)
    → ev.id ≡ high + 1
    → Between low high q
    → Between low (high + 1) (q ++ ev ∷ [])
Between-push low high [] ev i h = (omega arith, omega arith)
Between-push low high (e ∷ q) ev i h = (h.0, Between-push e.id high q ev i h.1)

Between-le : (low high : ℕ) (q : List SseEvent) → Between low high q → low ≤ high
Between-le low high [] h = h
Between-le low high (e ∷ q) h = let r = Between-le e.id high q h.1 in omega (arith, h.0)

offer-Between :
    (low high : ℕ) (q : List SseEvent) (ev : SseEvent)
    → ev.id ≡ high + 1
    → Between low high q
    → Between low (high + 1) (offer ev q)
offer-Between low high q ev i h =
    if-elim (Between low (high + 1)) (ltb (length q) capacity) (q ++ ev ∷ []) q
      (λ e. Between-push low high q ev i h) (λ e. Between-raise low high q h)

send_all-Between :
    (ch low high : ℕ) (ev : SseEvent) (subs : List (ℕ × List SseEvent))
    → ev.id ≡ high + 1
    → Between low high (queue_of ch subs)
    → Between low (high + 1) (queue_of ch (send_all ev subs))
send_all-Between ch low high ev [] i h = omega arith
send_all-Between ch low high ev ((c, q) ∷ subs) i h = elim (Bool-cases (eqb c ch)) [
  | inl e ↦ rw e (offer-Between low high q ev i (rw e at h))
  | inr e ↦ rw e (send_all-Between ch low high ev subs i (rw e at h))
]

queue_of-gone : (ch : ℕ) (subs : List (ℕ × List SseEvent)) → queue_of ch (without ch subs) ≡ []
queue_of-gone ch [] = refl
queue_of-gone ch ((d, q) ∷ subs) = elim (Bool-cases (eqb d ch)) [
  | inl e ↦ rw e (queue_of-gone ch subs)
  | inr e ↦ rw e (rw e (queue_of-gone ch subs))
]

queue_of-other :
    (ch c : ℕ) (subs : List (ℕ × List SseEvent))
    → ch ≢ c
    → queue_of ch (without c subs) ≡ queue_of ch subs
queue_of-other ch c [] ne = refl
queue_of-other ch c ((d, q) ∷ subs) ne = ground (arith, queue_of-other ch c subs ne)

queue_of-taken :
    (ch c : ℕ) (subs : List (ℕ × List SseEvent))
    → queue_of ch (take_from c subs)
      ≡ (if eqb c ch then tail (queue_of ch subs) else queue_of ch subs)
queue_of-taken ch c [] = if-elim (λ q. [] ≡ q) (eqb c ch) [] [] (λ e. refl) (λ e. refl)
queue_of-taken ch c ((d, q) ∷ subs) = ground (arith, queue_of-taken ch c subs)

-- What is in the buffer comes after what has been taken, and before what is sent later.
abbrev IsAhead : ℕ → ℕ → EventBroker → Type 0
IsAhead ch low b = Between low b.last_event_id (queue_of ch b.subscribers)

leave-Ahead : (ch c low : ℕ) (b : EventBroker) → IsAhead ch low b → IsAhead ch low (unsubscribe c b)
unfolding unsubscribe
leave-Ahead ch c low b h = elim (Bool-cases (eqb ch c)) [
  | inl e ↦
      let same : ch ≡ c = ground arith in
      subst (λ d. Between low b.last_event_id (queue_of ch (without d b.subscribers))) same
        (subst (Between low b.last_event_id) (sym (queue_of-gone ch b.subscribers))
          (Between-le low b.last_event_id (queue_of ch b.subscribers) h))
  | inr e ↦
      subst (Between low b.last_event_id)
        (sym (queue_of-other ch c b.subscribers (λ q. ground arith))) h
]

-- An event with the next identifier, before the counter wraps around.
sent-Ahead :
    (ch low : ℕ) (ev : SseEvent) (b : EventBroker)
    → ev.id ≡ next_id b.last_event_id
    → b.last_event_id < 9223372036854775808
    → IsAhead ch low b
    → Between low (next_id b.last_event_id) (queue_of ch (send_all ev b.subscribers))
sent-Ahead ch low ev b i small h =
    let same : b.last_event_id + 1 ≡ next_id b.last_event_id = omega (arith, small) in
    subst (λ high. Between low high (queue_of ch (send_all ev b.subscribers))) same
      (send_all-Between ch low b.last_event_id ev b.subscribers (i ∙ sym same) h)

send-Ahead :
    (ch low : ℕ) (t r : String) (d : EventData) (b : EventBroker)
    → b.last_event_id < 9223372036854775808
    → IsAhead ch low b
    → IsAhead ch low (broadcast t r d b).1
unfolding broadcast
send-Ahead ch low t r d b small h = sent-Ahead ch low _ b refl small h

terminate-Ahead :
    (ch low : ℕ) (b : EventBroker)
    → b.last_event_id < 9223372036854775808
    → IsAhead ch low b
    → IsAhead ch low (broadcast_termination b).2
unfolding broadcast_termination
terminate-Ahead ch low b small h =
    if-elim (λ (out : ℕ × ℕ × EventBroker). IsAhead ch low out.2) (eqb (length b.subscribers) 0) _ _
      (λ e. h) (λ e. sent-Ahead ch low _ b refl small h)

-- A call counts one at most.
counted :
    (c : Call) (b : EventBroker)
    → b.last_event_id < 9223372036854775808
    → (after_call c b).last_event_id ≤ b.last_event_id + 1
unfolding after_call subscribe unsubscribe receive broadcast broadcast_termination
counted join b small = omega arith
counted (leave c) b small = omega arith
counted (take c) b small = omega arith
counted (send t r d) b small = omega (arith, small)
counted terminate b small =
    if-elim (λ (out : ℕ × ℕ × EventBroker). out.2.last_event_id ≤ b.last_event_id + 1)
      (eqb (length b.subscribers) 0) _ _ (λ e. omega arith) (λ e. omega (arith, small))

join-Ahead : (ch low : ℕ) (b : EventBroker) → IsAhead ch low b → IsAhead ch low (subscribe b).1
unfolding subscribe
join-Ahead ch low b h =
    if-elim (Between low b.last_event_id) (eqb b.next ch) [] (queue_of ch b.subscribers)
      (λ e. Between-le low b.last_event_id (queue_of ch b.subscribers) h) (λ e. h)

-- After the last of the events that have been taken.
abbrev top : ℕ → List SseEvent → ℕ
top low [] = low
top low (e ∷ es) = top e.id es

Between-tail :
    (low high : ℕ) (q : List SseEvent)
    → Between low high q
    → Rising low (first q) × Between (top low (first q)) high (tail q)
Between-tail low high [] h = (tt, h)
Between-tail low high (e ∷ q) h = ((h.0, tt), h.1)

-- A call takes the oldest events, and leaves the others ahead.
call-Ahead :
    (ch low : ℕ) (c : Call) (b : EventBroker)
    → b.last_event_id < 9223372036854775808
    → IsAhead ch low b
    → Rising low (got ch c b) × IsAhead ch (top low (got ch c b)) (after_call c b)
unfolding after_call receive
call-Ahead ch low join b small h = (tt, join-Ahead ch low b h)
call-Ahead ch low (leave c) b small h = (tt, leave-Ahead ch c low b h)
call-Ahead ch low (send t r d) b small h = (tt, send-Ahead ch low t r d b small h)
call-Ahead ch low terminate b small h = (tt, terminate-Ahead ch low b small h)
call-Ahead ch low (take c) b small h =
    let q = queue_of ch b.subscribers in
    let high = b.last_event_id in
    let taken = queue_of-taken ch c b.subscribers in
    elim (Bool-cases (eqb c ch)) [
      | inl e ↦
          let out = Between-tail low high q h in
          rw e (out.0, subst (Between (top low (first q)) high) (sym (rw e at taken)) out.1)
      | inr e ↦ rw e (tt, subst (Between low high) (sym (rw e at taken)) h)
    ]

Rising-append :
    (low : ℕ) (es fs : List SseEvent)
    → Rising low es
    → Rising (top low es) fs
    → Rising low (es ++ fs)
Rising-append low [] fs r s = s
Rising-append low (e ∷ es) fs r s = (r.0, Rising-append e.id es fs r.1 s)

inbox-Rising :
    (ch low : ℕ) (cs : List Call) (b : EventBroker)
    → b.last_event_id + length cs < 9223372036854775808
    → IsAhead ch low b
    → Rising low (inbox ch cs b)
unfolding inbox
inbox-Rising ch low [] b small h = tt
inbox-Rising ch low (c ∷ cs) b small h =
    let now : b.last_event_id < 9223372036854775808 = omega (arith, small) in
    let (r, h') = call-Ahead ch low c b now h in
    Rising-append low (got ch c b) (inbox ch cs (after_call c b)) r (
      inbox-Rising ch (top low (got ch c b)) cs (after_call c b)
        (omega (arith, small, counted c b now)) h')

-- However many clients come and go, and however the broadcasts and the receives of all clients are
-- interleaved, in fewer than 2 ^ 63 calls, the identifiers of the events that one client takes out of its
-- channel rise strictly: no event comes twice and none comes late, also when some are dropped because the
-- buffer is full.
pub inbox_rises :
    (ch : ℕ) (cs : List Call)
    → length cs < 9223372036854775808
    → Rising 0 (inbox ch cs new_event_broker)
unfolding new_event_broker
inbox_rises ch cs small = inbox-Rising ch 0 cs new_event_broker (omega (arith, small)) (omega arith)
