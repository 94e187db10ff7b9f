-- ===== src/Server/Live/Agrees.antt =====
-- A whole run under the requests of clients (internal/server, director/director.go).
use mathlib.Core.Path.{subst}
use mathlib.Core.Bool.{false≢true}
use crobe.Common.{
  ◌≡◌, refl, sym, ap, ◌∙◌, zero, suc, Bool, true, false, ◌||◌, Option, none, some, is_some, List,
  [], ◌∷◌, ◌++◌, map, String, Option-cases, if-elim, inl, inr, and-eq-true, all, arith,
}
use crobe.Playbook.{Exec, Assertion, Section, Playbook}
use crobe.Playbook.Validator.Spec.{all_codes, assertion_codes, Distinct}
use crobe.Executor.{Host, Context, Outcome}
use crobe.Director.{AssertionContext, Event, run_complete, run_cancelled}
use crobe.Director.Contexts.{contexts}
use crobe.Director.Outline.{names}
use crobe.Director.Run.{Machine, Flow, run_with_observer}
use crobe.Director.Protocol.{tell, status_string}
use crobe.Director.Protocol.Told.{last_event, run_Tells}
use crobe.Director.Protocol.Ordered.{assertions_of, trace_names}
use crobe.Server.Types.{AssertionSnapshot, is_busy}
use crobe.Server.Handlers.{Run, Server, broadcast_state, shut_down}
use crobe.Server.Observer.{observe}
use crobe.Server.Destination.{Outside}
use crobe.Server.Requests.{Decoders}
use crobe.Server.Steps.{
  Step, upload, remote, delete, destination, run, cancel, submit, stop, load, call, set_up,
  observed, ran, submitted, is_request, at, advance, step, steps,
}
use crobe.Server.Asked.{Asked, step-Asked}
use crobe.Server.Orderly.{is_running, running-is_busy, observe_changes}
use crobe.Server.Mirror.{shown_codes, shows}
use crobe.Server.Mirror.Mirrored.{observe-shows}
use crobe.Server.Live.{view, entry, replay, replay-told}

-- The event that the observer of the first goroutine is called with in a step, if any.
abbrev pub heard : {R : Type 0} → Step R → Option Event
heard (upload method u) = none
heard (remote method req) = none
heard (delete method) = none
heard (destination method req) = none
heard (run method stamp now) = none
heard (cancel method) = none
heard (submit method) = none
heard stop = none
heard (load i) = none
heard (call i) = none
heard (set_up i e) = none
heard (observed zero ev) = some ev
heard (observed (suc i) ev) = none
heard (ran i report now) = none
heard (submitted i e) = none

-- A step between the start and the end of the director's run, other than the loading of a playbook.
abbrev pub is_between : {R : Type 0} → Step R → Bool
is_between x = is_request x || is_some (heard x)

abbrev pub watched : {R : Type 0} → List (Step R) → List Event
watched [] = []
watched (x ∷ xs) = let rest = watched xs in elim (heard x) [ none ↦ rest | some ev ↦ ev ∷ rest ]

-- What the trace says of an assertion.
abbrev pub verdict : AssertionContext → String × String × Bool
verdict c = (c.playbook_assertion.code, status_string c.status, c.passed)

entries : (cs : List AssertionContext) → map entry (map tell cs) ≡ map verdict cs
entries [] = refl
entries (c ∷ cs) = cc (entries cs)

replay-append :
    (es fs : List Event) (views : List AssertionSnapshot)
    → replay (es ++ fs) views ≡ replay fs (replay es views)
replay-append [] fs views = refl
replay-append (e ∷ es) fs views = replay-append es fs (shows e views)

codes-append :
    (xs ys : List Assertion) → assertion_codes (xs ++ ys) ≡ assertion_codes xs ++ assertion_codes ys
codes-append [] ys = refl
codes-append (x ∷ xs) ys = cc (codes-append xs ys)

codes-assertions_of : (ss : List Section) → assertion_codes (assertions_of ss) ≡ all_codes ss
codes-assertions_of [] = refl
codes-assertions_of (s ∷ ss) =
    codes-append s.assertions (assertions_of ss)
    ∙ ap (λ cs. assertion_codes s.assertions ++ cs) (codes-assertions_of ss)

module _ {R : Type 0} (o : Outside) (d : Decoders)
    (write_to_folder : String → R → Option String) where
  -- A run is under way, and its views are these.
  pub record Watches (r : Run) (views : List AssertionSnapshot) (s : Server R) : Type 0 where
    pub running : is_running s.state.status ≡ true
    pub runs : s.runs ≡ r ∷ []
    pub shown : s.state.snapshot.assertions ≡ views

  not_free :
      {A : Type 0} (r : Run) (views : List AssertionSnapshot) (s : Server R)
      → is_busy s.state.status ≡ false
      → Watches r views s
      → A
  not_free r views s q h = absurd (false≢true (sym q ∙ running-is_busy s.state.status h.running))

  Watches-Asked :
      (r : Run) (views : List AssertionSnapshot) → Asked o d write_to_folder (Watches r views)
  unfolding broadcast_state shut_down
  Watches-Asked r views = record {
    pend = λ l s h. record { running = h.running; runs = h.runs; shown = h.shown };
    call = λ i n s h. record { running = h.running; runs = h.runs; shown = h.shown };
    unload = λ s q h. not_free r views s q h;
    update = λ req s q v h. not_free r views s q h;
    begin = λ pb stamp time s n v q h. not_free r views s q h;
    stopping = λ s q h. record { running = refl; runs = h.runs; shown = h.shown };
    send = λ c report s q v e h. not_free r views s q h;
    close = λ s h. record { running = h.running; runs = h.runs; shown = h.shown };
  }

  observe-Watches :
      (r : Run) (ev : Event) (views : List AssertionSnapshot) (s : Server R)
      → r.is_elevating ≡ false
      → Watches r views s
      → Watches r (shows ev views) (step o d write_to_folder (observed 0 ev) s)
  unfolding step advance
  observe-Watches r ev views s q h =
      let (sn, b, e) = observe_changes r.run_id ev s in
      let out : Watches r (shows ev views) (observe r.run_id ev s) = record {
        running = subst (λ (y : Server R). is_running y.state.status ≡ true) (sym e) h.running;
        runs = subst (λ (y : Server R). y.runs ≡ r ∷ []) (sym e) h.runs;
        shown = observe-shows r.run_id ev s ∙ ap (shows ev) h.shown;
      } in
      let first : at 0 s.runs ≡ some r = ap (at 0) h.runs in
      rw first (
        if-elim (Watches r (shows ev views)) r.is_elevating s (observe r.run_id ev s)
          (λ q'. absurd (false≢true (sym q ∙ q'))) (λ _. out))

  heard-Watches :
      (r : Run) (x : Step R) (ev : Event) (views : List AssertionSnapshot) (s : Server R)
      → r.is_elevating ≡ false
      → heard x ≡ some ev
      → Watches r views s
      → Watches r (shows ev views) (step o d write_to_folder x s)
  heard-Watches r (upload method u) ev views s q e h = absurd (cc)
  heard-Watches r (remote method req) ev views s q e h = absurd (cc)
  heard-Watches r (delete method) ev views s q e h = absurd (cc)
  heard-Watches r (destination method req) ev views s q e h = absurd (cc)
  heard-Watches r (run method stamp time) ev views s q e h = absurd (cc)
  heard-Watches r (cancel method) ev views s q e h = absurd (cc)
  heard-Watches r (submit method) ev views s q e h = absurd (cc)
  heard-Watches r stop ev views s q e h = absurd (cc)
  heard-Watches r (load i) ev views s q e h = absurd (cc)
  heard-Watches r (call i) ev views s q e h = absurd (cc)
  heard-Watches r (set_up i x) ev views s q e h = absurd (cc)
  heard-Watches r (observed zero ev') ev views s q e h =
      let same : ev' ≡ ev = cc in
      subst (λ y. Watches r (shows y views) (step o d write_to_folder (observed 0 ev') s)) same
        (observe-Watches r ev' views s q h)
  heard-Watches r (observed (suc i) ev') ev views s q e h = absurd (cc)
  heard-Watches r (ran i report time) ev views s q e h = absurd (cc)
  heard-Watches r (submitted i x) ev views s q e h = absurd (cc)

  -- What is watched is replayed, whatever is asked meanwhile.
  pub steps-Watches :
      (r : Run) (ys : List (Step R)) (views : List AssertionSnapshot) (s : Server R)
      → r.is_elevating ≡ false
      → all is_between ys ≡ true
      → Watches r views s
      → Watches r (replay (watched ys) views) (steps o d write_to_folder ys s)
  unfolding steps
  steps-Watches r [] views s q b h = h
  steps-Watches r (x ∷ ys) views s q b h =
      let (now, later) = and-eq-true (is_between x) (all is_between ys) b in
      elim (Option-cases (heard x)) [
        | inr (ev, e) ↦
            rw (e, watched)
              (steps-Watches r ys (shows ev views) (step o d write_to_folder x s) q later
                (heard-Watches r x ev views s q e h))
        | inl e ↦
            let now' = rw e at now in
            let asks : is_request x ≡ true = ground arith in
            rw (e, watched)
              (steps-Watches r ys views (step o d write_to_folder x s) q later (
                step-Asked o d write_to_folder (Watches r views) (Watches-Asked r views) x s asks
                  h))
      ]

  -- The last event of a run changes no view.
  last_shows :
      (h : Host) (run_exec : Exec → Context → h.World → Outcome h.World) (config : Playbook)
      (run_id : String) (fl : Flow h.World) (views : List AssertionSnapshot)
      → shows (last_event h run_exec config run_id fl) views ≡ views
  last_shows h run_exec config run_id fl views =
      if-elim (λ ev. shows ev views ≡ views) fl.returned (run_cancelled run_id fl.trace)
        (run_complete fl.trace) (λ _. refl) (λ _. refl)

  -- The events of a run, replayed on views of the playbook's assertions.
  pub replay-run :
      (h : Host) (run_exec : Exec → Context → h.World → Outcome h.World) (config : Playbook)
      (run_id : String) (m : Machine) (w : h.World) (views : List AssertionSnapshot)
      → shown_codes views ≡ all_codes config.sections
      → Distinct (all_codes config.sections)
      → let fl = run_with_observer h run_exec config run_id m w in
        map view (replay fl.events views) ≡ map verdict (contexts fl.trace.sections)
  replay-run h run_exec config run_id m w views c dis =
      let fl = run_with_observer h run_exec config run_id m w in
      let cs = contexts fl.trace.sections in
      let (front, e, (t, n, f)) = run_Tells h run_exec config run_id m w in
      let last = last_event h run_exec config run_id fl in
      let codes : assertion_codes (names cs) ≡ all_codes config.sections =
        ap assertion_codes (trace_names h run_exec config run_id m w)
        ∙ codes-assertions_of config.sections in
      ap (λ es. map view (replay es views)) e
      ∙ ap (map view) (
          replay-append front (last ∷ []) views
          ∙ last_shows h run_exec config run_id fl (replay front views))
      ∙ replay-told front (names cs) views f (c ∙ sym codes) (subst Distinct (sym codes) dis)
      ∙ sym (ap (map entry) t)
      ∙ entries cs
