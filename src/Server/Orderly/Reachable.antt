-- ===== src/Server/Orderly/Reachable.antt =====
-- At most one run or submission is under way, whatever the order of the requests (internal/server).
use mathlib.Core.Path.{subst}
use crobe.Common.{
  ◌≡◌, refl, sym, ℕ, Bool, true, false, ◌||◌, Option, none, some, List, String, if◌then◌else◌, ◌==◌,
  if-elim, arith, eqb,
}
use crobe.Playbook.Elevation.{requires_elevation}
use crobe.Playbook.{Playbook}
use crobe.Director.{Event}
use crobe.Server.Types.{
  DestinationUpdateRequest, is_busy, status_running, status_running_elevating,
  status_completed_confirming_submission, status_completed,
}
use crobe.Server.State.{StateManager, set_load_error}
use crobe.Server.State.Methods.{
  set_playbook, unload_playbook, update_destination, breaks_lock, new_state_manager,
}
use crobe.Server.Handlers.{Run, Submission, Server, broadcast_state, shut_down, new_server}
use crobe.Server.Observer.{observe}
use crobe.Server.Runs.{
  validation_error, begin_run, started, first_status, cancelling, finish_setup, finish_run, end_run,
  without_run, mark_elevated, cancelled_state, completed_state, has_https, is_run_cancelled,
  set_both,
}
use crobe.Server.Destination.{Outside}
use crobe.Server.Requests.{Decoders, finish_load, load_state}
use crobe.Server.Handlers.{Loaded, load_ok, load_failed}
use crobe.Server.Reports.{submitting, end_submission, ended}
use crobe.Server.Runs.{drop_at}
use crobe.Server.Steps.{Start, first_server, preload_state, unovertaken, Step, at, steps}
use crobe.Server.Kept.{WhereFree, Fits-unovertaken, Kept, steps-Kept}
use crobe.Server.Orderly.{
  is_running, observe_changes, IsActive, IsOrderly, Shape-free, Shape-run, Shape-sub, Shape-running,
  active-Shape, snapshot-Shape, free-Shape, without_own,
}

module _ {R : Type 0} (o : Outside) (d : Decoders)
    (write_to_folder : String → R → Option String) where
  load_is_free :
      (is_agent : Bool) (l : Loaded) (sm : StateManager R)
      → is_busy (load_state o.abs is_agent l sm).status ≡ false
  unfolding load_state set_playbook set_load_error is_busy
  load_is_free is_agent (load_ok pb raw) sm = refl
  load_is_free is_agent (load_failed code message) sm = refl

  unload_is_free :
      (sm : StateManager R)
      → is_busy sm.status ≡ false
      → is_busy (unload_playbook o.abs sm).1.status ≡ false
  unfolding unload_playbook
  unload_is_free sm q = rw (q, unload_playbook) (unfold is_busy in refl)

  update_is_free :
      (req : DestinationUpdateRequest) (sm : StateManager R)
      → is_busy sm.status ≡ false
      → is_busy (update_destination o.abs sm req).1.status ≡ false
  unfolding update_destination
  update_is_free req sm q =
      if-elim (λ (u : Option String × StateManager R). is_busy u.1.status ≡ false)
        (is_busy sm.status) _ _ (λ _. q)
        (λ _.
          if-elim (λ (u : Option String × StateManager R). is_busy u.1.status ≡ false)
            (breaks_lock o.abs sm.cli_folder req) _ _ (λ _. q) (λ _. q))

  IsOrderly-begin :
      (pb : Playbook) (stamp time : ℕ) (s : Server R)
      → s.state.playbook ≡ some pb
      → is_busy s.state.status ≡ false
      → IsOrderly s
      → IsOrderly (begin_run pb stamp time s).1
  unfolding begin_run broadcast_state started
  IsOrderly-begin pb stamp time s n q h =
      let (e, e') = Shape-free s.state s.run_count s.runs s.submissions h q in
      let runs : is_running (first_status pb) ≡ true =
        if-elim (λ st. is_running st ≡ true) (requires_elevation pb) status_running_elevating
          status_running (λ _. refl) (λ _. refl) in
      rw (e, e')
        (record {
          running = runs;
          number = refl;
          target = refl;
          run_id = refl;
          playbook = n;
          unblocked = unfold validation_error in refl;
        })

  IsOrderly-cancel :
      (s : Server R)
      → (s.state.status == status_running || s.state.status == status_running_elevating) ≡ true
      → IsOrderly s
      → IsOrderly (cancelling s)
  unfolding broadcast_state
  IsOrderly-cancel s q h =
      let (r, e, e', a) = Shape-running s.state s.run_count s.runs s.submissions h (ground arith) in
      active-Shape (cancelling s).state s.run_count r s.runs s.submissions e e' (record {
        running = refl;
        number = a.number;
        target = a.target;
        run_id = a.run_id;
        playbook = a.playbook;
        unblocked = a.unblocked;
      })

  -- The end of a run, in a state that is not busy.
  IsOrderly-end :
      (i : ℕ) (r : Run) (sm : StateManager R) (s : Server R)
      → at i s.runs ≡ some r
      → is_busy sm.status ≡ false
      → IsOrderly s
      → IsOrderly (end_run r sm s)
  unfolding end_run broadcast_state
  IsOrderly-end i r sm s n q h =
      let (e, e', a) = Shape-run s.state s.run_count i r s.runs s.submissions h n in
      free-Shape sm s.run_count (without_run r.number s.runs) s.submissions (without_own r s.runs e)
        e' q

  IsOrderly-setup :
      (i : ℕ) (r : Run) (e : Option String) (s : Server R)
      → at i s.runs ≡ some r
      → IsOrderly s
      → IsOrderly (finish_setup r e s)
  unfolding finish_setup broadcast_state mark_elevated
  IsOrderly-setup i r (some e) s n h = IsOrderly-end i r _ s n (unfold is_busy in refl) h
  IsOrderly-setup i r none s n h =
      let (e, e', a) = Shape-run s.state s.run_count i r s.runs s.submissions h n in
      let sm =
        if s.state.status == status_running_elevating
        then set_both status_running status_running s.state
        else s.state in
      let active : IsActive sm s.run_count r =
        if-elim (λ (x : StateManager R). IsActive x s.run_count r)
          (s.state.status == status_running_elevating) _ _
          (λ _. record {
            running = refl;
            number = a.number;
            target = a.target;
            run_id = a.run_id;
            playbook = a.playbook;
            unblocked = a.unblocked;
          })
          (λ _. a) in
      rw (e, e')
        (if-elim (IsActive sm s.run_count) (eqb r.number r.number)
          (record r { is_elevating = false }) r
          (λ _. record {
            running = active.running;
            number = active.number;
            target = active.target;
            run_id = active.run_id;
            playbook = active.playbook;
            unblocked = active.unblocked;
          })
          (λ _. active))

  IsOrderly-event :
      (r : Run) (ev : Event) (s : Server R) → IsOrderly s → IsOrderly (observe r.run_id ev s)
  IsOrderly-event r ev s h =
      let (sn, b, e) = observe_changes r.run_id ev s in
      subst IsOrderly (sym e) (snapshot-Shape s.state sn s.run_count s.runs s.submissions h)

  finished_is_free :
      (stopped : Bool) (pb : Playbook) (report : R) (sm : StateManager R)
      → let sm' =
          if stopped then cancelled_state sm else completed_state write_to_folder pb report sm in
        is_busy sm'.status ≡ false
  unfolding cancelled_state completed_state is_busy
  finished_is_free true pb report sm = refl
  finished_is_free false pb report sm =
      if-elim (λ st. is_busy st ≡ false) (has_https pb sm.report_destination)
        status_completed_confirming_submission status_completed (λ _. unfold is_busy in refl)
        (λ _. unfold is_busy in refl)

  IsOrderly-done :
      (i : ℕ) (r : Run) (report : R) (time : ℕ) (s : Server R)
      → at i s.runs ≡ some r
      → IsOrderly s
      → IsOrderly (finish_run write_to_folder r report time s)
  unfolding finish_run
  IsOrderly-done i r report time s n h =
      IsOrderly-end i r _ s n (finished_is_free (is_run_cancelled r s) r.playbook report _) h

  IsOrderly-sent :
      (i : ℕ) (sub : Submission R) (e : Option String) (s : Server R)
      → at i s.submissions ≡ some sub
      → IsOrderly s
      → IsOrderly (end_submission i sub e s).1
  unfolding end_submission broadcast_state
  IsOrderly-sent i sub e s n h =
      let (f, f') = Shape-sub s.state s.run_count i sub s.runs s.submissions h n in
      free-Shape _ s.run_count s.runs (drop_at i s.submissions) f f' (
        unfold is_busy in
        (elim e as (λ x. is_busy (ended x s.state).status ≡ false) [ none ↦ refl | some m ↦ refl ]))

  IsOrderly-submit :
      (sub : Submission R) (s : Server R)
      → is_busy s.state.status ≡ false
      → IsOrderly s
      → IsOrderly (submitting sub s)
  unfolding broadcast_state
  IsOrderly-submit sub s q h =
      let (e, e') = Shape-free s.state s.run_count s.runs s.submissions h q in rw (e, e') refl

  IsOrderly-idle :
      (sm : StateManager R) (s : Server R)
      → is_busy s.state.status ≡ false
      → is_busy sm.status ≡ false
      → IsOrderly s
      → IsOrderly (broadcast_state "" (record s { state = sm }))
  unfolding broadcast_state
  IsOrderly-idle sm s q q' h =
      let (e, e') = Shape-free s.state s.run_count s.runs s.submissions h q in
      free-Shape sm s.run_count s.runs s.submissions e e' q'

  IsOrderly-Kept : Kept o d write_to_folder (WhereFree o d write_to_folder) IsOrderly
  unfolding broadcast_state
  IsOrderly-Kept = record {
    asked = record {
      pend = λ l s h. h;
      call = λ i n s h. h;
      unload = λ s q h. IsOrderly-idle _ s q (unload_is_free s.state q) h;
      update = λ req s q v h. IsOrderly-idle _ s q (update_is_free req s.state q) h;
      begin = λ pb stamp time s n v q h. IsOrderly-begin pb stamp time s n q h;
      stopping = IsOrderly-cancel;
      send = λ c report s q v e h. IsOrderly-submit _ s q h;
      close = λ s h. unfold shut_down in h;
    };
    load = λ i l s q h.
        unfold finish_load in
        IsOrderly-idle (load_state o.abs true l s.state) s q (load_is_free true l s.state) h;
    setup = IsOrderly-setup;
    event = λ i r ev s n h. IsOrderly-event r ev s h;
    done = IsOrderly-done;
    sent = IsOrderly-sent;
  }

  preload_is_free :
      (is_agent : Bool) (l : Option Loaded) (sm : StateManager R)
      → is_busy sm.status ≡ false
      → is_busy (preload_state o.abs is_agent l sm).status ≡ false
  unfolding preload_state
  preload_is_free is_agent none sm q = q
  preload_is_free is_agent (some l) sm q = load_is_free is_agent l sm

  pub reachable-Orderly :
      (st : Start) (xs : List (Step R))
      → unovertaken o d write_to_folder xs (first_server o.abs st) ≡ true
      → IsOrderly (steps o d write_to_folder xs (first_server o.abs st))
  reachable-Orderly st xs calm =
      steps-Kept o d write_to_folder (WhereFree o d write_to_folder) IsOrderly IsOrderly-Kept xs
        (first_server o.abs st)
        (Fits-unovertaken o d write_to_folder xs (first_server o.abs st) calm)
        (unfold first_server new_server in
          preload_is_free st.is_agent st.preload (new_state_manager o.abs st.cli_folder st.is_ui)
            (unfold new_state_manager is_busy in refl))
