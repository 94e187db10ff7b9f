-- ===== src/Server/Orderly.antt =====
-- The states of the server in which at most one run or submission is under way (internal/server).
use mathlib.Core.Path.{subst}
use mathlib.Core.Bool.{false≢true}
use crobe.Common.{
  ◌≡◌, refl, sym, ap, ◌∙◌, ℕ, zero, suc, ◌+◌, ◌≤◌, Bool, true, false, not, ◌&&◌, ◌||◌, Option, none,
  some, List, [], ◌∷◌, ◌++◌, String, if◌then◌else◌, ◌==◌, Bool-cases, Option-cases, if-elim, inl,
  inr, is_empty, arith, length, eqb, ltb,
}
use crobe.Playbook.{Playbook, ReportDestinationConfig}
use crobe.Director.{
  Event, run_start, section_start, assertion_start, assertion_complete, log, run_complete,
  run_cancelled, run_error,
}
use crobe.Server.Types.{
  ExecutionSnapshot, is_busy, status_running, status_running_elevating, status_running_cancelling,
  status_completed_submitting,
}
use crobe.Server.State.{StateManager, set_load_error}
use crobe.Server.State.Methods.{
  set_playbook, unload_playbook, update_destination, new_state_manager,
}
use crobe.Server.Lifecycle.{LifecycleConfig}
use crobe.Server.Events.{EventBroker}
use crobe.Server.Handlers.{Run, Submission, Server, broadcast_state, shut_down, new_server}
use crobe.Server.Observer.{
  publish, add_log, on_run_start, on_section_start, on_assertion_start, on_assertion_complete,
  on_run_complete, on_run_cancelled, on_run_error, observe,
}
use crobe.Server.Runs.{
  validation_error, begin_run, started, cancelling, finish_setup, finish_run, end_run, without_run,
  mark_elevated, cancelled_state, completed_state, is_run_cancelled, set_report,
}
use crobe.Server.Destination.{Outside}
use crobe.Server.Requests.{Decoders, finish_load, load_state}
use crobe.Server.Handlers.{Loaded, load_ok, load_failed}
use crobe.Server.Reports.{submitting, end_submission}
use crobe.Server.Runs.{drop_at}
use crobe.Server.Steps.{Step, at, steps}
use crobe.Server.Kept.{Kept, steps-Kept}
pub mod Reachable

-- The statuses of a run.
abbrev pub is_running : String → Bool
is_running st =
    st == status_running || st == status_running_elevating || st == status_running_cancelling

pub running-is_busy : (st : String) → is_running st ≡ true → is_busy st ≡ true
unfolding is_busy
running-is_busy st h = ground arith

-- A call of the observer changes the snapshot and the broker only.
pub observe_changes :
    {R : Type 0} (run_id : String) (ev : Event) (s : Server R)
    → (sn : ExecutionSnapshot) × (b : EventBroker) × (observe run_id ev s
        ≡ record s { state = record s.state { snapshot = sn }; broker = b })
unfolding observe publish add_log on_run_start on_section_start on_assertion_start
    on_assertion_complete on_run_complete on_run_cancelled on_run_error
observe_changes run_id (run_start id pb) s = (_, _, refl)
observe_changes run_id (section_start section index total) s = (_, _, refl)
observe_changes run_id (assertion_start x index total) s = (_, _, refl)
observe_changes run_id (assertion_complete x p) s = (_, _, refl)
observe_changes run_id (log message) s = (_, _, refl)
observe_changes run_id (run_complete trace) s = (_, _, refl)
observe_changes run_id (run_cancelled id trace) s = (_, _, refl)
observe_changes run_id (run_error message) s = (_, _, refl)

pub submitting-is_busy : (st : String) → st ≡ status_completed_submitting → is_busy st ≡ true
unfolding is_busy
submitting-is_busy st h = rw h refl

pub without_own : (r : Run) (rs : List Run) → rs ≡ r ∷ [] → without_run r.number rs ≡ []
unfolding without_run
without_own r rs e = rw e (ground arith)

module _ {R : Type 0} where
  -- The run that is under way.
  pub record IsActive (sm : StateManager R) (n : ℕ) (r : Run) : Type 0 where
    pub running : is_running sm.status ≡ true
    pub number : r.number ≡ n
    pub target : sm.active_run_cancel ≡ some n
    pub run_id : sm.active_run_id ≡ r.run_id
    pub playbook : sm.playbook ≡ some r.playbook
    pub unblocked : validation_error sm.errors ≡ none

  -- Nothing, one run or one submission, and the status that goes with it.
  abbrev pub Shape : StateManager R → ℕ → List Run → List (Submission R) → Type 0
  Shape sm n [] [] = is_busy sm.status ≡ false
  Shape sm n [] (sub ∷ []) = sm.status ≡ status_completed_submitting
  Shape sm n [] (sub ∷ sub' ∷ more) = ⊥
  Shape sm n (r ∷ []) [] = IsActive sm n r
  Shape sm n (r ∷ []) (sub ∷ more) = ⊥
  Shape sm n (r ∷ r' ∷ more) subs = ⊥

  abbrev pub IsOrderly : Server R → Type 0
  IsOrderly s = Shape s.state s.run_count s.runs s.submissions

  -- While the status is not busy, nothing is under way.
  pub Shape-free :
      (sm : StateManager R) (n : ℕ) (rs : List Run) (subs : List (Submission R))
      → Shape sm n rs subs
      → is_busy sm.status ≡ false
      → (rs ≡ []) × (subs ≡ [])
  Shape-free sm n [] [] h q = (refl, refl)
  Shape-free sm n [] (sub ∷ []) h q = absurd (false≢true (sym q ∙ submitting-is_busy sm.status h))
  Shape-free sm n [] (sub ∷ sub' ∷ more) h q = absurd h
  Shape-free sm n (r ∷ []) [] h q =
      absurd (false≢true (sym q ∙ running-is_busy sm.status h.running))
  Shape-free sm n (r ∷ []) (sub ∷ more) h q = absurd h
  Shape-free sm n (r ∷ r' ∷ more) subs h q = absurd h

  -- A run or a submission that is under way is the only one.
  pub Shape-run :
      (sm : StateManager R) (n i : ℕ) (r : Run) (rs : List Run) (subs : List (Submission R))
      → Shape sm n rs subs
      → at i rs ≡ some r
      → (rs ≡ r ∷ []) × (subs ≡ []) × IsActive sm n r
  Shape-run sm n i r [] subs h e = absurd (cc)
  Shape-run sm n zero r (q ∷ []) [] h e =
      let same : q ≡ r = cc in (cc, refl, subst (IsActive sm n) same h)
  Shape-run sm n (suc i) r (q ∷ []) [] h e = absurd (cc)
  Shape-run sm n i r (q ∷ []) (sub ∷ more) h e = absurd h
  Shape-run sm n i r (q ∷ q' ∷ more) subs h e = absurd h

  pub Shape-sub :
      (sm : StateManager R) (n i : ℕ) (sub : Submission R) (rs : List Run)
      (subs : List (Submission R))
      → Shape sm n rs subs
      → at i subs ≡ some sub
      → (rs ≡ []) × (drop_at i subs ≡ [])
  Shape-sub sm n i sub rs [] h e = absurd (cc)
  Shape-sub sm n zero sub [] (x ∷ []) h e = (refl, refl)
  Shape-sub sm n (suc i) sub [] (x ∷ []) h e = absurd (cc)
  Shape-sub sm n i sub [] (x ∷ y ∷ more) h e = absurd h
  Shape-sub sm n i sub (r ∷ []) (x ∷ more) h e = absurd h
  Shape-sub sm n i sub (r ∷ r' ∷ more) (x ∷ xs) h e = absurd h

  pub free-Shape :
      (sm : StateManager R) (n : ℕ) (rs : List Run) (subs : List (Submission R))
      → rs ≡ []
      → subs ≡ []
      → is_busy sm.status ≡ false
      → Shape sm n rs subs
  free-Shape sm n rs subs e e' q = rw (e, e') q

  -- While the status is that of a run, there is one.
  pub Shape-running :
      (sm : StateManager R) (n : ℕ) (rs : List Run) (subs : List (Submission R))
      → Shape sm n rs subs
      → is_running sm.status ≡ true
      → (r : Run) × (rs ≡ r ∷ []) × (subs ≡ []) × IsActive sm n r
  Shape-running sm n [] [] h q = absurd (false≢true (sym h ∙ running-is_busy sm.status q))
  Shape-running sm n [] (sub ∷ []) h q = absurd (let q' = rw h at q in false≢true q')
  Shape-running sm n [] (sub ∷ sub' ∷ more) h q = absurd h
  Shape-running sm n (r ∷ []) [] h q = (r, refl, refl, h)
  Shape-running sm n (r ∷ []) (sub ∷ more) h q = absurd h
  Shape-running sm n (r ∷ r' ∷ more) subs h q = absurd h

  -- The snapshot does not matter.
  pub snapshot-Shape :
      (sm : StateManager R) (sn : ExecutionSnapshot) (n : ℕ) (rs : List Run)
      (subs : List (Submission R))
      → Shape sm n rs subs
      → Shape (record sm { snapshot = sn }) n rs subs
  snapshot-Shape sm sn n [] [] h = h
  snapshot-Shape sm sn n [] (sub ∷ []) h = h
  snapshot-Shape sm sn n [] (sub ∷ sub' ∷ more) h = h
  snapshot-Shape sm sn n (r ∷ []) [] h = record {
    running = h.running;
    number = h.number;
    target = h.target;
    run_id = h.run_id;
    playbook = h.playbook;
    unblocked = h.unblocked;
  }
  snapshot-Shape sm sn n (r ∷ []) (sub ∷ more) h = h
  snapshot-Shape sm sn n (r ∷ r' ∷ more) subs h = h

  pub active-Shape :
      (sm : StateManager R) (n : ℕ) (r : Run) (rs : List Run) (subs : List (Submission R))
      → rs ≡ r ∷ []
      → subs ≡ []
      → IsActive sm n r
      → Shape sm n rs subs
  active-Shape sm n r rs subs e e' a = rw (e, e') a
