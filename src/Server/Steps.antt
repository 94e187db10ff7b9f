-- ===== src/Server/Steps.antt =====
-- The server as a machine (internal/server): the requests that change it, in any order, and what the
-- goroutines of the runs and the submissions do meanwhile.
use crobe.Common.{
  Bool, true, false, ℕ, zero, suc, Option, none, some, List, [], ◌∷◌, ◌++◌, ◌⊎◌, inl, inr, not,
  ◌&&◌, ◌||◌, String, if◌then◌else◌,
}
use crobe.Common.Result.{Result}
use crobe.Director.{Event}
use crobe.Server.Types.{DestinationUpdateRequest}
use crobe.Server.State.{StateManager, can_mutate}
use crobe.Server.State.Methods.{new_state_manager}
use crobe.Server.Lifecycle.{LifecycleConfig}
use crobe.Server.Handlers.{Run, Server, Submission, Loaded, Response, shut_down, new_server}
use crobe.Server.Observer.{observe}
use crobe.Server.Runs.{drop_at, handle_run, handle_cancel, call_cancel, finish_setup, finish_run}
use crobe.Server.Destination.{Outside}
use crobe.Server.Requests.{
  Upload, RemotePlaybookRequest, Decoders, begin_upload, begin_remote, finish_load, load_state,
  handle_playbook_delete, handle_report_destination_put,
}
use crobe.Server.Reports.{begin_submission, end_submission}

-- A request with its method; the loading of what a handler has read, or the call of a cancel function that one
-- has taken, told by its place; or the next event of a goroutine: the end of its `SetupElevation`, a call
-- of its observer, or the end of the director's run with the report and the time; or the end of a
-- submission. A goroutine and a submission are told by their place. Requests that change nothing are
-- left out.
pub data Step (R : Type 0) : Type 0 where
  upload : String → Upload → Step R
  remote : String → Result RemotePlaybookRequest → Step R
  delete : String → Step R
  destination : String → Result DestinationUpdateRequest → Step R
  run : String → ℕ → ℕ → Step R
  cancel submit : String → Step R
  stop : Step R
  load : ℕ → Step R
  call : ℕ → Step R
  set_up : ℕ → Option String → Step R
  observed : ℕ → Event → Step R
  ran : ℕ → R → ℕ → Step R
  submitted : ℕ → Option String → Step R

-- Whether a step is that of a handler, other than the loading of what it has read.
abbrev pub is_request : {R : Type 0} → Step R → Bool
is_request (upload method u) = true
is_request (remote method req) = true
is_request (delete method) = true
is_request (destination method req) = true
is_request (run method stamp now) = true
is_request (cancel method) = true
is_request (submit method) = true
is_request stop = true
is_request (load i) = false
is_request (call i) = true
is_request (set_up i e) = false
is_request (observed i ev) = false
is_request (ran i report now) = false
is_request (submitted i e) = false

abbrev pub is_load : {R : Type 0} → Step R → Bool
is_load (load i) = true
is_load _ = false

abbrev pub at {ℓ} : {A : Type ℓ} → ℕ → List A → Option A
at n [] = none
at zero (x ∷ xs) = some x
at (suc n) (x ∷ xs) = at n xs

module _ {R : Type 0} (o : Outside) (d : Decoders)
    (write_to_folder : String → R → Option String) where
  -- What a goroutine does; one that is not there does nothing.
  unfoldable pub advance : Option Run → (Run → Server R) → (Run → Server R) → Server R → Server R
  advance none elevating executing s = s
  advance (some r) elevating executing s = if r.is_elevating then elevating r else executing r

  unfoldable pub finish_submission : ℕ → Option (Submission R) → Option String → Server R → Server R
  finish_submission i none e s = s
  finish_submission i (some sub) e s = (end_submission i sub e s).1

  -- The first half of a handler that loads a playbook.
  unfoldable pub begin_load : Response ⊎ Loaded → Server R → Server R
  begin_load (inl answer) s = s
  begin_load (inr l) s = record s { loads = s.loads ++ l ∷ [] }

  unfoldable pub load_next : ℕ → Option Loaded → Server R → Server R
  load_next i none s = s
  load_next i (some l) s = (finish_load o.abs l (record s { loads = drop_at i s.loads })).1

  unfoldable pub step : Step R → Server R → Server R
  step (upload method u) s = begin_load (begin_upload d method u s) s
  step (remote method req) s = begin_load (begin_remote d method req s) s
  step (delete method) s = (handle_playbook_delete o.abs method s).1
  step (destination method req) s = (handle_report_destination_put o method req s).1
  step (run method stamp now) s = (handle_run method stamp now s).1
  step (cancel method) s = (handle_cancel method s).1
  step (submit method) s = (begin_submission method s).1
  step stop s = shut_down s
  step (load i) s = load_next i (at i s.loads) s
  step (call i) s = call_cancel i (at i s.cancels) s
  step (set_up i e) s = advance (at i s.runs) (λ r. finish_setup r e s) (λ r. s) s
  step (observed i ev) s = advance (at i s.runs) (λ r. s) (λ r. observe r.run_id ev s) s
  step (ran i report now) s =
      advance (at i s.runs) (λ r. s) (λ r. finish_run write_to_folder r report now s) s
  step (submitted i e) s = finish_submission i (at i s.submissions) e s

  unfoldable pub steps : List (Step R) → Server R → Server R
  steps [] s = s
  steps (x ∷ xs) s = steps xs (step x s)

  -- Whether no run or submission is accepted between the test of `CanMutate` by a handler that loads a
  -- playbook and its loading: whenever one loads, nothing is under way.
  unfoldable pub unovertaken : List (Step R) → Server R → Bool
  unovertaken [] s = true
  unovertaken (x ∷ xs) s =
      let rest = unovertaken xs (step x s) in (not (is_load x) || can_mutate s.state) && rest

-- How the server is started: the flags, and what the command line has loaded before, which it validates
-- for the agent or for the builder.
pub record Start : Type 0 where
  pub cli_folder : String
  pub is_ui : Bool
  pub cfg : LifecycleConfig
  pub is_agent : Bool
  pub preload : Option Loaded

unfoldable pub preload_state :
    {R : Type 0} → (String → Option String) → Bool → Option Loaded → StateManager R → StateManager R
preload_state abs is_agent none sm = sm
preload_state abs is_agent (some l) sm = load_state abs is_agent l sm

unfoldable pub first_server : {R : Type 0} → (String → Option String) → Start → Server R
first_server abs st =
    new_server
      (preload_state abs st.is_agent st.preload (new_state_manager abs st.cli_folder st.is_ui))
      st.cfg
