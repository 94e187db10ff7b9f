-- ===== src/Server/Overtaken.antt =====
-- An upload that a run overtakes (internal/server/handlers_playbook.go, handlers_execution.go): the handler
-- asks `CanMutate` first, and calls `SetPlaybook` when it has read and parsed the file.
use crobe.Common.{
  false, if-elim, ◌+◌, length-append, ◌≡◌, refl, ℕ, true, false, none, some, Option, [], String,
  length, not, ap, ◌∙◌,
}
use crobe.Playbook.{Playbook}
use crobe.Playbook.Elevation.{requires_elevation}
use crobe.Playbook.Validator.{validate}
use crobe.Server.Types.{is_busy, status_running, status_running_elevating}
use crobe.Server.State.{can_mutate, validation_errors}
use crobe.Server.State.Methods.{set_playbook}
use crobe.Server.Handlers.{Server, broadcast_state}
use crobe.Server.Runs.{validation_error, handle_run, begin_run, started}
use crobe.Server.Requests.{finish_load, load_state}
use crobe.Server.Handlers.{load_ok}

module _ {R : Type 0} (abs : String → Option String) where
  -- A run that is accepted.
  run_accepted :
      (stamp time : ℕ) (s : Server R) (pb : Playbook)
      → s.state.playbook ≡ some pb
      → validation_error s.state.errors ≡ none
      → is_busy s.state.status ≡ false
      → (handle_run "POST" stamp time s).1 ≡ (begin_run pb stamp time s).1
  unfolding handle_run
  run_accepted stamp time s pb p v q = simp (p, v, q)

  -- What the second half of an upload leaves.
  loaded_accepted :
      (stamp time : ℕ) (pb : Playbook) (raw : String) (s : Server R)
      → validate pb true ≡ []
      → let s' = (finish_load abs (load_ok pb raw) s).1 in
        (handle_run "POST" stamp time s').1 ≡ (begin_run pb stamp time s').1
  unfolding finish_load broadcast_state load_state set_playbook
  loaded_accepted stamp time pb raw s v =
      run_accepted stamp time (finish_load abs (load_ok pb raw) s).1 pb refl
        (ap (λ es. validation_error (validation_errors es)) v ∙ unfold validation_error in refl)
        (unfold is_busy in refl)

  loaded_runs :
      (pb : Playbook) (raw : String) (s : Server R)
      → (finish_load abs (load_ok pb raw) s).1.runs ≡ s.runs
  unfolding finish_load broadcast_state
  loaded_runs pb raw s = refl

  begun_runs :
      (pb : Playbook) (stamp time : ℕ) (s : Server R)
      → length (begin_run pb stamp time s).1.runs ≡ length s.runs + 1
  unfolding begin_run broadcast_state
  begun_runs pb stamp time s = length-append s.runs _

  begun_busy :
      (pb : Playbook) (stamp time : ℕ) (s : Server R)
      → can_mutate (begin_run pb stamp time s).1.state ≡ false
  unfolding begin_run broadcast_state started can_mutate is_busy
  begun_busy pb stamp time s =
      if-elim (λ st. not (is_busy st) ≡ false) (requires_elevation pb) status_running_elevating
        status_running (λ _. refl) (λ _. refl)

  -- In a state where nothing is under way and a valid playbook is loaded, an upload passes its test. If a
  -- run is accepted before the upload has loaded its playbook, which is valid too, then the upload is
  -- not refused any more, and a second run is accepted after it, so that two goroutines run
  -- playbooks at once.
  pub upload_overtaken :
      (s : Server R) (pb pb' : Playbook) (raw : String) (stamp stamp' time time' : ℕ)
      → s.runs ≡ []
      → s.state.playbook ≡ some pb
      → validation_error s.state.errors ≡ none
      → is_busy s.state.status ≡ false
      → validate pb' true ≡ []
      → let running = (handle_run "POST" stamp time s).1 in
        let loaded = (finish_load abs (load_ok pb' raw) running).1 in
        (can_mutate s.state ≡ true)
        × (can_mutate running.state ≡ false)
        × (length (handle_run "POST" stamp' time' loaded).1.runs ≡ 2)
  upload_overtaken s pb pb' raw stamp stamp' time time' e p v q v' =
      let running = (handle_run "POST" stamp time s).1 in
      let first : length running.runs ≡ 1 =
        ap (λ (x : Server R). length x.runs) (run_accepted stamp time s pb p v q)
        ∙ begun_runs pb stamp time s
        ∙ ap (λ rs. length rs + 1) e in
      (
        unfold can_mutate in ap not q,
        ap (λ (x : Server R). can_mutate x.state) (run_accepted stamp time s pb p v q)
            ∙ begun_busy pb stamp time s,
        ap (λ (x : Server R). length x.runs) (loaded_accepted stamp' time' pb' raw running v')
            ∙ begun_runs pb' stamp' time' (finish_load abs (load_ok pb' raw) running).1
            ∙ ap (λ rs. length rs + 1) (loaded_runs pb' raw running)
            ∙ ap (λ n. n + 1) first,
      )
