-- ===== src/Server/Asked.antt =====
-- A rule for what the requests of the server keep (internal/server): it is kept by the changes that the
-- handlers make, each under the conditions that the handler has tested.
use mathlib.Core.Bool.{false≢true}
use crobe.Common.{
  arith, ◌≡◌, ℕ, true, false, not, ◌&&◌, ◌||◌, Option, none, some, [], ◌∷◌, String, ◌==◌,
  Bool-cases, Option-cases, if-elim, ◌⊎◌, ◌++◌, inl, inr, is_empty,
}
use crobe.Common.Result.{Result, ok, err}
use crobe.Playbook.{Playbook, ReportDestinationConfig}
use crobe.Server.Types.{
  DestinationUpdateRequest, is_busy, status_running, status_running_elevating,
  status_running_cancelling,
}
use crobe.Server.State.{StateManager, can_mutate}
use crobe.Server.State.Methods.{unload_playbook, update_destination, breaks_lock}
use crobe.Server.Handlers.{Server, Response, broadcast_state, shut_down}
use crobe.Server.Runs.{
  validation_error, begin_run, handle_run, cancelling, handle_cancel, drop_at, call_cancel,
}
use crobe.Server.Destination.{Outside, validate_update}
use crobe.Server.Requests.{
  Decoders, updated, begin_upload, begin_remote, handle_playbook_delete,
  handle_report_destination_put,
}
use crobe.Server.Handlers.{Loaded}
use crobe.Server.Reports.{valid_report, https_config, submitting, begin_submission}
use crobe.Server.Steps.{
  load, call, begin_load, Step, upload, remote, delete, destination, run, cancel, submit, stop,
  set_up, observed, ran, submitted, is_request, at, step,
}

module _ {R : Type 0} (o : Outside) (d : Decoders)
    (write_to_folder : String → R → Option String) where
  -- By the requests.
  pub record Asked (P : Server R → Type 0) : Type 0 where
    pub pend : (l : Loaded) (s : Server R) → P s → P (record s { loads = s.loads ++ l ∷ [] })
    pub call :
        (i n : ℕ) (s : Server R)
        → P s
        → P (record s { cancels = drop_at i s.cancels; cancelled_runs = n ∷ s.cancelled_runs })
    pub unload :
        (s : Server R)
        → is_busy s.state.status ≡ false
        → P s
        → P (broadcast_state "" (record s { state = (unload_playbook o.abs s.state).1 }))
    pub update :
        (req : DestinationUpdateRequest) (s : Server R)
        → is_busy s.state.status ≡ false
        → validate_update o req ≡ none
        → P s
        → P (broadcast_state "" (record s { state = (update_destination o.abs s.state req).1 }))
    pub begin :
        (pb : Playbook) (stamp time : ℕ) (s : Server R)
        → s.state.playbook ≡ some pb
        → validation_error s.state.errors ≡ none
        → is_busy s.state.status ≡ false
        → P s
        → P (begin_run pb stamp time s).1
    pub stopping :
        (s : Server R)
        → (s.state.status == status_running || s.state.status == status_running_elevating) ≡ true
        → P s
        → P (cancelling s)
    pub send :
        (c : ReportDestinationConfig) (report : R) (s : Server R)
        → is_busy s.state.status ≡ false
        → valid_report s.state ≡ some report
        → https_config s.state ≡ some c
        → P s
        → P (submitting (record { config = c; report = report; run_id = s.state.active_run_id }) s)
    pub close : (s : Server R) → P s → P (shut_down s)

  module _ (P : Server R → Type 0) (k : Asked P) where
    abbrev Answers : {A : Type 0} → A × Server R → Type 0
    Answers out = P out.1

    begins :
        (answer : Response ⊎ Loaded) (s : Server R)
        → P s
        → P (begin_load o d write_to_folder answer s)
    unfolding begin_load
    begins (inl answer) s p = p
    begins (inr l) s p = k.pend l s p

    calls : (i : ℕ) (target : Option ℕ) (s : Server R) → P s → P (call_cancel i target s)
    unfolding call_cancel
    calls i none s p = p
    calls i (some n) s p = k.call i n s p

    unload_free :
        (sm : StateManager R) → (unload_playbook o.abs sm).0 ≡ none → is_busy sm.status ≡ false
    unfolding unload_playbook
    unload_free sm h = elim (Bool-cases (is_busy sm.status)) [
      | inl q ↦ let h' = rw q at h in absurd (cc)
      | inr q ↦ q
    ]

    deletes : (method : String) (s : Server R) → P s → P (handle_playbook_delete o.abs method s).1
    unfolding handle_playbook_delete
    deletes method s p =
        if-elim Answers (not (method == "DELETE")) _ _ (λ e. p)
          (λ e. elim (Option-cases (unload_playbook o.abs s.state).0) [
            | inl n ↦ rw n (k.unload s (unload_free s.state n) p)
            | inr (x, n) ↦ rw n p
          ])

    update-Answers :
        (req : DestinationUpdateRequest) (s : Server R)
        → is_busy s.state.status ≡ false
        → validate_update o req ≡ none
        → P s
        → Answers (updated (update_destination o.abs s.state req) s)
    unfolding update_destination
    update-Answers req s q v p =
        let kept = k.update req s q v p in
        elim (Bool-cases (breaks_lock o.abs s.state.cli_folder req)) [
          | inl e ↦ rw (q, e) p
          | inr e ↦ rw (q, e) (rw (q, e) at kept)
        ]

    updates :
        (method : String) (req : Result DestinationUpdateRequest) (s : Server R)
        → P s
        → P (handle_report_destination_put o method req s).1
    unfolding handle_report_destination_put can_mutate
    updates method (err e) s p =
        if-elim Answers (not (method == "PUT")) _ _ (λ q. p)
          (λ q. if-elim Answers (not (not (is_busy s.state.status))) _ _ (λ q'. p) (λ q'. p))
    updates method (ok req) s p =
        if-elim Answers (not (method == "PUT")) _ _ (λ q. p)
          (λ q. elim (Bool-cases (is_busy s.state.status)) [
            | inl b ↦ rw b p
            | inr b ↦ elim (Option-cases (validate_update o req)) [
              | inl v ↦ rw (b, v) (update-Answers req s b v p)
              | inr (e, v) ↦ rw (b, v) p
            ]
          ])

    runs :
        (method : String) (stamp time : ℕ) (s : Server R)
        → P s
        → P (handle_run method stamp time s).1
    unfolding handle_run
    runs method stamp time s p =
        if-elim Answers (not (method == "POST")) _ _ (λ e. p)
          (λ e. elim (Option-cases s.state.playbook) [
            | inl n ↦ rw n p
            | inr (pb, n) ↦ elim (Option-cases (validation_error s.state.errors)) [
              | inr (x, v) ↦ rw (n, v) p
              | inl v ↦
                  rw (n, v)
                    (if-elim Answers (is_busy s.state.status) _ _ (λ q. p)
                      (λ q. k.begin pb stamp time s n v q p))
            ]
          ])

    cancels : (method : String) (s : Server R) → P s → P (handle_cancel method s).1
    unfolding handle_cancel
    cancels method s p =
        let st = s.state.status in
        if-elim Answers (not (method == "POST")) _ _ (λ e. p)
          (λ e.
            if-elim Answers
              (not (st == status_running)
                && (not (st == status_running_elevating) && not (st == status_running_cancelling)))
              _ _ (λ q. p)
              (λ q.
                if-elim Answers (st == status_running_cancelling) _ _ (λ q'. p)
                  (λ q'. k.stopping s (ground arith) p)))

    submits : (method : String) (s : Server R) → P s → P (begin_submission method s).1
    unfolding begin_submission
    submits method s p =
        if-elim Answers (not (method == "POST")) _ _ (λ e. p)
          (λ e.
            if-elim Answers (is_busy s.state.status) _ _ (λ q. p)
              (λ q. elim (Option-cases (valid_report s.state)) [
                | inl v ↦ rw v p
                | inr (report, v) ↦ elim (Option-cases (https_config s.state)) [
                  | inl c ↦ rw (v, c) p
                  | inr (c, e') ↦
                      rw (v, e')
                        (elim (Bool-cases (is_empty c.url)) [
                          | inl b ↦ rw b p
                          | inr b ↦ rw b (k.send c report s q v e' p)
                        ])
                ]
              ]))

    pub step-Asked :
        (x : Step R) (s : Server R) → is_request x ≡ true → P s → P (step o d write_to_folder x s)
    unfolding step
    step-Asked (upload method u) s r p = begins (begin_upload d method u s) s p
    step-Asked (remote method req) s r p = begins (begin_remote d method req s) s p
    step-Asked (delete method) s r p = deletes method s p
    step-Asked (destination method req) s r p = updates method req s p
    step-Asked (run method stamp time) s r p = runs method stamp time s p
    step-Asked (cancel method) s r p = cancels method s p
    step-Asked (submit method) s r p = submits method s p
    step-Asked stop s r p = k.close s p
    step-Asked (load i) s r p = absurd (false≢true r)
    step-Asked (call i) s r p = calls i (at i s.cancels) s p
    step-Asked (set_up i e) s r p = absurd (false≢true r)
    step-Asked (observed i ev) s r p = absurd (false≢true r)
    step-Asked (ran i report time) s r p = absurd (false≢true r)
    step-Asked (submitted i e) s r p = absurd (false≢true r)
