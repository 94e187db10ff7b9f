-- ===== src/Server/Destination/Guarded.antt =====
-- The endpoint that is in force (internal/server), in every state that the server can reach.
use mathlib.Core.Path.{subst}
use mathlib.Core.Bool.{false≢true}
use crobe.Common.{
  ◌≡◌, refl, sym, ◌∙◌, Bool, true, false, not, Option, none, some, List, String, if◌then◌else◌,
  ◌==◌, is_empty, Option-cases, if-elim, inl, inr, eq_iff,
}
use crobe.Playbook.{Playbook, destination_https}
use crobe.Server.Types.{
  HttpsDestinationConfig, ReportDestinationState, DestinationUpdateRequest, is_busy,
  https_source_custom, https_source_playbook, https_source_off, folder_source_off,
  status_running_elevating,
}
use crobe.Server.State.{StateManager, set_load_error}
use crobe.Server.State.Methods.{
  set_playbook, unload_playbook, update_destination, apply_update, breaks_lock, new_state_manager,
  playbook_destination, folder_destination, first_destination,
}
use crobe.Server.Handlers.{Run, Server, broadcast_state, shut_down, new_server}
use crobe.Server.Orderly.{observe_changes}
use crobe.Server.Runs.{
  begin_run, started, finish_setup, finish_run, end_run, cancelled_state, completed_state,
  save_report, set_report, is_run_cancelled,
}
use crobe.Server.Requests.{Decoders, finish_load, load_state}
use crobe.Server.Handlers.{Loaded, load_ok, load_failed}
use crobe.Server.Reports.{end_submission, ended}
use crobe.Server.Steps.{Start, first_server, preload_state, Step}
use crobe.Server.Kept.{Anywhere, Fits-Anywhere, Kept, steps-Kept}
use crobe.Server.Exclusive.{reached}
use crobe.Server.Destination.{Outside, validate_update, validate_given, validate_https, check_https}
use crobe.Server.Destination.Accepted.{IsEndpoint, validate_https_iff, or_error-eq-none}

module _ (o : Outside) where
  -- A custom endpoint that is in force has been accepted.
  abbrev pub IsAccepted : Option HttpsDestinationConfig → Type 0
  IsAccepted none = ⊥
  IsAccepted (some c) = IsEndpoint o c

  abbrev pub IsGuarded : ReportDestinationState → Type 0
  IsGuarded d = d.https_source ≡ https_source_custom → IsAccepted d.https

  given-Accepted :
      (c : Option HttpsDestinationConfig) (absent : String)
      → validate_given o c (some absent) ≡ none
      → IsAccepted c
  given-Accepted none absent h = absurd (cc)
  given-Accepted (some c) absent h = (validate_https_iff o c).0 h

  -- Another source than a custom one.
  other-Guarded :
      (d : ReportDestinationState) (source : String)
      → (source == https_source_custom) ≡ false
      → IsGuarded (record d { https_source = source })
  other-Guarded d source q e = absurd (false≢true (sym q ∙ (eq_iff source https_source_custom).1 e))

  playbook-Guarded :
      (is_ui : Bool) (cli_folder : String) (pb : Playbook) (d : ReportDestinationState)
      → IsGuarded (playbook_destination o.abs is_ui cli_folder pb d)
  unfolding playbook_destination
  playbook-Guarded is_ui cli_folder pb d =
      let by_folder = folder_destination o.abs cli_folder pb d in
      let by_https = pb.report_destination == destination_https in
      let named = record d { folder_source = folder_source_off } in
      if-elim IsGuarded is_ui _ _
        (λ _.
          other-Guarded by_folder (if by_https then https_source_playbook else https_source_off) (
            if-elim (λ s. (s == https_source_custom) ≡ false) by_https _ _ (λ _. refl) (λ _. refl)))
        (λ _.
          if-elim IsGuarded (not (is_empty cli_folder)) _ _
            (λ _. other-Guarded by_folder https_source_off refl)
            (λ _.
              if-elim IsGuarded by_https _ _ (λ _. other-Guarded named https_source_playbook refl)
                (λ _. other-Guarded by_folder https_source_off refl)))

  -- The source and the endpoint after an update.
  chosen-Guarded :
      (source : Option String) (https : Option HttpsDestinationConfig) (d : ReportDestinationState)
      → check_https o source https ≡ none
      → IsGuarded d
      → elim source [ none ↦ d.https_source | some s ↦ s ] ≡ https_source_custom
      → IsAccepted (elim https [ none ↦ d.https | some c ↦ some c ])
  unfolding check_https
  chosen-Guarded none none d h g e = g e
  chosen-Guarded none (some c) d h g e = (validate_https_iff o c).0 h
  chosen-Guarded (some s) https d h g e =
      let custom = (eq_iff s https_source_custom).1 e in
      let needed : String = "https configuration is required when https_source is 'custom'" in
      let (_, h') =
        or_error-eq-none _
          (if s == https_source_custom then validate_given o https (some needed) else none) h in
      let accepted = given-Accepted https needed (rw custom at h') in
      elim (Option-cases https) [
        | inl n ↦ absurd (subst IsAccepted n accepted)
        | inr (c, n) ↦ rw n (subst IsAccepted n accepted)
      ]

  update-Guarded :
      (req : DestinationUpdateRequest) (d : ReportDestinationState)
      → validate_update o req ≡ none
      → IsGuarded d
      → IsGuarded (apply_update o.abs req d)
  unfolding validate_update apply_update
  update-Guarded req d h g e =
      let (_, h') = or_error-eq-none _ _ h in
      let (_, h'') = or_error-eq-none _ _ h' in chosen-Guarded req.https_source req.https d h'' g e

module _ {R : Type 0} (o : Outside) (d : Decoders)
    (write_to_folder : String → R → Option String) where
  abbrev Guards : Server R → Type 0
  Guards s = IsGuarded o s.state.report_destination

  abbrev GuardsAnswer : Option String × StateManager R → Type 0
  GuardsAnswer u = IsGuarded o u.1.report_destination

  load-Guards :
      (is_agent : Bool) (l : Loaded) (sm : StateManager R)
      → IsGuarded o sm.report_destination
      → IsGuarded o (load_state o.abs is_agent l sm).report_destination
  unfolding load_state set_playbook set_load_error
  load-Guards is_agent (load_ok pb raw) sm g = playbook-Guarded o sm.is_ui sm.cli_folder pb _
  load-Guards is_agent (load_failed code message) sm g = g

  preload-Guards :
      (is_agent : Bool) (l : Option Loaded) (sm : StateManager R)
      → IsGuarded o sm.report_destination
      → IsGuarded o (preload_state o.abs is_agent l sm).report_destination
  unfolding preload_state
  preload-Guards is_agent none sm g = g
  preload-Guards is_agent (some l) sm g = load-Guards is_agent l sm g

  unload-Guards :
      (sm : StateManager R)
      → IsGuarded o sm.report_destination
      → IsGuarded o (unload_playbook o.abs sm).1.report_destination
  unfolding unload_playbook first_destination
  unload-Guards sm g =
      if-elim (λ (u : Option String × StateManager R). IsGuarded o u.1.report_destination)
        (is_busy sm.status) _ _ (λ _. g)
        (λ _. other-Guarded o (first_destination o.abs sm.cli_folder) https_source_off refl)

  update-Guards :
      (req : DestinationUpdateRequest) (sm : StateManager R)
      → validate_update o req ≡ none
      → IsGuarded o sm.report_destination
      → IsGuarded o (update_destination o.abs sm req).1.report_destination
  unfolding update_destination
  update-Guards req sm v g =
      if-elim GuardsAnswer (is_busy sm.status) _ _ (λ _. g)
        (λ _.
          if-elim GuardsAnswer (breaks_lock o.abs sm.cli_folder req) _ _ (λ _. g)
            (λ _. update-Guarded o req sm.report_destination v g))

  -- What a run that ends does to the destination: nothing.
  finished_same :
      (stopped : Bool) (pb : Playbook) (report : R) (sm : StateManager R)
      → let sm' =
          if stopped then cancelled_state sm else completed_state write_to_folder pb report sm in
        sm'.report_destination ≡ sm.report_destination
  unfolding cancelled_state completed_state save_report
  finished_same true pb report sm = refl
  finished_same false pb report sm =
      let e =
        write_to_folder
          (if is_empty sm.report_destination.folder
            then "reports"
            else sm.report_destination.folder)
          report in
      if-elim (λ (x : StateManager R). x.report_destination ≡ sm.report_destination)
        (sm.report_destination.folder_source == folder_source_off) sm _ (λ _. refl)
        (λ _. elim (Option-cases e) [ inl n ↦ rw n refl | inr (m, n) ↦ rw n refl ])

  setup-Guards :
      (r : Run) (e : Option String) (s : Server R) → Guards s → Guards (finish_setup r e s)
  unfolding finish_setup broadcast_state end_run
  setup-Guards r (some e) s g = g
  setup-Guards r none s g =
      if-elim (λ (x : StateManager R). IsGuarded o x.report_destination)
        (s.state.status == status_running_elevating) _ _ (λ _. g) (λ _. g)

  Guards-Kept : Kept o d write_to_folder (Anywhere o d write_to_folder) Guards
  unfolding broadcast_state end_run finish_load end_submission finish_run shut_down begin_run
      started finish_setup
  Guards-Kept = record {
    asked = record {
      pend = λ l s g. g;
      call = λ i n s g. g;
      unload = λ s q g. unload-Guards s.state g;
      update = λ req s q v g. update-Guards req s.state v g;
      begin = λ pb stamp time s n v q g. g;
      stopping = λ s q g. g;
      send = λ c report s q v e g. g;
      close = λ s g. g;
    };
    load = λ i l s q g. load-Guards true l s.state g;
    setup = λ i r e s n g. setup-Guards r e s g;
    event =
        λ i r ev s n g. let (sn, b, e) = observe_changes r.run_id ev s in subst Guards (sym e) g;
    done = λ i r report time s n g.
        subst (IsGuarded o)
          (sym
            (finished_same (is_run_cancelled r s) r.playbook report (set_report report _ s.state)))
          g;
    sent = λ i sub e s n g. elim e as (λ x. IsGuarded o (ended x s.state).report_destination) [
      | none ↦ g
      | some m ↦ g
    ];
  }

  -- In every state that the server can reach, a custom endpoint that is in force is one that `Validate`
  -- accepts, although a request that names another source may store an endpoint that is not checked: it
  -- is never taken for the custom one.
  pub custom-IsEndpoint :
      (st : Start) (xs : List (Step R))
      → (reached o d write_to_folder st xs).state.report_destination.https_source
        ≡ https_source_custom
      → (c : HttpsDestinationConfig) × ((reached o d write_to_folder st
            xs).state.report_destination.https
          ≡ some c)
        × (validate_https o c ≡ none)
        × IsEndpoint o c
  custom-IsEndpoint st xs e =
      let s = reached o d write_to_folder st xs in
      let accepted =
        steps-Kept o d write_to_folder (Anywhere o d write_to_folder) Guards Guards-Kept xs
          (first_server o.abs st) (Fits-Anywhere o d write_to_folder xs (first_server o.abs st))
          (unfold first_server new_server in
            preload-Guards st.is_agent st.preload (new_state_manager o.abs st.cli_folder st.is_ui) (
              unfold new_state_manager first_destination in
              other-Guarded o (first_destination o.abs st.cli_folder) https_source_off refl))
          e in
      elim (Option-cases s.state.report_destination.https) [
        | inl n ↦ absurd (subst (IsAccepted o) n accepted)
        | inr (c, n) ↦
            let h : IsEndpoint o c = subst (IsAccepted o) n accepted in
            (c, n, (validate_https_iff o c).1 h, h)
      ]
