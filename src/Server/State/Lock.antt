-- ===== src/Server/State/Lock.antt =====
-- The folder of the flag, under sequences of calls of `StateManager` (internal/server/state.go).
use mathlib.Core.Path.{subst}
use crobe.Common.{
  sym, ◌≡◌, refl, ap, ◌∙◌, Bool, true, false, not, Option, none, some, List, [], ◌∷◌, String,
  is_empty, ◌==◌, eq_iff, arith, if-elim, or-eq-false,
}
use crobe.Playbook.{Playbook}
use crobe.Server.Types.{
  ReportDestinationState, DestinationUpdateRequest, is_busy, folder_source_cli,
}
use crobe.Server.State.{StateManager, set_load_error, set_status}
use crobe.Server.State.Methods.{
  resolve_folder_path, first_destination, new_state_manager, folder_destination,
  playbook_destination, set_playbook, unload_playbook, breaks_lock, apply_update,
  update_destination,
}
use crobe.Server.State.Calls.{Call, load, load_error, unload, update, status, call, calls}

module _ (abs : String → Option String) where
  -- The folder is that of the flag.
  abbrev pub IsLocked : String → ReportDestinationState → Type 0
  IsLocked cli d = (d.folder_source ≡ folder_source_cli) × (d.folder ≡ resolve_folder_path abs cli)

  playbook_destination-IsLocked :
      (ui : Bool) (cli : String) (pb : Playbook) (d : ReportDestinationState)
      → is_empty cli ≡ false
      → IsLocked cli (playbook_destination abs ui cli pb d)
  unfolding playbook_destination folder_destination
  playbook_destination-IsLocked true cli pb d e = rw e (refl, refl)
  playbook_destination-IsLocked false cli pb d e = rw e (refl, refl)

  kept_source :
      (o : Option String) (s : String)
      → elim o [ none ↦ false | some t ↦ not (t == folder_source_cli) ] ≡ false
      → s ≡ folder_source_cli
      → elim o [ none ↦ s | some t ↦ t ] ≡ folder_source_cli
  kept_source none s e h = h
  kept_source (some t) s e h = ground (arith, eq_iff t folder_source_cli)

  kept_folder :
      (o : Option String) (s p : String)
      → elim o [ none ↦ false | some f ↦ not (resolve_folder_path abs f == p) ] ≡ false
      → s ≡ p
      → elim o [ none ↦ s | some f ↦ resolve_folder_path abs f ] ≡ p
  kept_folder none s p e h = h
  kept_folder (some f) s p e h = ground (arith, eq_iff (resolve_folder_path abs f) p)

  apply_update-IsLocked :
      (cli : String) (req : DestinationUpdateRequest) (d : ReportDestinationState)
      → is_empty cli ≡ false
      → breaks_lock abs cli req ≡ false
      → IsLocked cli d
      → IsLocked cli (apply_update abs req d)
  unfolding breaks_lock apply_update
  apply_update-IsLocked cli req d e b (s, f) =
      let source_test = elim req.folder_source as (λ _. Bool) [
        | none ↦ false
        | some t ↦ not (t == folder_source_cli)
      ] in
      let folder_test = elim req.folder as (λ _. Bool) [
        | none ↦ false
        | some g ↦ not (resolve_folder_path abs g == resolve_folder_path abs cli)
      ] in
      let (b1, b2) : (source_test ≡ false) × (folder_test ≡ false) =
        or-eq-false source_test folder_test (rw e at b) in
      (
        kept_source req.folder_source d.folder_source b1 s,
        kept_folder req.folder d.folder (resolve_folder_path abs cli) b2 f,
      )

  abbrev Keeps : {R : Type 0} → StateManager R → Option String × StateManager R → Type 0
  Keeps sm out =
      IsLocked sm.cli_folder out.1.report_destination × (out.1.cli_folder ≡ sm.cli_folder)

  unload-IsLocked :
      {R : Type 0} (sm : StateManager R)
      → is_empty sm.cli_folder ≡ false
      → IsLocked sm.cli_folder sm.report_destination
      → IsLocked sm.cli_folder (unload_playbook abs sm).1.report_destination
        × ((unload_playbook abs sm).1.cli_folder ≡ sm.cli_folder)
  unfolding unload_playbook
  unload-IsLocked sm e l =
      if-elim (Keeps sm) (is_busy sm.status) _ _ (λ _. (l, refl))
        (λ _. (unfold first_destination in rw e (refl, refl), refl))

  update-IsLocked :
      {R : Type 0} (req : DestinationUpdateRequest) (sm : StateManager R)
      → is_empty sm.cli_folder ≡ false
      → IsLocked sm.cli_folder sm.report_destination
      → IsLocked sm.cli_folder (update_destination abs sm req).1.report_destination
        × ((update_destination abs sm req).1.cli_folder ≡ sm.cli_folder)
  unfolding update_destination
  update-IsLocked req sm e l =
      if-elim (Keeps sm) (is_busy sm.status) _ _ (λ _. (l, refl))
        (λ _.
          if-elim (Keeps sm) (breaks_lock abs sm.cli_folder req) _ _ (λ _. (l, refl))
            (λ b. (apply_update-IsLocked sm.cli_folder req sm.report_destination e b l, refl)))

  call-IsLocked :
      {R : Type 0} (c : Call) (sm : StateManager R)
      → is_empty sm.cli_folder ≡ false
      → IsLocked sm.cli_folder sm.report_destination
      → IsLocked sm.cli_folder (call abs c sm).report_destination
        × ((call abs c sm).cli_folder ≡ sm.cli_folder)
  unfolding call set_playbook set_load_error set_status
  call-IsLocked (load pb raw es) sm e l =
      (playbook_destination-IsLocked sm.is_ui sm.cli_folder pb _ e, refl)
  call-IsLocked (load_error c m d) sm e l = (l, refl)
  call-IsLocked unload sm e l = unload-IsLocked sm e l
  call-IsLocked (update req) sm e l = update-IsLocked req sm e l
  call-IsLocked (status s) sm e l = (l, refl)

  calls-IsLocked :
      {R : Type 0} (cs : List Call) (sm : StateManager R)
      → is_empty sm.cli_folder ≡ false
      → IsLocked sm.cli_folder sm.report_destination
      → IsLocked sm.cli_folder (calls abs cs sm).report_destination
  unfolding calls
  calls-IsLocked [] sm e l = l
  calls-IsLocked (c ∷ cs) sm e l =
      let (l', same) = call-IsLocked c sm e l in
      subst (λ f. IsLocked f (calls abs cs (call abs c sm)).report_destination) same
        (calls-IsLocked cs (call abs c sm) (ap is_empty same ∙ e)
          (subst (λ f. IsLocked f (call abs c sm).report_destination) (sym same) l'))

  -- With the flag `--folder`, whatever playbooks are loaded, refused or unloaded, whatever updates of
  -- the destination are asked for and whatever the status becomes, in any order, the destination stays
  -- the folder of the flag, with the flag as its source.
  pub folder_locked :
      (R : Type 0) (cli : String) (ui : Bool) (cs : List Call)
      → is_empty cli ≡ false
      → let d = (calls abs {R = R} cs (new_state_manager abs cli ui)).report_destination in
        (d.folder_source ≡ folder_source_cli) × (d.folder ≡ resolve_folder_path abs cli)
  unfolding new_state_manager first_destination
  folder_locked R cli ui cs e =
      calls-IsLocked cs (new_state_manager abs cli ui) e (rw e (refl, refl))
