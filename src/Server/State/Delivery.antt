-- ===== src/Server/State/Delivery.antt =====
-- Where the report of a loaded playbook goes (internal/server/state.go, playbook/validator.go).
use mathlib.Core.Path.{subst}
use crobe.Common.{
  ◌≡◌, refl, sym, ap, ◌∙◌, ◌⊎◌, inl, inr, Bool, true, false, ◌&&◌, Option, none, some, [], String,
  if◌then◌else◌, is_empty, ◌==◌, Bool-cases, and-eq-true, eq_iff, arith,
}
use crobe.Playbook.{Playbook, ReportDestinationConfig, destination_https}
use crobe.Playbook.Validator.{validate}
use crobe.Playbook.Validator.Spec.{IsHttpsTarget}
use crobe.Playbook.Validator.Correct.{validate_iff}
use crobe.Server.Types.{
  ReportDestinationState, folder_source_off, https_source_playbook, https_source_off,
}
use crobe.Server.State.{StateManager}
use crobe.Server.State.Methods.{set_playbook}
use crobe.Server.State.Calls.{call, load, one_destination}
use crobe.Server.State.Dispatch.{
  Target, nowhere, endpoint, https_target, dispatch_folder, dispatch_https, dispatch_report,
}

configured :
    (o : Option ReportDestinationConfig)
    → IsHttpsTarget o
    → (c : ReportDestinationConfig) × (o ≡ some c)
configured none h = absurd h
configured (some c) h = (c, refl)

-- A playbook that goes to its endpoint has one, if the validator accepts it.
accepted-configured :
    (pb : Playbook) (is_agent : Bool)
    → validate pb is_agent ≡ []
    → (pb.report_destination == destination_https) ≡ true
    → (c : ReportDestinationConfig) × (pb.report_destination_https ≡ some c)
accepted-configured pb is_agent v e = elim (((validate_iff pb is_agent).0 v).destination) [
  | inl (d, t) ↦ configured pb.report_destination_https t
  | inr (inl d) ↦ absurd (ground (arith, eq_iff pb.report_destination "https", eq_iff "" "https"))
  | inr (inr d) ↦
      absurd (ground (arith, eq_iff pb.report_destination "https", eq_iff "folder" "https"))
]

off_target :
    {R : Type 0} (sm : StateManager R)
    → sm.report_destination.https_source ≡ https_source_off
    → https_target sm ≡ nowhere
unfolding https_target
off_target sm e = rw e refl

playbook-target :
    {R : Type 0} (sm : StateManager R) (pb : Playbook) (c : ReportDestinationConfig)
    → sm.report_destination.https_source ≡ https_source_playbook
    → sm.playbook ≡ some pb
    → pb.report_destination_https ≡ some c
    → https_target sm ≡ endpoint c
unfolding https_target
playbook-target sm pb c on same conf = rw (on, same, conf) refl

module _ {R W : Type 0} (write_to_folder : String → R → W → Option String × W)
    (write_to_http : ReportDestinationConfig → R → W → Option String × W) where
  second_idle :
      (out : Option String × W) (t : Target) (res : R)
      → t ≡ nowhere
      → elim out.0 [
        | some message ↦ (some message, out.1)
        | none ↦ dispatch_https write_to_folder write_to_http t res out.1
      ]
        ≡ out
  unfolding dispatch_https
  second_idle (some m, w) t res e = refl
  second_idle (none, w) t res e = rw e refl

  to_folder :
      (sm : StateManager R) (res : R) (w : W)
      → sm.report_destination.https_source ≡ https_source_off
      → dispatch_report write_to_folder write_to_http sm res w
        ≡ dispatch_folder write_to_folder write_to_http sm.report_destination res w
  unfolding dispatch_report
  to_folder sm res w e =
      second_idle (dispatch_folder write_to_folder write_to_http sm.report_destination res w)
        (https_target sm) res (off_target sm e)

  off_folder :
      (d : ReportDestinationState) (res : R) (w : W)
      → (d.folder_source == folder_source_off) ≡ true
      → dispatch_folder write_to_folder write_to_http d res w ≡ (none, w)
  unfolding dispatch_folder
  off_folder d res w e = rw e refl

  second_runs :
      (out : Option String × W) (t u : Target) (res : R) (w : W)
      → out ≡ (none, w)
      → t ≡ u
      → elim out.0 [
        | some message ↦ (some message, out.1)
        | none ↦ dispatch_https write_to_folder write_to_http t res out.1
      ]
        ≡ dispatch_https write_to_folder write_to_http u res w
  second_runs out t u res w e e' =
      subst
        (λ (o : Option String × W).
          elim o.0 [
            | some message ↦ (some message, o.1)
            | none ↦ dispatch_https write_to_folder write_to_http t res o.1
          ]
          ≡ dispatch_https write_to_folder write_to_http u res w)
        (sym e) (rw e' refl)

  to_endpoint :
      (sm : StateManager R) (pb : Playbook) (c : ReportDestinationConfig) (res : R) (w : W)
      → (sm.report_destination.folder_source == folder_source_off) ≡ true
      → sm.report_destination.https_source ≡ https_source_playbook
      → sm.playbook ≡ some pb
      → pb.report_destination_https ≡ some c
      → dispatch_report write_to_folder write_to_http sm res w
        ≡ dispatch_https write_to_folder write_to_http (endpoint c) res w
  unfolding dispatch_report
  to_endpoint sm pb c res w off on same conf =
      second_runs (dispatch_folder write_to_folder write_to_http sm.report_destination res w)
        (https_target sm) (endpoint c) res w (off_folder sm.report_destination res w off)
        (playbook-target sm pb c on same conf)

  -- Without the web pages, a playbook that the validator accepts is delivered to one place: to its
  -- HTTPS endpoint, which it then has, if it says so and no flag names a folder, and else to the folder
  -- of the destination. No other writer is called, and the configuration is never found missing.
  pub loaded_dispatch :
      (abs : String → Option String) (sm : StateManager R) (pb : Playbook) (raw : String)
      (is_agent : Bool) (res : R) (w : W)
      → sm.is_ui ≡ false
      → validate pb is_agent ≡ []
      → let sm' = call abs (load pb raw []) sm in
        let by_https = is_empty sm.cli_folder && pb.report_destination == destination_https in
        let sent = dispatch_report write_to_folder write_to_http sm' res w in
        (by_https ≡ true)
          × ((c : ReportDestinationConfig) × (pb.report_destination_https ≡ some c)
              × (sent ≡ dispatch_https write_to_folder write_to_http (endpoint c) res w))
        ⊎ (by_https ≡ false)
          × ((sm'.report_destination.folder_source == folder_source_off) ≡ false)
          × (sent ≡ dispatch_folder write_to_folder write_to_http sm'.report_destination res w)
  loaded_dispatch abs sm pb raw is_agent res w u v =
      let sm' = call abs (load pb raw []) sm in
      let by_https = is_empty sm.cli_folder && pb.report_destination == destination_https in
      let (off, on) = one_destination abs sm pb raw [] u in
      elim (Bool-cases by_https) [
        | inl e ↦
            let e' =
              (and-eq-true (is_empty sm.cli_folder) (pb.report_destination == destination_https)
                e).1 in
            let (c, conf) = accepted-configured pb is_agent v e' in
            inl (
              e,
              (
                c,
                conf,
                to_endpoint sm' pb c res w (off ∙ e)
                    (on ∙ ap (λ b. if b then https_source_playbook else https_source_off) e)
                    (unfold call set_playbook in refl) conf,
              ),
            )
        | inr e ↦ inr (
          e,
          off ∙ e,
          to_folder sm' res w
              (on ∙ ap (λ b. if b then https_source_playbook else https_source_off) e),
        )
      ]
