-- ===== src/Server/Mirror.antt =====
-- The snapshot and the errors against the playbook that is loaded (internal/server), in every state that
-- the server can reach.
use mathlib.Core.Path.{subst, ap₂}
use crobe.Common.{
  ◌⊎◌, ◌≡◌, refl, sym, ap, ◌∙◌, ℕ, Bool, true, false, not, ◌&&◌, ◌||◌, Option, none, some, List, [],
  ◌∷◌, ◌++◌, map, map-append, String, if◌then◌else◌, ◌==◌, Bool-cases, Option-cases, if-elim, inl,
  inr, arith, eq_iff,
}
use crobe.Playbook.{Playbook, Section, Assertion}
use crobe.Playbook.Validator.{validate, ValidationError}
use crobe.Playbook.Validator.Spec.{all_codes, assertion_codes}
use crobe.Director.{
  Event, run_start, section_start, assertion_start, assertion_complete, log, run_complete,
  run_cancelled, run_error,
}
use crobe.Server.Types.{
  err_code_remote_submission_failed, err_code_remote_submission_timeout,
  err_code_playbook_validation_failed, AppError, AssertionSnapshot,
}
use crobe.Server.State.{StateManager, pending_snapshot, pending_snapshots}
use crobe.Server.Handlers.{Run, Server}
use crobe.Server.Runs.{validation_error, reset_snapshot}
use crobe.Server.Reports.{without_submission_errors}
use crobe.Server.Observer.{update_first, start_snapshot, complete_snapshot}
pub mod Mirrored

-- The codes that the snapshot shows.
abbrev pub shown_codes : List AssertionSnapshot → List String
shown_codes = map (λ a. a.code)

shown-pending_snapshot :
    (xs : List Assertion) → shown_codes (map pending_snapshot xs) ≡ assertion_codes xs
shown-pending_snapshot [] = refl
shown-pending_snapshot (x ∷ xs) = cc (shown-pending_snapshot xs)

pub shown-pending : (ss : List Section) → shown_codes (pending_snapshots ss) ≡ all_codes ss
shown-pending [] = refl
shown-pending (s ∷ ss) =
    map-append _ (map pending_snapshot s.assertions) (pending_snapshots ss)
    ∙ ap₂ (λ a b. a ++ b) (shown-pending_snapshot s.assertions) (shown-pending ss)

pub shown-reset :
    (views : List AssertionSnapshot) → shown_codes (map reset_snapshot views) ≡ shown_codes views
shown-reset [] = refl
shown-reset (a ∷ views) = cc (shown-reset views)

-- What a call of the observer does to the assertions of the snapshot.
abbrev pub shows : Event → List AssertionSnapshot → List AssertionSnapshot
shows (run_start i p) views = views
shows (section_start s i n) views = views
shows (assertion_start x i n) views = update_first x.code start_snapshot views
shows (assertion_complete x p) views = update_first x.code (complete_snapshot p) views
shows (log m) views = views
shows (run_complete t) views = views
shows (run_cancelled i t) views = views
shows (run_error m) views = views

shown-update_first :
    (code : String) (f : AssertionSnapshot → AssertionSnapshot) (views : List AssertionSnapshot)
    → ((a : AssertionSnapshot) → (f a).code ≡ a.code)
    → shown_codes (update_first code f views) ≡ shown_codes views
unfolding update_first
shown-update_first code f [] h = refl
shown-update_first code f (a ∷ views) h = elim (Bool-cases (a.code == code)) [
  | inl e ↦ rw e (ap (λ c. c ∷ shown_codes views) (h a))
  | inr e ↦ rw e (ap (λ cs. a.code ∷ cs) (shown-update_first code f views h))
]

pub shown-shows :
    (ev : Event) (views : List AssertionSnapshot) → shown_codes (shows ev views) ≡ shown_codes views
shown-shows (run_start i p) views = refl
shown-shows (section_start s i n) views = refl
shown-shows (assertion_start x i n) views =
    shown-update_first x.code start_snapshot views (λ a. refl)
shown-shows (assertion_complete x p) views =
    shown-update_first x.code (complete_snapshot p) views (λ a. refl)
shown-shows (log m) views = refl
shown-shows (run_complete t) views = refl
shown-shows (run_cancelled i t) views = refl
shown-shows (run_error m) views = refl

-- The errors tell whether the validator accepts the playbook.
pub validation_error-front :
    (es : List AppError) (e : AppError)
    → validation_error (es ++ e ∷ []) ≡ none
    → validation_error es ≡ none
unfolding validation_error
validation_error-front [] e h = refl
validation_error-front (x ∷ es) e h =
    elim (Bool-cases (x.code == err_code_playbook_validation_failed)) [
      | inl q ↦ let h' = rw q at h in absurd (cc)
      | inr q ↦ rw q (let h' = rw q at h in validation_error-front es e h')
    ]

-- Dropping the errors of submissions drops no validation error.
pub validation_error-kept :
    (es : List AppError)
    → validation_error (without_submission_errors es) ≡ none
    → validation_error es ≡ none
unfolding validation_error without_submission_errors
validation_error-kept [] h = refl
validation_error-kept (x ∷ es) h =
    let stays =
      not (x.code == err_code_remote_submission_failed)
      && not (x.code == err_code_remote_submission_timeout) in
    elim (Bool-cases (x.code == err_code_playbook_validation_failed)) [
      | inl q ↦
          let same = (eq_iff x.code err_code_playbook_validation_failed).0 q in
          let t : stays ≡ true = rw same refl in let h' = rw (t, q) at h in absurd (cc)
      | inr q ↦ elim (Bool-cases stays) [
        | inl t ↦ rw q (let h' = rw (t, q) at h in validation_error-kept es h')
        | inr t ↦ rw q (let h' = rw t at h in validation_error-kept es h')
      ]
    ]

-- The validator accepts the playbook for the agent, or else as the command line validates it.
abbrev pub IsAccepted : Bool → Playbook → Type 0
IsAccepted is_agent pb = (validate pb true ≡ []) ⊎ (validate pb is_agent ≡ [])

-- The snapshot shows the playbook, and the playbook is valid unless an error says otherwise.
abbrev pub Mirrors : Bool → Option Playbook → List AppError → List AssertionSnapshot → Type 0
Mirrors is_agent none es views = Unit
Mirrors is_agent (some pb) es views =
    (shown_codes views ≡ all_codes pb.sections)
    × (validation_error es ≡ none → IsAccepted is_agent pb)

pub Mirrors-change :
    (is_agent : Bool) (o : Option Playbook) (es es' : List AppError)
    (views views' : List AssertionSnapshot)
    → shown_codes views' ≡ shown_codes views
    → (validation_error es' ≡ none → validation_error es ≡ none)
    → Mirrors is_agent o es views
    → Mirrors is_agent o es' views'
Mirrors-change is_agent none es es' views views' e f h = tt
Mirrors-change is_agent (some pb) es es' views views' e f h = (e ∙ h.0, λ q. h.1 (f q))
