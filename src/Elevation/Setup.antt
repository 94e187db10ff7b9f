-- ===== src/Elevation/Setup.antt =====
-- The client that a run uses (`SetupElevation` in internal/elevation/elevation.go). `C` is the type of clients.
use crobe.Common.{
  Bool, true, false, not, Option, none, some, ◌≡◌, refl, [], ◌∷◌, if◌then◌else◌, if-elim, arith,
}
use crobe.Common.Text.{concat}
use crobe.Common.Result.{Result, ok, err}
use crobe.Playbook.{Playbook}
use crobe.Playbook.Elevation.{requires_elevation}

-- `config == nil || !config.RequiresElevation()`, negated.
abbrev pub needs_runner : Option Playbook → Bool
needs_runner none = false
needs_runner (some config) = requires_elevation config

module _ {C : Type 0} where
  -- The cleanup: the client to close, if there is one. `registered` is `GetElevatedExecutionRunner()`, and
  -- `created` what `NewClient` returns if it is called.
  unfoldable pub setup_elevation :
      Option Playbook → Result C → Option C → Result (Option C) × Option C
  setup_elevation config created registered =
      if not (needs_runner config) then (ok none, registered) else elim registered [
        | some c ↦ (ok none, some c)
        | none ↦ elim created [
          | err e ↦ (err (concat ("failed to initialize elevated runner: " ∷ e ∷ [])), none)
          | ok c ↦ (ok (some c), some c)
        ]
      ]

  -- What is registered after the cleanup that was returned has been called.
  unfoldable pub clean_up : Option C → Option C → Option C
  clean_up none registered = registered
  clean_up (some c) registered = none

  -- What is to hold of `SetupElevation`.
  pub SetUp : Option Playbook → Option C → Result (Option C) × Option C → Type 0
  SetUp config before (ok undo, after) =
      (clean_up undo after ≡ before) × (needs_runner config ≡ true → (c : C) × (after ≡ some c))
  SetUp config before (err e, after) =
      (after ≡ before) × (before ≡ none) × (needs_runner config ≡ true)

  -- If `SetupElevation` succeeds, then a client is registered if there is a playbook that needs one, and its
  -- cleanup leaves registered what was before; if it fails, nothing has changed, none was registered, and the
  -- playbook needs one.
  pub setup_elevation-SetUp :
      (config : Option Playbook) (created : Result C) (registered : Option C)
      → SetUp config registered (setup_elevation config created registered)
  unfolding setup_elevation clean_up SetUp
  setup_elevation-SetUp config created (some c) =
      if-elim (SetUp config (some c)) (not (needs_runner config)) _ _ (λ q. (refl, λ n. (c, refl)))
        (λ q. (refl, λ n. (c, refl)))
  setup_elevation-SetUp config (err e) none =
      if-elim (SetUp config none) (not (needs_runner config)) _ _
        (λ q. (refl, λ n. absurd (cc (q, n)))) (λ q. (refl, refl, ground arith))
  setup_elevation-SetUp config (ok c) none =
      if-elim (SetUp config none) (not (needs_runner config)) _ _
        (λ q. (refl, λ n. absurd (cc (q, n)))) (λ q. (refl, λ n. (c, refl)))
