-- ===== src/Server/Lifecycle.antt =====
-- `LifecycleManager` (internal/server/lifecycle.go): when the server stops on its own. Each method holds
-- the mutex, so it is one step. A timer is a flag: set when it is armed. What `time.AfterFunc` calls runs
-- in a goroutine of its own, which `Stop` may come too late for, so such a call is a step at any time,
-- whether or not its timer is armed. The status of the state manager is an argument of each step that
-- reads it.
use crobe.Common.{
  ℕ, zero, suc, ◌+◌, ◌-◌, ◌≡◌, refl, Bool, true, false, not, ◌&&◌, ◌||◌, List, [], ◌∷◌, String,
  if◌then◌else◌, ltb, eqb, arith, Bool-cases, inl, inr,
}
use crobe.Common.Int.{ℤ, pos, leb_ℤ}
use crobe.Server.Types.{is_busy}
pub mod Idle

pub record LifecycleConfig : Type 0 where
  pub startup_grace_period : ℤ
  pub inactivity_timeout : ℤ
  pub disable_auto_shutdown : Bool

-- Durations are numbers of nanoseconds. The fields but for the mutex, the state manager and the callback.
pub record LifecycleManager : Type 0 where
  pub startup_grace_period : ℤ
  pub inactivity_timeout : ℤ
  pub disabled : Bool
  pub active_clients : ℕ
  pub grace_timer : Bool
  pub idle_timer : Bool
  pub grace_expired : Bool
  pub stopped : Bool

-- `NewLifecycleManager`
unfoldable pub new_lifecycle_manager : LifecycleConfig → LifecycleManager
new_lifecycle_manager cfg = record {
  startup_grace_period =
      if leb_ℤ cfg.startup_grace_period (pos 0) then pos 300000000000 else cfg.startup_grace_period;
  inactivity_timeout =
      if leb_ℤ cfg.inactivity_timeout (pos 0) then pos 60000000000 else cfg.inactivity_timeout;
  disabled = cfg.disable_auto_shutdown;
  active_clients = 0;
  grace_timer = not cfg.disable_auto_shutdown;
  idle_timer = false;
  grace_expired = cfg.disable_auto_shutdown;
  stopped = false;
}

-- `OnClientConnect`
unfoldable pub on_client_connect : LifecycleManager → LifecycleManager
on_client_connect lm = record lm { active_clients = lm.active_clients + 1; idle_timer = false }

-- `OnClientDisconnect`. The count stops at 0.
unfoldable pub on_client_disconnect : String → LifecycleManager → LifecycleManager
on_client_disconnect status lm =
    let lm' = record lm { active_clients = lm.active_clients - 1 } in
    if eqb lm'.active_clients 0
      && (lm.grace_expired && (not (is_busy status) && (not lm.stopped && not lm.disabled)))
    then record lm' { idle_timer = true }
    else lm'

-- `OnExecutionStateChange`
unfoldable pub on_execution_state_change : String → LifecycleManager → LifecycleManager
on_execution_state_change status lm =
    if eqb lm.active_clients 0
      && (lm.grace_expired && (not (is_busy status) && (not lm.stopped && not lm.disabled)))
    then record lm { idle_timer = true }
    else lm

-- `onGracePeriodExpired`
unfoldable pub on_grace_period_expired : String → LifecycleManager → LifecycleManager
on_grace_period_expired status lm =
    if eqb lm.active_clients 0 && (not (is_busy status) && (not lm.stopped && not lm.disabled))
    then record lm { grace_expired = true; idle_timer = true }
    else record lm { grace_expired = true }

-- `onIdleTimeoutExpired`: the manager, and whether the server is shut down.
unfoldable pub on_idle_timeout_expired : String → LifecycleManager → LifecycleManager × Bool
on_idle_timeout_expired status lm = (
  record lm { idle_timer = false },
  not (lm.stopped || lm.disabled || ltb 0 lm.active_clients || is_busy status),
)

-- `Stop`
unfoldable pub stop : LifecycleManager → LifecycleManager
stop lm = record lm { stopped = true; grace_timer = false; idle_timer = false }
