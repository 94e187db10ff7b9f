-- ===== src/Server/Lifecycle/Idle.antt =====
-- When the countdown of `LifecycleManager` (internal/server/lifecycle.go) is armed, and when the server
-- shuts itself down, after any sequence of calls.
use mathlib.Core.Bool.{false≢true}
use crobe.Common.{
  ℕ, ◌+◌, ◌-◌, ◌≡◌, refl, sym, ap, ◌∙◌, Bool, true, false, not, ◌&&◌, ◌||◌, List, [], ◌∷◌, String,
  eqb, arith,
}
use crobe.Server.Types.{is_busy}
use crobe.Server.Lifecycle.{
  LifecycleConfig, LifecycleManager, new_lifecycle_manager, on_client_connect, on_client_disconnect,
  on_execution_state_change, on_grace_period_expired, on_idle_timeout_expired, stop,
}

-- A call, with the status of the state manager at its time.
pub data Call : Type 0 where
  connect : Call
  disconnect changed grace_over timeout : String → Call
  halt : Call

unfoldable pub after_call : Call → LifecycleManager → LifecycleManager
after_call connect lm = on_client_connect lm
after_call (disconnect s) lm = on_client_disconnect s lm
after_call (changed s) lm = on_execution_state_change s lm
after_call (grace_over s) lm = on_grace_period_expired s lm
after_call (timeout s) lm = (on_idle_timeout_expired s lm).0
after_call halt lm = stop lm

unfoldable pub after : List Call → LifecycleManager → LifecycleManager
after [] lm = lm
after (c ∷ cs) lm = after cs (after_call c lm)

-- What the history alone tells: the clients that are connected, and whether the manager was stopped.
abbrev pub connected : ℕ → List Call → ℕ
connected n [] = n
connected n (connect ∷ cs) = connected (n + 1) cs
connected n (disconnect s ∷ cs) = connected (n - 1) cs
connected n (changed s ∷ cs) = connected n cs
connected n (grace_over s ∷ cs) = connected n cs
connected n (timeout s ∷ cs) = connected n cs
connected n (halt ∷ cs) = connected n cs

abbrev pub halted : List Call → Bool
halted [] = false
halted (connect ∷ cs) = halted cs
halted (disconnect s ∷ cs) = halted cs
halted (changed s ∷ cs) = halted cs
halted (grace_over s ∷ cs) = halted cs
halted (timeout s ∷ cs) = halted cs
halted (halt ∷ cs) = true

abbrev pub IsIdle : LifecycleManager → Type 0
IsIdle lm =
    (lm.active_clients ≡ 0)
    × (lm.grace_expired ≡ true)
    × (lm.stopped ≡ false)
    × (lm.disabled ≡ false)

abbrev IsSound : LifecycleManager → Type 0
IsSound lm = lm.idle_timer ≡ true → IsIdle lm

after_call-IsSound : (c : Call) (lm : LifecycleManager) → IsSound lm → IsSound (after_call c lm)
unfolding after_call on_client_connect on_client_disconnect on_execution_state_change
    on_grace_period_expired on_idle_timeout_expired stop
after_call-IsSound connect lm h = λ e. absurd (false≢true e)
after_call-IsSound (disconnect s) lm h = ground arith
after_call-IsSound (changed s) lm h = ground arith
after_call-IsSound (grace_over s) lm h = ground arith
after_call-IsSound (timeout s) lm h = λ e. absurd (false≢true e)
after_call-IsSound halt lm h = λ e. absurd (false≢true e)

after-IsSound : (cs : List Call) (lm : LifecycleManager) → IsSound lm → IsSound (after cs lm)
unfolding after
after-IsSound [] lm h = h
after-IsSound (c ∷ cs) lm h = after-IsSound cs (after_call c lm) (after_call-IsSound c lm h)

-- Whatever calls come, in whatever order and with whatever statuses, the countdown is armed only while
-- no client is connected by the count of the calls, the period of grace is over, the manager has not
-- been stopped, and the shutdown is not disabled.
pub armed-IsIdle :
    (cfg : LifecycleConfig) (cs : List Call)
    → (after cs (new_lifecycle_manager cfg)).idle_timer ≡ true
    → IsIdle (after cs (new_lifecycle_manager cfg))
unfolding new_lifecycle_manager
armed-IsIdle cfg cs = after-IsSound cs (new_lifecycle_manager cfg) (λ e. absurd (false≢true e))

tracked :
    (c : Call) (lm : LifecycleManager)
    → ((after_call c lm).active_clients ≡ connected lm.active_clients (c ∷ []))
      × ((after_call c lm).stopped ≡ (lm.stopped || halted (c ∷ [])))
      × ((after_call c lm).disabled ≡ lm.disabled)
unfolding after_call on_client_connect on_client_disconnect on_execution_state_change
    on_grace_period_expired on_idle_timeout_expired stop
tracked connect lm = ground arith
tracked (disconnect s) lm = ground arith
tracked (changed s) lm = ground arith
tracked (grace_over s) lm = ground arith
tracked (timeout s) lm = ground arith
tracked halt lm = ground arith

connected-one :
    (n : ℕ) (c : Call) (cs : List Call) → connected n (c ∷ cs) ≡ connected (connected n (c ∷ [])) cs
connected-one n connect cs = refl
connected-one n (disconnect s) cs = refl
connected-one n (changed s) cs = refl
connected-one n (grace_over s) cs = refl
connected-one n (timeout s) cs = refl
connected-one n halt cs = refl

halted-one : (c : Call) (cs : List Call) → halted (c ∷ cs) ≡ (halted (c ∷ []) || halted cs)
halted-one connect cs = refl
halted-one (disconnect s) cs = refl
halted-one (changed s) cs = refl
halted-one (grace_over s) cs = refl
halted-one (timeout s) cs = refl
halted-one halt cs = refl

history :
    (cs : List Call) (lm : LifecycleManager)
    → ((after cs lm).active_clients ≡ connected lm.active_clients cs)
      × ((after cs lm).stopped ≡ (lm.stopped || halted cs))
      × ((after cs lm).disabled ≡ lm.disabled)
unfolding after
history [] lm = (refl, ground arith, refl)
history (c ∷ cs) lm =
    let (n, s, d) = tracked c lm in
    let (n', s', d') = history cs (after_call c lm) in
    (
      n' ∙ ap (λ k. connected k cs) n ∙ sym (connected-one lm.active_clients c cs),
      ground (arith, s, s', halted-one c cs),
      d' ∙ d,
    )

-- The callback of the countdown, even one that comes late, shuts the server down exactly when, by the
-- history of the calls, every client has gone, nothing has stopped the manager, shutdown is not
-- disabled, and no run or submission is under way.
pub shutdown_iff_idle :
    (cfg : LifecycleConfig) (cs : List Call) (status : String)
    → (on_idle_timeout_expired status (after cs (new_lifecycle_manager cfg))).1 ≡ (
        eqb (connected 0 cs) 0
        && (not (halted cs) && (not cfg.disable_auto_shutdown && not (is_busy status))))
unfolding on_idle_timeout_expired new_lifecycle_manager
shutdown_iff_idle cfg cs status =
    let (n, s, d) = history cs (new_lifecycle_manager cfg) in rw (n, s, d) (ground arith)
