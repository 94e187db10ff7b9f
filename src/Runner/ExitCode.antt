-- ===== src/Runner/ExitCode.antt =====
-- When the command line returns 0 (internal/runner/runner.go), from the loading of the playbook
-- (playbook/validator.go) through its run (director/director.go) to the delivery of the report
-- (internal/server/state.go).
use mathlib.Core.Path.{subst}
use crobe.Common.{
  ◌≡◌, ◌↔◌, refl, sym, ap, ◌∙◌, inl, inr, ℕ, Bool, true, false, Option, none, some, List, [], ◌∷◌,
  String, arith, All, Bool-cases,
}
use crobe.Common.Result.{Result, ok, err}
use crobe.Playbook.{Exec, Playbook}
use crobe.Playbook.Validator.{validate, ValidationError}
use crobe.Executor.{Host, Context, Outcome}
use crobe.Director.{AssertionContext}
use crobe.Director.Contexts.{contexts}
use crobe.Director.Judged.{count_failed}
use crobe.Director.Completed.{completed_totals}
use crobe.Director.Uncancelled.{uncancelled_returns}
use crobe.Director.Run.{Machine, Flow, run_with_observer}
use crobe.Report.{generate_report}
use crobe.Server.State.Dispatch.{dispatch_report}
use crobe.Runner.{
  Flags, Setting, FinalResult, loaded_state, final_result, dispatched, run_and_report, after_setup,
  after_hook, hooked, validated, after_load, run_headless,
}

failed_iff : (cs : List AssertionContext) → (count_failed cs ≡ 0) ↔ All (λ c. c.passed ≡ true) cs
failed_iff [] = (λ h. tt, λ h. refl)
failed_iff (c ∷ cs) =
    let rest = failed_iff cs in
    elim (Bool-cases c.passed) [
      | inl e ↦ rw e (λ h. (refl, rest.0 h), λ h. rest.1 h.1)
      | inr e ↦ rw e (λ h. absurd (omega (arith, h)), λ h. absurd (cc))
    ]

module _ (h : Host) (run_exec : Exec → Context → h.World → Outcome h.World) (m : Machine)
    (t : Setting h.World) (is_agent : Bool) (f : Flags) where
  open h use {World, is_cancelled}

  abbrev run_of : Playbook → World → Flow World
  run_of config w = run_with_observer h run_exec config "" m w

  abbrev delivery : Playbook → String → Playbook → World → Option String × World
  delivery config raw run_config w =
      dispatch_report t.write_to_folder t.write_to_http
        (loaded_state h run_exec m t is_agent f config raw run_config)
        (final_result h run_exec m t is_agent f (run_of run_config w).trace)
        (run_of run_config w).world

  -- Every step of the command line succeeds, every assertion of the run passes, and the report is
  -- delivered.
  pub record Succeeds (w : World) : Type 0 where
    pub config : Playbook
    pub raw : String
    pub w1 : World
    pub loads : t.load_config f.config_path f.headers w ≡ (ok (config, raw), w1)
    pub valid : validate config is_agent ≡ []
    pub run_config : Playbook
    pub w2 : World
    pub hooks : hooked h run_exec m t is_agent f config w1 ≡ (ok run_config, w2)
    pub w3 : World
    pub sets_up : t.setup run_config w2 ≡ (none, w3)
    pub passes : All (λ c. c.passed ≡ true) (contexts (run_of run_config w3).trace.sections)
    pub delivers : (delivery config raw run_config w3).0 ≡ none

  dispatched_iff :
      (result : FinalResult) (sent : Option String × World)
      → ((dispatched h run_exec m t is_agent f result sent).0 ≡ 0)
        ↔ ((result.structured.stats.failed ≡ 0) × (sent.0 ≡ none))
  dispatched_iff result (some e, w) = (λ q. absurd (omega (arith, q)), λ q. absurd (cc))
  dispatched_iff result (none, w) = (λ q. (ground arith, refl), λ q. ground arith)

  validated_iff :
      (es : List ValidationError) (rest : ℕ × World) (w : World)
      → ((validated h run_exec m t is_agent f es rest w).0 ≡ 0) ↔ ((es ≡ []) × (rest.0 ≡ 0))
  validated_iff [] rest w = (λ q. (refl, q), λ q. q.1)
  validated_iff (e ∷ es) rest w = (λ q. absurd (omega (arith, q)), λ q. absurd (cc))

  module _ (never : (w : World) → (is_cancelled w).0 ≡ false) where
    -- The exit code of the run and of its report.
    report_iff :
        (config : Playbook) (raw : String) (run_config : Playbook) (w3 : World)
        → ((run_and_report h run_exec m t is_agent f
              (loaded_state h run_exec m t is_agent f config raw run_config)
              run_config
              w3).0
            ≡ 0)
          ↔ (All (λ c. c.passed ≡ true) (contexts (run_of run_config w3).trace.sections)
              × ((delivery config raw run_config w3).0 ≡ none))
    unfolding run_and_report generate_report
    report_iff config raw run_config w3 =
        let fl = run_of run_config w3 in
        let (_, _, failed, _) =
          completed_totals h run_exec run_config "" m w3
            (uncancelled_returns h run_exec run_config "" never m w3) in
        let zero_iff = failed_iff (contexts fl.trace.sections) in
        let sent_iff =
          dispatched_iff (final_result h run_exec m t is_agent f fl.trace)
            (delivery config raw run_config w3) in
        (
          λ q.
              let (none_failed, sent) = sent_iff.0 q in
              (zero_iff.0 (sym failed ∙ none_failed), sent),
          λ q. let (passed, sent) = q in sent_iff.1 (failed ∙ zero_iff.1 passed, sent),
        )

    abbrev Reports : Playbook → String → Playbook → World → Type 0
    Reports config raw run_config w3 =
        All (λ c. c.passed ≡ true) (contexts (run_of run_config w3).trace.sections)
        × ((delivery config raw run_config w3).0 ≡ none)

    setup_iff :
        (config : Playbook) (raw : String) (run_config : Playbook) (e : Option String × World)
        → ((after_setup h run_exec m t is_agent f
              (loaded_state h run_exec m t is_agent f config raw run_config)
              run_config
              e).0
            ≡ 0)
          ↔ ((w3 : World) × (e ≡ (none, w3)) × Reports config raw run_config w3)
    unfolding after_setup
    setup_iff config raw run_config (some e, w) =
        (λ q. absurd (omega (arith, q)), λ q. let (w3, same, _) = q in absurd (cc same))
    setup_iff config raw run_config (none, w) = (
      λ q. (w, refl, (report_iff config raw run_config w).0 q),
      λ q.
          let (w3, same, reports) = q in
          let same_world : w ≡ w3 = ap (λ (x : Option String × World). x.1) same in
          (report_iff config raw run_config w).1
            (subst (Reports config raw run_config) (sym same_world) reports),
    )

    abbrev SetsUp : Playbook → String → Playbook → World → Type 0
    SetsUp config raw run_config w2 =
        (w3 : World) × (t.setup run_config w2 ≡ (none, w3)) × Reports config raw run_config w3

    hook_iff :
        (config : Playbook) (raw : String) (e : Result Playbook × World)
        → ((after_hook h run_exec m t is_agent f config raw e).0 ≡ 0) ↔ (
            (run_config : Playbook) × (w2 : World) × (e ≡ (ok run_config, w2))
            × SetsUp config raw run_config w2)
    unfolding after_hook
    hook_iff config raw (err e, w) =
        (λ q. absurd (omega (arith, q)), λ q. let (_, w2, same, _) = q in absurd (cc same))
    hook_iff config raw (ok run_config, w) = (
      λ q. (run_config, w, refl, (setup_iff config raw run_config (t.setup run_config w)).0 q),
      λ q.
          let (config', w2, same, sets) = q in
          let same_world : w ≡ w2 = ap (λ (x : Result Playbook × World). x.1) same in
          let same_config : run_config ≡ config' = cc same in
          (setup_iff config raw run_config (t.setup run_config w)).1 (
            subst (SetsUp config raw run_config) (sym same_world)
              (subst (λ c. SetsUp config raw c w2) (sym same_config) sets)),
    )

    abbrev Hooks : Playbook → String → World → Type 0
    Hooks config raw w1 =
        (run_config : Playbook) × (w2 : World) × (hooked h run_exec m t is_agent f config w1
          ≡ (ok run_config, w2))
        × SetsUp config raw run_config w2

    load_iff :
        (e : Result (Playbook × String) × World)
        → ((after_load h run_exec m t is_agent f e).0 ≡ 0) ↔ (
            (config : Playbook) × (raw : String) × (w1 : World) × (e ≡ (ok (config, raw), w1))
            × (validate config is_agent ≡ [])
            × Hooks config raw w1)
    unfolding after_load
    load_iff (err e, w) =
        (λ q. absurd (omega (arith, q)), λ q. let (_, _, w1, same, _, _) = q in absurd (cc same))
    load_iff (ok (config, raw), w) =
        let onwards = hook_iff config raw (hooked h run_exec m t is_agent f config w) in
        let checked =
          validated_iff (validate config is_agent)
            (after_hook h run_exec m t is_agent f config raw
              (hooked h run_exec m t is_agent f config w))
            w in
        (
          λ q. let (valid, rest) = checked.0 q in (config, raw, w, refl, valid, onwards.0 rest),
          λ q.
              let (config', raw', w1, same, valid, hooks) = q in
              let same_world : w ≡ w1 = ap (λ (x : Result (Playbook × String) × World). x.1) same in
              let same_config : config ≡ config' = cc same in
              let same_raw : raw ≡ raw' = cc same in
              checked.1 (
                subst (λ c. validate c is_agent ≡ []) (sym same_config) valid,
                onwards.1 (
                    subst (Hooks config raw) (sym same_world) (
                      subst (λ r. Hooks config r w1) (sym same_raw)
                        (subst (λ c. Hooks c raw' w1) (sym same_config) hooks))),
              ),
        )

    -- If the context of the run is never cancelled, as that of the command line is not, the exit code is 0
    -- exactly when the playbook is loaded, the validator accepts it, the hook and the setup of the
    -- elevation succeed, every assertion of the run passes, and the report is delivered.
    pub exit_zero_iff :
        (w : World) → ((run_headless h run_exec m t is_agent f w).0 ≡ 0) ↔ Succeeds w
    unfolding run_headless
    exit_zero_iff w =
        let whole = load_iff (t.load_config f.config_path f.headers w) in
        (
          λ q.
              let (
                config,
                raw,
                w1,
                loads,
                valid,
                (run_config, w2, hooks, (w3, sets_up, (passes, delivers))),
              ) =
                whole.0 q in
              record {
                config = config;
                raw = raw;
                w1 = w1;
                loads = loads;
                valid = valid;
                run_config = run_config;
                w2 = w2;
                hooks = hooks;
                w3 = w3;
                sets_up = sets_up;
                passes = passes;
                delivers = delivers;
              },
          λ s. whole.1 (
            s.config,
            s.raw,
            s.w1,
            s.loads,
            s.valid,
            (s.run_config, s.w2, s.hooks, (s.w3, s.sets_up, (s.passes, s.delivers))),
          ),
        )
