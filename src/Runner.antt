-- ===== src/Runner.antt =====
-- The command line (internal/runner/runner.go): what it decides from its flags, the run without web pages
-- with its exit code, and the state with which the web pages start. The package `flag`, the loading of
-- playbooks, the texts of a report and the writers are parameters. What is printed is left out.
use crobe.Common.{
  ℕ, Bool, true, false, not, ◌&&◌, Option, none, some, List, [], ◌∷◌, String, if◌then◌else◌,
  is_empty, ltb, eqb,
}
use crobe.Common.Text.{concat}
use crobe.Common.Result.{Result, ok, err}
use crobe.Playbook.{Exec, Playbook, ReportDestinationConfig}
use crobe.Playbook.Validator.{ValidationError, validate}
use crobe.Executor.{Host, Context, Outcome}
use crobe.Director.{ExecutionTrace}
use crobe.Director.Run.{Machine, run_with_observer}
use crobe.Report.{FinalReport, generate_report}
use crobe.Server.Types.{no_detail, err_code_playbook_parse_failed}
use crobe.Server.State.{StateManager, set_load_error}
use crobe.Server.State.Methods.{new_state_manager, set_playbook}
use crobe.Server.Lifecycle.{LifecycleConfig}
use crobe.Server.Handlers.{Server, Loaded, load_ok, load_failed}
use crobe.Server.Steps.{first_server}
use crobe.Server.State.Dispatch.{dispatch_report}
pub mod ExitCode

-- The flags, `flags.Arg(0)`, and the number of arguments.
pub record Flags : Type 0 where
  pub folder : String
  pub worker : String
  pub ui : Bool
  pub port : ℕ
  pub headers : List (String × String)
  pub config_path : String
  pub arg_count : ℕ

-- What `Run` goes on to do.
pub data Mode : Type 0 where
  worker_mode : String → Mode
  custom_mode : ℕ → Mode
  ui_mode : Mode
  headless_mode : Mode
  usage_error : Mode

-- The decisions of `Run`. `custom` is the exit code of the custom handler, if it handles the flags, and
-- `is_desktop` what `desktop.IsDesktopGUI` says.
unfoldable pub choose_mode : Option ℕ → Bool → Flags → Mode
choose_mode custom is_desktop f =
    if not (is_empty f.worker) then worker_mode f.worker else elim custom [
      | some code ↦ custom_mode code
      | none ↦
          if f.ui
          then ui_mode
          else if is_empty f.config_path && eqb f.arg_count 0
          then (if is_desktop then ui_mode else usage_error)
          else if is_empty f.config_path
          then usage_error
          else headless_mode
    ]

-- The port of the web pages: the flag, or the environment if it holds a positive number. `atoi` is
-- `strconv.Atoi`, `none` for what is no number or a negative one.
unfoldable pub choose_port : (String → Option ℕ) → String → ℕ → ℕ
choose_port atoi port_env port =
    if not (eqb port 0)
    then port
    else if is_empty port_env
    then 0
    else elim (atoi port_env) [ none ↦ 0 | some p ↦ if ltb 0 p then p else 0 ]

-- `FinalResult` (report/report.go)
pub record FinalResult : Type 0 where
  pub structured : FinalReport
  pub markdown : String
  pub log : String

-- What a run uses from outside: each operation takes and returns the world. `setup` and `cleanup` are
-- `SetupElevation` and what it returns, `hook` is `PreprocessHook`, if there is one.
pub record Setting (W : Type 0) : Type 0 where
  pub abs : String → Option String
  pub dir : String → String
  pub load_config : String → List (String × String) → W → Result (Playbook × String) × W
  pub hook : Option (Playbook → String → W → Result Playbook × W)
  pub setup : Playbook → W → Option String × W
  pub cleanup : W → W
  pub markdown : ExecutionTrace → String
  pub log : ExecutionTrace → String
  pub write_to_folder : String → FinalResult → W → Option String × W
  pub write_to_http : ReportDestinationConfig → FinalResult → W → Option String × W

-- What is loaded before the web pages start.
unfoldable pub preloaded : {W : Type 0} → Setting W → Flags → W → Option Loaded × W
preloaded t f w =
    let (loaded, w') = t.load_config f.config_path f.headers w in
    if is_empty f.config_path then (none, w) else elim loaded [
      | err e ↦ (
        some (
            load_failed err_code_playbook_parse_failed
              (concat ("Failed to load playbook " ∷ f.config_path ∷ ": " ∷ e ∷ []))),
        w',
      )
      | ok (config, raw) ↦ (some (load_ok config raw), w')
    ]

-- The server of the web pages with what has been loaded. `cfg` is its lifecycle's configuration.
unfoldable pub preload :
    {W : Type 0} {R : Type 0} → Setting W → Bool → LifecycleConfig → Flags → W → Server R × W
preload t is_agent cfg f w =
    let (loaded, w') = preloaded t f w in
    (
      first_server t.abs (record {
        cli_folder = f.folder;
        is_ui = true;
        cfg = cfg;
        is_agent = is_agent;
        preload = loaded;
      }),
      w',
    )

module _ (h : Host) (run_exec : Exec → Context → h.World → Outcome h.World) (m : Machine)
    (t : Setting h.World) (is_agent : Bool) (f : Flags) where
  open h use {World}

  -- The state into which the playbook has been loaded. The hook changes the playbook in place, so that
  -- the state has the playbook that is run.
  unfoldable pub loaded_state : Playbook → String → Playbook → StateManager FinalResult
  loaded_state config raw run_config =
      record (set_playbook t.abs (new_state_manager t.abs f.folder false) config raw
        (validate config is_agent)) { playbook = some run_config }

  -- `GenerateReport`
  abbrev pub final_result : ExecutionTrace → FinalResult
  final_result trace = record {
    structured = generate_report trace;
    markdown = t.markdown trace;
    log = t.log trace;
  }

  -- What `DispatchReport` returns decides the exit code, with the number of failed assertions.
  abbrev pub dispatched : FinalResult → Option String × World → ℕ × World
  dispatched result (some e, w) = (1, t.cleanup w)
  dispatched result (none, w) = (if ltb 0 result.structured.stats.failed then 1 else 0, t.cleanup w)

  -- The run and the report.
  unfoldable pub run_and_report : StateManager FinalResult → Playbook → World → ℕ × World
  run_and_report sm config w =
      let fl = run_with_observer h run_exec config "" m w in
      let result = final_result fl.trace in
      dispatched result (dispatch_report t.write_to_folder t.write_to_http sm result fl.world)

  unfoldable pub after_setup :
      StateManager FinalResult → Playbook → Option String × World → ℕ × World
  after_setup sm config (some e, w) = (1, w)
  after_setup sm config (none, w) = run_and_report sm config w

  unfoldable pub after_hook : Playbook → String → Result Playbook × World → ℕ × World
  after_hook config raw (err e, w) = (1, w)
  after_hook config raw (ok run_config, w) =
      after_setup (loaded_state config raw run_config) run_config (t.setup run_config w)

  abbrev pub hooked : Playbook → World → Result Playbook × World
  hooked config w = elim t.hook [
    | none ↦ (ok config, w)
    | some hook ↦ hook config (t.dir f.config_path) w
  ]

  -- The return if there are validation errors.
  abbrev pub validated : List ValidationError → ℕ × World → World → ℕ × World
  validated [] rest w = rest
  validated (e ∷ es) rest w = (1, w)

  unfoldable pub after_load : Result (Playbook × String) × World → ℕ × World
  after_load (err e, w) = (1, w)
  after_load (ok (config, raw), w) =
      validated (validate config is_agent) (after_hook config raw (hooked config w)) w

  -- The part of `Run` without web pages: the exit code, and the world.
  unfoldable pub run_headless : World → ℕ × World
  run_headless w = after_load (t.load_config f.config_path f.headers w)
