-- ===== src/Director/Run.antt =====
-- `RunWithObserver` (director/director.go): the loops over the sections and over their assertions.
use crobe.Common.{
  ℕ, suc, ◌+◌, ◌-◌, Bool, true, false, List, [], ◌∷◌, ◌++◌, String, if◌then◌else◌, ◌==◌, is_empty,
  length,
}
use crobe.Playbook.{Exec, Assertion, Section, Playbook}
use crobe.Executor.{Host, Context, Outcome}
use crobe.Director.{ExecutionTrace, Event, run_start, section_start, assertion_start, run_complete}
use crobe.Director.Assertions.{AssertionRun, run_assertion}
use crobe.Director.Unwind.{append_at, open_section, unwind_remaining}

-- The environment variables USER and USERNAME, and `runtime.GOOS` and `runtime.GOARCH`.
pub record Machine : Type 0 where
  pub user : String
  pub username : String
  pub goos : String
  pub goarch : String

-- The variables of the loops. `returned` tells that the function has returned from inside a loop. The
-- totals count assertions, of which there are fewer than an `int` holds.
pub record Flow (W : Type 0) : Type 0 where
  pub returned : Bool
  pub trace : ExecutionTrace
  pub passed : ℕ
  pub failed : ℕ
  pub world : W
  pub events : List Event

module _ (h : Host) (run_exec : Exec → Context → h.World → Outcome h.World) (config : Playbook)
    (run_id : String) where
  open h use {World, now, is_cancelled}

  -- `unwindRemaining`, and the return.
  unfoldable pub give_up : ℕ → ℕ → Flow World → Flow World
  give_up s a fl =
      let (trace, evs, w) = unwind_remaining h s a config fl.trace run_id fl.world in
      record fl { returned = true; trace = trace; world = w; events = fl.events ++ evs }

  -- An assertion that has run is entered in the last section of the trace.
  unfoldable pub enter : AssertionRun World → Flow World → Flow World
  enter r fl =
      let ss = fl.trace.sections in
      record fl {
        trace = record fl.trace { sections = append_at (length ss - 1) (r.context ∷ []) ss };
        world = r.world;
        events = fl.events ++ r.events;
      }

  unfoldable pub count_result : AssertionRun World → Flow World → Flow World
  count_result r fl =
      if r.context.passed
      then record fl { passed = fl.passed + 1 }
      else record fl { failed = fl.failed + 1 }

  -- The loop over the assertions of section `s`, from index `a`.
  unfoldable pub run_assertions : ℕ → ℕ → ℕ → List Assertion → Flow World → Flow World
  run_assertions s total a [] fl = fl
  run_assertions s total a (x ∷ xs) fl =
      let (stop, w) = is_cancelled fl.world in
      let asked = record fl { world = w } in
      let r = run_assertion h run_exec x w in
      let entered =
        enter r (record fl { events = fl.events ++ assertion_start x (suc a) total ∷ [] }) in
      let rest = run_assertions s total (suc a) xs (count_result r entered) in
      elim stop [
        | true ↦ give_up s a asked
        | false ↦ elim r.cancelled [ true ↦ give_up s (suc a) entered | false ↦ rest ]
      ]

  -- The start of a section: its event, and its entry in the trace.
  unfoldable pub begin_section : Section → ℕ → ℕ → Flow World → Flow World
  begin_section x s total fl = record fl {
    trace = record fl.trace { sections = fl.trace.sections ++ open_section x ∷ [] };
    events = fl.events ++ section_start x (suc s) total ∷ [];
  }

  -- The loop over the sections, from index `s`.
  unfoldable pub run_sections : ℕ → ℕ → List Section → Flow World → Flow World
  run_sections total s [] fl = fl
  run_sections total s (x ∷ xs) fl =
      let (stop, w) = is_cancelled fl.world in
      let asked = record fl { world = w } in
      let ran =
        run_assertions s (length x.assertions) 0 x.assertions (begin_section x s total asked) in
      let rest = run_sections total (suc s) xs ran in
      elim stop [
        | true ↦ give_up s 0 asked
        | false ↦ elim ran.returned [ true ↦ ran | false ↦ rest ]
      ]

  -- The trace with which the run starts.
  abbrev pub first_trace : Machine → ℕ → ExecutionTrace
  first_trace m start = record {
    playbook = config;
    sections = [];
    start = start;
    end = 0;
    username = if is_empty m.user then m.username else m.user;
    os = if m.goos == "darwin" then "mac" else m.goos;
    arch = m.goarch;
    total_passed = 0;
    total_failed = 0;
  }

  abbrev pub first_flow : Machine → World → Flow World
  first_flow m w =
      let (start, w0) = now w in
      record {
        returned = false;
        trace = first_trace m start;
        passed = 0;
        failed = 0;
        world = w0;
        events = run_start run_id config ∷ [];
      }

  -- The end of a run that was not cancelled.
  unfoldable pub complete : Flow World → Flow World
  complete fl =
      let (end_time, w) = now fl.world in
      let trace = record fl.trace {
        end = end_time;
        total_passed = fl.passed;
        total_failed = fl.failed;
      } in
      record fl { trace = trace; world = w; events = fl.events ++ run_complete trace ∷ [] }

  -- `RunWithObserver`: the trace, the events and the world at the end.
  unfoldable pub run_with_observer : Machine → World → Flow World
  run_with_observer m w =
      let fl = run_sections (length config.sections) 0 config.sections (first_flow m w) in
      if fl.returned then fl else complete fl
