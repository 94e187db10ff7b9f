-- ===== src/Director/Assertions.antt =====
-- The run of one assertion (director/director.go): the three loops, the score against its threshold, and
-- the context without the excluded keys.
use crobe.Common.{ℕ, ◌-◌, Bool, false, List, [], ◌∷◌, ◌++◌, String, if◌then◌else◌, ◌==◌, any}
use crobe.Common.Int.{pos, leb_ℤ}
use crobe.Common.Text.{join}
use crobe.Playbook.{GatherSpec, Exec, Cmd, Assertion, get_min_passing_score}
use crobe.Executor.{Host, Context, Outcome}
use crobe.Director.{
  AssertionContext, AssertionStatus, CommandLog, Event, Progress, assertion_complete,
}
use crobe.Director.Commands.{Ran, run_side, run_cmds}

-- The keys of the gather specs that are marked `excludeFromReport`, in the order of the three loops.
abbrev pub excluded_of : List GatherSpec → List String
excluded_of [] = []
excluded_of (g ∷ gs) =
    let rest = excluded_of gs in if g.exclude_from_report then g.key ∷ rest else rest

abbrev pub excluded_execs : List Exec → List String
excluded_execs [] = []
excluded_execs (e ∷ es) = excluded_of e.gather ++ excluded_execs es

abbrev pub excluded_cmds : List Cmd → List String
excluded_cmds [] = []
excluded_cmds (c ∷ cs) = excluded_of c.exec.gather ++ excluded_cmds cs

unfoldable pub excluded_keys : Assertion → List String
excluded_keys a = excluded_execs a.pre_cmds ++ (excluded_cmds a.cmds ++ excluded_execs a.post_cmds)

abbrev pub is_key : List String → String → Bool
is_key ks k = any (λ j. j == k) ks

-- The copy of `contextMap` into the report.
unfoldable pub report_context : List String → Context → Context
report_context ks [] = []
report_context ks ((k, v) ∷ ctx) =
    let rest = report_context ks ctx in if is_key ks k then rest else (k, v) ∷ rest

-- A loop that a cancellation skips.
abbrev pub idle : {W : Type 0} → Ran W → Ran W
idle r = record r { logs = []; outputs = []; events = [] }

abbrev empty_context : Assertion → AssertionStatus → AssertionContext
empty_context a status = record {
  playbook_assertion = a;
  status = status;
  start = 0;
  end = 0;
  passed = false;
  score = pos 0;
  min_score = pos 0;
  context = [];
  pre_cmd_logs = [];
  cmd_logs = [];
  post_cmd_logs = [];
  outputs = [];
}

-- An assertion that has not run (`unwindRemaining`).
abbrev pub unrun_context : Assertion → AssertionContext
unrun_context a = record (empty_context a AssertionStatus.cancelled) {
  min_score = get_min_passing_score a;
}

abbrev pub unrun_progress : Assertion → Progress
unrun_progress a = record {
  code = a.code;
  status = "cancelled";
  passed = false;
  score = pos 0;
  min_score = get_min_passing_score a;
  duration_ms = 0;
  output = "";
}

pub record AssertionRun (W : Type 0) : Type 0 where
  pub cancelled : Bool
  pub context : AssertionContext
  pub world : W
  pub events : List Event

module _ (h : Host) (run_exec : Exec → Context → h.World → Outcome h.World) where
  open h use {World, now}

  -- What the loops leave, put into the context of the assertion, and the call of `OnAssertionComplete`.
  unfoldable pub close_assertion :
      Assertion
      → ℕ
      → List CommandLog
      → List CommandLog
      → List String
      → Ran World
      → AssertionRun World
  close_assertion a start pre_logs cmd_logs outs post =
      let (end_time, w) = now post.world in
      let threshold = get_min_passing_score a in
      let base = record (empty_context a AssertionStatus.cancelled) {
        start = start;
        end = end_time;
        pre_cmd_logs = pre_logs;
        cmd_logs = cmd_logs;
        post_cmd_logs = post.logs;
        outputs = outs;
      } in
      let passed = leb_ℤ threshold post.score in
      let progress : Progress = record {
        code = a.code;
        status = if post.stopped then "cancelled" else if passed then "passed" else "failed";
        passed = if post.stopped then false else passed;
        score = post.score;
        min_score = threshold;
        duration_ms = end_time - start;
        output = join "\n" outs;
      } in
      record {
        cancelled = post.stopped;
        context = if post.stopped then base else record base {
          status = if passed then AssertionStatus.passed else AssertionStatus.failed;
          passed = passed;
          score = post.score;
          min_score = threshold;
          context = report_context (excluded_keys a) post.context;
        };
        world = w;
        events = assertion_complete a progress ∷ [];
      }

  -- The body of the loop over the assertions, after `OnAssertionStart`.
  unfoldable pub run_assertion : Assertion → World → AssertionRun World
  run_assertion a w =
      let (start, w0) = now w in
      let pre = run_side h run_exec "PreCmd" a.code (pos 0) a.pre_cmds [] w0 in
      let main =
        if pre.stopped
        then idle pre
        else run_cmds h run_exec (pos 0) a.cmds pre.context pre.world in
      let post =
        if main.stopped
        then idle main
        else run_side h run_exec "PostCmd" a.code main.score a.post_cmds main.context main.world in
      let done = close_assertion a start pre.logs main.logs main.outputs post in
      record done { events = pre.events ++ (post.events ++ done.events) }
