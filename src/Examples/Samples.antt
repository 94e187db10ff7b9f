-- ===== src/Examples/Samples.antt =====
-- A playbook with one section of two assertions, a machine whose world counts its steps, and commands
-- that print their scripts.
use crobe.Common.{Bool, ℕ, suc, true, false, none, some, [], ◌∷◌, String, ltb}
use crobe.Common.Int.{pos}
use crobe.Common.Result.{ok, err}
use crobe.Playbook.{
  GatherSpec, Exec, EvaluationRule, Cmd, Assertion, Playbook, ReportDestinationConfig,
}
use crobe.Executor.{Host, Context, ExecutionResult, ExecutionRequest, Outcome, text}
use crobe.Director.Run.{Machine}

abbrev pub secret_gather : GatherSpec
secret_gather = record {
  key = "token";
  exclude_from_report = true;
  regex = "token=(.*)";
  include_std_err = none;
  func = "";
  func_file = "";
}

abbrev pub echo : String → Exec
echo script = record {
  shell = "sh";
  shell_func = "";
  shell_func_file = "";
  script = script;
  script_file_extension = "";
  func = "";
  func_file = "";
  gather = secret_gather ∷ [];
  exclude_from_report = false;
  require_elevation = true;
}

abbrev pub no_rule : EvaluationRule
no_rule = record { regex = ""; include_std_err = none; func = ""; func_file = "" }

abbrev pub echo_cmd : Cmd
echo_cmd = record {
  exec = echo "echo token=1";
  pass_score = none;
  fail_score = none;
  std_out_rule = no_rule;
  std_err_rule = no_rule;
  exit_code_rules = [];
}

abbrev pub assertion : String → Assertion
assertion code = record {
  code = code;
  title = "An assertion";
  description = "";
  pre_cmds = echo "prepare" ∷ [];
  cmds = echo_cmd ∷ [];
  post_cmds = echo "clean" ∷ [];
  min_passing_score = none;
  pass_description = "";
  fail_description = "";
}

abbrev pub endpoint_config : ReportDestinationConfig
endpoint_config = record {
  url = "https://example.org";
  format = "json";
  signature_secret = "s1";
  additional_headers = ("X-Key", "k1") ∷ [];
}

abbrev pub playbook : Playbook
playbook = record {
  title = "A playbook";
  report_frontmatter = [];
  sections =
      record {
        title = "Section";
        description = [];
        assertions = assertion "A1" ∷ assertion "A2" ∷ [];
      }
      ∷ [];
  report_destination = "https";
  report_destination_folder = "";
  report_destination_https = some endpoint_config;
}

abbrev printed : ExecutionRequest → ExecutionResult
printed r = record { stdout = r.script; stderr = ""; exit_code = pos 0; success = true }

-- The run is cancelled in the worlds that the argument tells.
abbrev pub host : (ℕ → Bool) → Host
host cancels = record {
  World = ℕ;
  JsValue = String;
  run_string = λ g code ctx w. (ok code, ctx, suc w);
  is_function = λ v. false;
  call = λ g v ctx w. (err "not a function", ctx, w);
  is_nullish = λ v. false;
  to_text = λ v. v;
  to_integer = λ v. pos 0;
  find_submatch = λ regex input. ok (input ∷ []);
  match_string = λ regex input. ok true;
  local_run = λ r w. (printed r, none, suc w);
  has_elevated = λ w. true;
  elevated_run = λ r w. (printed r, none, suc w);
  now = λ w. (w, suc w);
  is_cancelled = λ w. (cancels w, suc w);
}

-- A run of a command that stores its script.
abbrev pub quick_exec : Exec → Context → ℕ → Outcome ℕ
quick_exec e ctx w = record {
  result = record { stdout = e.script; stderr = ""; exit_code = pos 0; success = true };
  error = none;
  exec = e;
  context = ("token", text e.script) ∷ ctx;
  world = suc w;
}

abbrev pub machine : Machine
machine = record { user = "root"; username = ""; goos = "linux"; goarch = "amd64" }

-- Cancelled after twenty steps, and never.
abbrev pub late : ℕ → Bool
late w = ltb 20 w

abbrev pub never : ℕ → Bool
never w = false
