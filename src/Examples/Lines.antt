-- ===== src/Examples/Lines.antt =====
-- The theorem on the exit code, at a command line whose playbook is loaded from nowhere, run without being
-- cancelled, and reported to nowhere.
use crobe.Common.{ℕ, suc, ◌≡◌, ◌↔◌, refl, true, false, none, some, []}
use crobe.Common.Result.{ok}
use crobe.Runner.{Flags, Setting, run_headless}
use crobe.Runner.ExitCode.{Succeeds, exit_zero_iff}
use crobe.Examples.Samples.{playbook, host, never, quick_exec, machine}

abbrev setting : Setting ℕ
setting = record {
  abs = λ dir. some dir;
  dir = λ path. ".";
  load_config = λ path headers w. (ok (playbook, "raw"), suc w);
  hook = none;
  setup = λ config w. (none, suc w);
  cleanup = λ w. suc w;
  markdown = λ trace. "# Report";
  log = λ trace. "";
  write_to_folder = λ dir result w. (none, suc w);
  write_to_http = λ target result w. (none, suc w);
}

abbrev flags : Flags
flags = record {
  folder = "";
  worker = "";
  ui = false;
  port = 0;
  headers = [];
  config_path = "playbook.yaml";
  arg_count = 1;
}

exit_zero_iff_example :
    ((run_headless (host never) quick_exec machine setting true flags 0).0 ≡ 0)
    ↔ Succeeds (host never) quick_exec machine setting true flags 0
exit_zero_iff_example =
    exit_zero_iff (host never) quick_exec machine setting true flags (λ w. refl) 0
