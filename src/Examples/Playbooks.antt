-- ===== src/Examples/Playbooks.antt =====
-- The theorems on playbooks, at concrete ones.
use crobe.Common.{◌∷◌, ◌≡◌, refl, ◌↔◌, true, false, [], String, ltb}
use crobe.Common.Result.{Result, ok, traverse}
use crobe.Playbook.Elevation.{elevation_stats}
use crobe.Playbook.Elevation.Totals.{
  elevated_sections, elevated_in_sections, count_sections, elevation_stats_counts,
}
use crobe.Playbook.Validator.{
  validate, check_title, check_destination, check_https, check_sections, validate_sections,
  validate_section, validate_body, validate_assertions, validate_assertion, check_code, check_agent,
  check_execs, check_cmds, check_cmd, check_gathers, check_file, prohibited,
}
use crobe.Common.Text.{trim_space, is_space, concat, itoa}
use crobe.Transpile.{
  wrap, preprocess, process_section, process_assertion, process_cmd, process_exec, process_gather,
  process_eval_rule, load,
}
use crobe.Transpile.Inline.{preprocess_accepted}
use crobe.Playbook.{Exec, Playbook}
use crobe.Examples.Samples.{playbook, echo, echo_cmd, assertion}

pub playbook_accepted : validate playbook true ≡ []
unfolding validate check_title check_destination check_https check_sections validate_sections
    validate_section validate_body validate_assertions validate_assertion check_code check_agent
    check_execs check_cmds check_cmd check_gathers check_file prohibited trim_space is_space concat
    itoa
playbook_accepted = refl

elevation_stats_counts_example : elevation_stats playbook ≡ record {
  n_sections = elevated_sections playbook.sections;
  n_assertions = elevated_in_sections playbook.sections;
  n_cmds = count_sections playbook.sections;
  require_elevation = ltb 0 (count_sections playbook.sections);
}
elevation_stats_counts_example = elevation_stats_counts playbook

-- A reader that finds every file, and whose code is the path.
abbrev read : String → Result String
read path = ok path

abbrev first : String → String → String
first a b = b

-- The sample with a command whose script is in a file, and the same with the script in its place.
abbrev with_exec : Exec → Playbook
with_exec e = record playbook {
  sections =
      record {
        title = "Section";
        description = [];
        assertions = record (assertion "A1") { cmds = record echo_cmd { exec = e } ∷ [] } ∷ [];
      }
      ∷ [];
}

abbrev file_playbook : Playbook
file_playbook = with_exec (record (echo "") { func_file = "x.js" })

abbrev inlined_playbook : Playbook
inlined_playbook = with_exec (record (echo "") { func = "x.js" })

file_inlined : preprocess read first "dir" file_playbook ≡ ok inlined_playbook
unfolding preprocess process_section process_assertion process_cmd process_exec process_gather
    process_eval_rule load traverse wrap
file_inlined = refl

preprocess_accepted_example :
    (validate inlined_playbook true ≡ []) ↔ (validate file_playbook false ≡ [])
preprocess_accepted_example =
    preprocess_accepted read first "dir" file_playbook inlined_playbook file_inlined
