-- ===== src/Playbook.antt =====
-- The playbook (playbook/playbook_types.go): its records, and the getters with their defaults.
-- A slice is a list, a nil pointer is `none`, a map is an association list, an `int` is an integer.
use crobe.Common.{Bool, false, Option, none, some, List, [], ◌∷◌, String, if◌then◌else◌}
use crobe.Common.Int.{ℤ, pos, negsuc, eqb_ℤ, add_int}
pub mod Elevation
pub mod Validator

pub record GatherSpec : Type 0 where
  pub key : String
  pub exclude_from_report : Bool
  pub regex : String
  pub include_std_err : Option Bool
  pub func : String
  pub func_file : String

pub record Exec : Type 0 where
  pub shell : String
  pub shell_func : String
  pub shell_func_file : String
  pub script : String
  pub script_file_extension : String
  pub func : String
  pub func_file : String
  pub gather : List GatherSpec
  pub exclude_from_report : Bool
  pub require_elevation : Bool

pub record EvaluationRule : Type 0 where
  pub regex : String
  pub include_std_err : Option Bool
  pub func : String
  pub func_file : String

-- `min` and `max` of the source.
pub record ExitCodeRule : Type 0 where
  pub min_code : Option ℤ
  pub max_code : Option ℤ
  pub result : ℤ

pub record Cmd : Type 0 where
  pub exec : Exec
  pub pass_score : Option ℤ
  pub fail_score : Option ℤ
  pub std_out_rule : EvaluationRule
  pub std_err_rule : EvaluationRule
  pub exit_code_rules : List ExitCodeRule

pub record Assertion : Type 0 where
  pub code : String
  pub title : String
  pub description : String
  pub pre_cmds : List Exec
  pub cmds : List Cmd
  pub post_cmds : List Exec
  pub min_passing_score : Option ℤ
  pub pass_description : String
  pub fail_description : String

pub record Section : Type 0 where
  pub title : String
  pub description : List String
  pub assertions : List Assertion

pub record ReportDestinationConfig : Type 0 where
  pub url : String
  pub format : String
  pub signature_secret : String
  pub additional_headers : List (String × String)

-- A value of the frontmatter stays unread here: it is the text that stands for it.
pub record Playbook : Type 0 where
  pub title : String
  pub report_frontmatter : List (String × String)
  pub sections : List Section
  pub report_destination : String
  pub report_destination_folder : String
  pub report_destination_https : Option ReportDestinationConfig

abbrev pub destination_folder : String
destination_folder = "folder"

abbrev pub destination_https : String
destination_https = "https"

abbrev pub format_multipart : String
format_multipart = "multipart"

abbrev pub format_json : String
format_json = "json"

abbrev or_default {ℓ} : {A : Type ℓ} → A → Option A → A
or_default d none = d
or_default d (some a) = a

-- `Cmd.GetPassScore`
unfoldable pub get_pass_score : Cmd → ℤ
get_pass_score c = or_default (pos 1) c.pass_score

-- `Cmd.GetFailScore`
unfoldable pub get_fail_score : Cmd → ℤ
get_fail_score c = or_default (negsuc 0) c.fail_score

-- `EvaluationRule.GetIncludeStdErr`
unfoldable pub rule_include_std_err : EvaluationRule → Bool
rule_include_std_err r = or_default false r.include_std_err

-- `GatherSpec.GetIncludeStdErr`
unfoldable pub gather_include_std_err : GatherSpec → Bool
gather_include_std_err g = or_default false g.include_std_err

-- The loop of `GetMinPassingScore` over the commands.
unfoldable pub sum_pass_scores : ℤ → List Cmd → ℤ
sum_pass_scores sum [] = sum
sum_pass_scores sum (c ∷ cs) = sum_pass_scores (add_int sum (get_pass_score c)) cs

-- `Assertion.GetMinPassingScore`
unfoldable pub get_min_passing_score : Assertion → ℤ
get_min_passing_score a = elim a.min_passing_score [
  | some score ↦ score
  | none ↦ let sum = sum_pass_scores (pos 0) a.cmds in if eqb_ℤ sum (pos 0) then pos 1 else sum
]
