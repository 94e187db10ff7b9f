-- ===== src/Playbook/Validator.antt =====
-- The validator of playbooks (playbook/validator.go). Go appends to a slice of errors and writes to the
-- map `seenCodes`, which is shared by all calls: here the errors and the map are what a call returns.
pub mod Spec
pub mod Checks
pub mod Codes
pub mod Correct
use Prim.Native.String.{len}
use crobe.Common.{
  ℕ, suc, Bool, not, ◌&&◌, none, some, List, [], ◌∷◌, ◌++◌, String, if◌then◌else◌, ltb, ◌==◌,
  is_empty, lookup, insert, starts_with,
}
use crobe.Common.Text.{trim_space, concat, itoa}
use crobe.Playbook.{
  GatherSpec, Exec, Cmd, Assertion, Section, ReportDestinationConfig, Playbook, destination_folder,
  destination_https, format_multipart, format_json,
}

pub record ValidationError : Type 0 where
  pub path : String
  pub code : String
  pub message : String

abbrev pub Seen : Type 0
Seen = List (String × String)

-- The check of a title, which the playbook's and the section's `Validate` both write out.
unfoldable pub check_title : String → String → String → List ValidationError
check_title path what title =
    if is_empty (trim_space title)
    then record {
      path = path;
      code = "MISSING_TITLE";
      message = concat (what ∷ " title is required" ∷ []);
    }
      ∷ []
    else if ltb (len (trim_space title)) 3
    then record {
      path = path;
      code = "INVALID_TITLE";
      message = concat (what ∷ " title must be at least 3 characters" ∷ []);
    }
      ∷ []
    else []

-- An error about an external file. `place` is what the message names.
unfoldable pub prohibited : List String → String → String → String → ValidationError
prohibited path code field place = record {
  path = concat path;
  code = "PROHIBITED_AGENT_FUNC";
  message = concat ("agent error: assertion " ∷ code ∷ " contains " ∷ field ∷ " in " ∷ place ∷ []);
}

unfoldable pub check_file : String → List String → String → String → String → List ValidationError
check_file file path code field place =
    if is_empty file then [] else prohibited path code field place ∷ []

-- The loops over `PreCmds` and `PostCmds`, from index `k`.
unfoldable pub check_execs :
    String → String → String → String → ℕ → List Exec → List ValidationError
check_execs at code field place k [] = []
check_execs at code field place k (e ∷ es) =
    check_file e.func_file (at ∷ "." ∷ field ∷ "[" ∷ itoa k ∷ "].funcFile" ∷ []) code "funcFile"
      place
    ++ check_file e.shell_func_file (at ∷ "." ∷ field ∷ "[" ∷ itoa k ∷ "].shellFuncFile" ∷ []) code
        "shellFuncFile" place
    ++ check_execs at code field place (suc k) es

unfoldable pub check_gathers : String → String → ℕ → ℕ → List GatherSpec → List ValidationError
check_gathers at code k i [] = []
check_gathers at code k i (g ∷ gs) =
    check_file g.func_file (at ∷ ".cmds[" ∷ itoa k ∷ "].exec.gather[" ∷ itoa i ∷ "].funcFile" ∷ [])
      code "funcFile" "gather"
    ++ check_gathers at code k (suc i) gs

-- The body of the loop over `Cmds`.
unfoldable pub check_cmd : String → String → ℕ → Cmd → List ValidationError
check_cmd at code k c =
    let path : String → List String = λ rest. at ∷ ".cmds[" ∷ itoa k ∷ rest ∷ [] in
    check_file c.exec.func_file (path "].exec.funcFile") code "funcFile" "cmd"
    ++ check_file c.exec.shell_func_file (path "].exec.shellFuncFile") code "shellFuncFile" "cmd"
    ++ check_file c.std_out_rule.func_file (path "].stdOutRule.funcFile") code "funcFile"
        "stdOutRule"
    ++ check_file c.std_err_rule.func_file (path "].stdErrRule.funcFile") code "funcFile"
        "stdErrRule"
    ++ check_gathers at code k 0 c.exec.gather

unfoldable pub check_cmds : String → String → ℕ → List Cmd → List ValidationError
check_cmds at code k [] = []
check_cmds at code k (c ∷ cs) = check_cmd at code k c ++ check_cmds at code (suc k) cs

-- The part of `Assertion.Validate` under `if isAgent`.
unfoldable pub check_agent : String → Assertion → List ValidationError
check_agent at a =
    check_execs at a.code "preCmds" "preCmd" 0 a.pre_cmds
    ++ check_cmds at a.code 0 a.cmds
    ++ check_execs at a.code "postCmds" "postCmd" 0 a.post_cmds

-- The check of the code in `Assertion.Validate`, with the write to `seenCodes`.
unfoldable pub check_code : String → String → Seen → List ValidationError × Seen
check_code path code seen =
    if is_empty (trim_space code)
    then (
      record { path = path; code = "MISSING_CODE"; message = "assertion code is required" } ∷ [],
      seen,
    )
    else elim (lookup code seen) [
      | some prev ↦ (
        record {
          path = path;
          code = "DUPLICATE_CODE";
          message =
              concat
                ("duplicate assertion code '" ∷ code ∷ "' previously declared at " ∷ prev ∷ []);
        }
            ∷ [],
        seen,
      )
      | none ↦ ([], insert code path seen)
    ]

abbrev pub assertion_path : ℕ → ℕ → String
assertion_path s a = concat ("sections[" ∷ itoa s ∷ "].assertions[" ∷ itoa a ∷ "]" ∷ [])

-- `Assertion.Validate`
unfoldable pub validate_assertion : ℕ → ℕ → Bool → Assertion → Seen → List ValidationError × Seen
validate_assertion s a is_agent x seen =
    let at : String = assertion_path s a in
    let (errs, seen') = check_code (concat (at ∷ ".code" ∷ [])) x.code seen in
    (errs ++ (if is_agent then check_agent at x else []), seen')

unfoldable pub validate_assertions :
    ℕ → ℕ → Bool → List Assertion → Seen → List ValidationError × Seen
validate_assertions s a is_agent [] seen = ([], seen)
validate_assertions s a is_agent (x ∷ xs) seen =
    let (errs, seen') = validate_assertion s a is_agent x seen in
    let (more, seen'') = validate_assertions s (suc a) is_agent xs seen' in (errs ++ more, seen'')

abbrev pub section_path : ℕ → String → String
section_path s rest = concat ("sections[" ∷ itoa s ∷ "]" ∷ rest ∷ [])

-- The second check of `Section.Validate`: an empty section, or the loop over the assertions.
unfoldable pub validate_body : ℕ → Bool → List Assertion → Seen → List ValidationError × Seen
validate_body s is_agent [] seen = (
  record {
    path = section_path s ".assertions";
    code = "EMPTY_ASSERTIONS";
    message = "section must contain at least one assertion";
  }
      ∷ [],
  seen,
)
validate_body s is_agent (x ∷ xs) seen = validate_assertions s 0 is_agent (x ∷ xs) seen

-- `Section.Validate`
unfoldable pub validate_section : ℕ → Bool → Section → Seen → List ValidationError × Seen
validate_section s is_agent x seen =
    let (errs, seen') = validate_body s is_agent x.assertions seen in
    (check_title (section_path s ".title") "section" x.title ++ errs, seen')

unfoldable pub validate_sections : ℕ → Bool → List Section → Seen → List ValidationError × Seen
validate_sections s is_agent [] seen = ([], seen)
validate_sections s is_agent (x ∷ xs) seen =
    let (errs, seen') = validate_section s is_agent x seen in
    let (more, seen'') = validate_sections (suc s) is_agent xs seen' in (errs ++ more, seen'')

unfoldable pub check_https : ReportDestinationConfig → List ValidationError
check_https c =
    (if is_empty (trim_space c.url)
      then record {
        path = "report_destination.https.url";
        code = "MISSING_URL";
        message = "https destination URL is required";
      }
        ∷ []
      else if not (starts_with c.url "https://")
      then record {
        path = "report_destination.https.url";
        code = "INVALID_URL";
        message = "https destination URL must start with https://";
      }
        ∷ []
      else [])
    ++ (if not (is_empty c.format)
          && (not (c.format == format_multipart) && not (c.format == format_json))
        then record {
          path = "report_destination.https.format";
          code = "INVALID_FORMAT";
          message = "report format must be 'json' or 'multipart'";
        }
          ∷ []
        else [])

unfoldable pub check_destination : Playbook → List ValidationError
check_destination p =
    if p.report_destination == destination_https
    then elim p.report_destination_https [
      | none ↦
          record {
            path = "report_destination.https";
            code = "MISSING_HTTPS_CONFIG";
            message = "https configuration is required when report destination is https";
          }
          ∷ []
      | some c ↦ check_https c
    ]
    else if not (is_empty p.report_destination) && not (p.report_destination == destination_folder)
    then record {
      path = "report_destination";
      code = "INVALID_DESTINATION";
      message = "report destination must be 'folder' or 'https'";
    }
      ∷ []
    else []

unfoldable pub check_sections : Bool → List Section → List ValidationError
check_sections is_agent [] =
    record {
      path = "sections";
      code = "EMPTY_SECTIONS";
      message = "playbook must contain at least one section";
    }
    ∷ []
check_sections is_agent (x ∷ xs) = (validate_sections 0 is_agent (x ∷ xs) []).0

-- `Playbook.Validate`: nil stands for no errors, as the empty list does.
unfoldable pub validate : Playbook → Bool → List ValidationError
validate p is_agent =
    check_title "title" "playbook" p.title
    ++ (check_destination p ++ check_sections is_agent p.sections)
