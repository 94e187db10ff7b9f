-- ===== src/Playbook/Validator/Spec.antt =====
-- What a playbook must be, independently of the validator's loops and of its map of seen codes.
use Prim.Native.String.{len}
use crobe.Common.{
  ◌≤◌, ◌≡◌, ◌≢◌, ◌⊎◌, Bool, true, false, Option, none, some, List, [], ◌∷◌, ◌++◌, String, All,
  starts_with,
}
use crobe.Common.Text.{trim_space}
use crobe.Playbook.{
  GatherSpec, Exec, Cmd, Assertion, Section, ReportDestinationConfig, Playbook, destination_folder,
  destination_https, format_multipart, format_json,
}

-- Three bytes at least, without the white space around.
abbrev pub IsTitle : String → Type 0
IsTitle t = 3 ≤ len (trim_space t)

abbrev pub IsNonBlank : String → Type 0
IsNonBlank s = trim_space s ≢ ""

abbrev pub IsInlineExec : Exec → Type 0
IsInlineExec e = (e.func_file ≡ "") × (e.shell_func_file ≡ "")

abbrev pub IsInlineGather : GatherSpec → Type 0
IsInlineGather g = g.func_file ≡ ""

abbrev pub IsInlineCmd : Cmd → Type 0
IsInlineCmd c =
    IsInlineExec c.exec
    × (c.std_out_rule.func_file ≡ "")
    × (c.std_err_rule.func_file ≡ "")
    × All IsInlineGather c.exec.gather

-- No command, rule or gather spec of `cmds` refers to an external file, nor does a command of
-- `preCmds` or `postCmds`. The gather specs of the latter two are not looked at.
abbrev pub IsInlineAssertion : Assertion → Type 0
IsInlineAssertion a =
    All IsInlineExec a.pre_cmds × All IsInlineCmd a.cmds × All IsInlineExec a.post_cmds

-- What the validator asks of an assertion on its own.
abbrev pub IsAssertion : Bool → Assertion → Type 0
IsAssertion true a = IsNonBlank a.code × IsInlineAssertion a
IsAssertion false a = IsNonBlank a.code × Unit

abbrev pub IsSection : Bool → Section → Type 0
IsSection is_agent s =
    IsTitle s.title × (s.assertions ≢ []) × All (IsAssertion is_agent) s.assertions

abbrev pub IsHttpsConfig : ReportDestinationConfig → Type 0
IsHttpsConfig c =
    (starts_with c.url "https://" ≡ true)
    × ((c.format ≡ "") ⊎ ((c.format ≡ format_multipart) ⊎ (c.format ≡ format_json)))

abbrev pub IsHttpsTarget : Option ReportDestinationConfig → Type 0
IsHttpsTarget none = ⊥
IsHttpsTarget (some c) = IsHttpsConfig c

abbrev pub IsDestination : Playbook → Type 0
IsDestination p =
    ((p.report_destination ≡ destination_https) × IsHttpsTarget p.report_destination_https)
    ⊎ ((p.report_destination ≡ "") ⊎ (p.report_destination ≡ destination_folder))

abbrev pub assertion_codes : List Assertion → List String
assertion_codes [] = []
assertion_codes (a ∷ xs) = a.code ∷ assertion_codes xs

abbrev pub all_codes : List Section → List String
all_codes [] = []
all_codes (s ∷ ss) = assertion_codes s.assertions ++ all_codes ss

-- No text stands twice in the list.
abbrev pub Distinct : List String → Type 0
Distinct [] = Unit
Distinct (c ∷ cs) = All (λ d. c ≢ d) cs × Distinct cs

pub record IsWellFormed (is_agent : Bool) (p : Playbook) : Type 0 where
  pub title : IsTitle p.title
  pub destination : IsDestination p
  pub nonempty : p.sections ≢ []
  pub sections : All (IsSection is_agent) p.sections
  pub codes : Distinct (all_codes p.sections)
