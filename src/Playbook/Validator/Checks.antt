-- ===== src/Playbook/Validator/Checks.antt =====
-- The checks of a title, of the destination and of external files, each against its specification.
use Prim.Native.String.{len}
use crobe.Common.{
  ℕ, suc, ◌≡◌, refl, ◌↔◌, Option, none, some, List, [], ◌∷◌, ◌++◌, String, All, arith, eq_iff,
  append-eq-nil,
}
use crobe.Common.Text.{trim_space, trim_space-https}
use crobe.Playbook.{
  GatherSpec, Exec, Cmd, Assertion, ReportDestinationConfig, Playbook, format_multipart,
  format_json,
}
use crobe.Playbook.Validator.{
  check_title, check_file, check_execs, check_gathers, check_cmd, check_cmds, check_agent,
  check_https, check_destination,
}
use crobe.Playbook.Validator.Spec.{
  IsTitle, IsInlineExec, IsInlineGather, IsInlineCmd, IsInlineAssertion, IsHttpsConfig,
  IsDestination,
}

pub append-nil_iff {ℓ} : {A : Type ℓ} (xs ys : List A) → (xs ++ ys ≡ []) ↔ ((xs ≡ []) × (ys ≡ []))
append-nil_iff xs ys = (append-eq-nil xs ys, λ h. rw (h.0, h.1) refl)

pub iff_trans {ℓ κ μ} : {A : Type ℓ} {B : Type κ} {C : Type μ} → A ↔ B → B ↔ C → A ↔ C
iff_trans p q = (λ a. q.0 (p.0 a), λ c. p.1 (q.1 c))

-- Two lists of errors are both empty exactly when what each checks holds.
pub both_iff {ℓ κ μ} :
    {A : Type ℓ} {P : Type κ} {Q : Type μ} (xs ys : List A)
    → (xs ≡ []) ↔ P
    → (ys ≡ []) ↔ Q
    → (xs ++ ys ≡ []) ↔ (P × Q)
both_iff xs ys p q = (
  λ h. let (a, b) = append-eq-nil xs ys h in (p.0 a, q.0 b),
  λ h. (append-nil_iff xs ys).1 (p.1 h.0, q.1 h.1),
)

len-empty : (s : String) → s ≡ "" → len s ≡ 0
len-empty s h = rw h refl

pub check_title_iff : (path what t : String) → (check_title path what t ≡ []) ↔ IsTitle t
unfolding check_title
check_title_iff path what t = (
  λ h. ground (arith, eq_iff (trim_space t) "", len-empty (trim_space t)),
  λ h. ground (arith, eq_iff (trim_space t) "", len-empty (trim_space t)),
)

check_file_iff :
    (file : String) (path : List String) (code field place : String)
    → (check_file file path code field place ≡ []) ↔ (file ≡ "")
unfolding check_file
check_file_iff file path code field place =
    (λ h. ground (arith, eq_iff file ""), λ h. ground (arith, eq_iff file ""))

check_execs_iff :
    (at code field place : String) (k : ℕ) (es : List Exec)
    → (check_execs at code field place k es ≡ []) ↔ All IsInlineExec es
unfolding check_execs
check_execs_iff at code field place k [] = (λ h. tt, λ h. refl)
check_execs_iff at code field place k (e ∷ es) =
    both_iff _ _
      (both_iff _ _ (check_file_iff e.func_file _ code "funcFile" place)
        (check_file_iff e.shell_func_file _ code "shellFuncFile" place))
      (check_execs_iff at code field place (suc k) es)

check_gathers_iff :
    (at code : String) (k i : ℕ) (gs : List GatherSpec)
    → (check_gathers at code k i gs ≡ []) ↔ All IsInlineGather gs
unfolding check_gathers
check_gathers_iff at code k i [] = (λ h. tt, λ h. refl)
check_gathers_iff at code k i (g ∷ gs) =
    both_iff _ _ (check_file_iff g.func_file _ code "funcFile" "gather")
      (check_gathers_iff at code k (suc i) gs)

check_cmd_iff : (at code : String) (k : ℕ) (c : Cmd) → (check_cmd at code k c ≡ []) ↔ IsInlineCmd c
unfolding check_cmd
check_cmd_iff at code k c =
    iff_trans {C = IsInlineCmd c}
      (both_iff _ _
        (both_iff _ _
          (both_iff _ _
            (both_iff _ _ (check_file_iff c.exec.func_file _ code "funcFile" "cmd")
              (check_file_iff c.exec.shell_func_file _ code "shellFuncFile" "cmd"))
            (check_file_iff c.std_out_rule.func_file _ code "funcFile" "stdOutRule"))
          (check_file_iff c.std_err_rule.func_file _ code "funcFile" "stdErrRule"))
        (check_gathers_iff at code k 0 c.exec.gather))
      (λ h. (h.0.0.0, h.0.0.1, h.0.1, h.1), λ h. (((h.0, h.1), h.2), h.3))

check_cmds_iff :
    (at code : String) (k : ℕ) (cs : List Cmd) → (check_cmds at code k cs ≡ []) ↔ All IsInlineCmd cs
unfolding check_cmds
check_cmds_iff at code k [] = (λ h. tt, λ h. refl)
check_cmds_iff at code k (c ∷ cs) =
    both_iff _ _ (check_cmd_iff at code k c) (check_cmds_iff at code (suc k) cs)

pub check_agent_iff : (at : String) (a : Assertion) → (check_agent at a ≡ []) ↔ IsInlineAssertion a
unfolding check_agent
check_agent_iff at a =
    iff_trans {C = IsInlineAssertion a}
      (both_iff _ _
        (both_iff _ _ (check_execs_iff at a.code "preCmds" "preCmd" 0 a.pre_cmds)
          (check_cmds_iff at a.code 0 a.cmds))
        (check_execs_iff at a.code "postCmds" "postCmd" 0 a.post_cmds))
      (λ h. (h.0.0, h.0.1, h.1), λ h. ((h.0, h.1), h.2))

check_https_iff : (c : ReportDestinationConfig) → (check_https c ≡ []) ↔ IsHttpsConfig c
unfolding check_https
check_https_iff c = (
  λ h.
      ground
        (arith, eq_iff c.format "", eq_iff c.format format_multipart, eq_iff c.format format_json),
  λ h. ground (
    arith,
    trim_space-https c.url h.0,
    eq_iff (trim_space c.url) "",
    eq_iff c.format "",
    eq_iff c.format format_multipart,
    eq_iff c.format format_json,
  ),
)

pub check_destination_iff : (p : Playbook) → (check_destination p ≡ []) ↔ IsDestination p
unfolding check_destination
check_destination_iff p = target p.report_destination_https refl
  where
    d : String
    d = p.report_destination

    target :
        (o : Option ReportDestinationConfig)
        → p.report_destination_https ≡ o
        → (check_destination p ≡ []) ↔ IsDestination p
    target none e = rw e (
      λ h. ground (arith, eq_iff d "https", eq_iff d "", eq_iff d "folder"),
      λ h. ground (
        arith,
        eq_iff d "https",
        eq_iff d "",
        eq_iff d "folder",
        eq_iff "https" "",
        eq_iff "https" "folder",
      ),
    )
    target (some c) e = rw e (
      λ h. ground (arith, eq_iff d "https", eq_iff d "", eq_iff d "folder", (check_https_iff c).0),
      λ h. ground (
        arith,
        eq_iff d "https",
        eq_iff d "",
        eq_iff d "folder",
        eq_iff "https" "",
        eq_iff "https" "folder",
        (check_https_iff c).1,
      ),
    )
