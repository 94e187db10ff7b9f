-- ===== src/Transpile/Inline.antt =====
-- What preprocessing leaves: no external file anywhere, and a playbook that the agent accepts exactly when
-- the builder accepts the source.
use mathlib.Core.Path.{subst}
use crobe.Common.{◌≡◌, refl, sym, ◌≢◌, ◌↔◌, true, false, List, [], ◌∷◌, String, All, arith}
use crobe.Common.Result.{
  Result, ok, traverse, Ensures, Ensures-bind, All₂, Ensures-traverse, Ensures-traverse-All,
}
use crobe.Playbook.{GatherSpec, Exec, EvaluationRule, Cmd, Assertion, Section, Playbook}
use crobe.Playbook.Validator.{validate}
use crobe.Playbook.Validator.Spec.{
  IsTitle, IsNonBlank, IsInlineExec, IsInlineGather, IsInlineCmd, IsInlineAssertion, IsAssertion,
  IsSection, assertion_codes, all_codes, Distinct, IsWellFormed,
}
use crobe.Playbook.Validator.Correct.{validate_iff}
use crobe.Transpile.{
  process_gather, process_exec, process_eval_rule, process_cmd, process_assertion, process_section,
  preprocess,
}

-- A command without external files, its gather specs included.
abbrev pub IsBakedExec : Exec → Type 0
IsBakedExec e = IsInlineExec e × All IsInlineGather e.gather

-- An assertion without external files, the gather specs of all its commands included.
abbrev pub IsBakedAssertion : Assertion → Type 0
IsBakedAssertion a = IsInlineAssertion a × All IsBakedExec a.pre_cmds × All IsBakedExec a.post_cmds

-- What a step keeps of its input, and what it makes of it.
abbrev BakesAssertion : Assertion → Assertion → Type 0
BakesAssertion a b = (b.code ≡ a.code) × IsBakedAssertion b

abbrev BakesSection : Section → Section → Type 0
BakesSection s t = (t.title ≡ s.title) × All₂ BakesAssertion s.assertions t.assertions

Baked-Inline : (es : List Exec) → All IsBakedExec es → All IsInlineExec es
Baked-Inline [] h = tt
Baked-Inline (e ∷ es) h = (h.0.0, Baked-Inline es h.1)

-- What the validator looks at, before and after.
IsAssertion-iff :
    (xs ys : List Assertion)
    → All₂ BakesAssertion xs ys
    → All (IsAssertion true) ys ↔ All (IsAssertion false) xs
IsAssertion-iff [] [] h = (λ p. tt, λ p. tt)
IsAssertion-iff [] (y ∷ ys) h = absurd h
IsAssertion-iff (x ∷ xs) [] h = absurd h
IsAssertion-iff (x ∷ xs) (y ∷ ys) h =
    let rest = IsAssertion-iff xs ys h.1 in
    (
      λ p. ((subst IsNonBlank h.0.0 p.0.0, tt), rest.0 p.1),
      λ p. ((subst IsNonBlank (sym h.0.0) p.0.0, h.0.1.0), rest.1 p.1),
    )

assertion_codes-Bakes :
    (xs ys : List Assertion) → All₂ BakesAssertion xs ys → assertion_codes ys ≡ assertion_codes xs
assertion_codes-Bakes [] [] h = refl
assertion_codes-Bakes [] (y ∷ ys) h = absurd h
assertion_codes-Bakes (x ∷ xs) [] h = absurd h
assertion_codes-Bakes (x ∷ xs) (y ∷ ys) h = cc (h.0.0, assertion_codes-Bakes xs ys h.1)

All₂-nil_iff :
    {A B : Type 0} (R : A → B → Type 0) (xs : List A) (ys : List B)
    → All₂ R xs ys
    → (ys ≢ []) ↔ (xs ≢ [])
All₂-nil_iff R [] [] h = (λ p e. p refl, λ p e. p refl)
All₂-nil_iff R [] (y ∷ ys) h = absurd h
All₂-nil_iff R (x ∷ xs) [] h = absurd h
All₂-nil_iff R (x ∷ xs) (y ∷ ys) h = (λ p e. cc, λ p e. cc)

IsSection-iff :
    (ss ts : List Section)
    → All₂ BakesSection ss ts
    → All (IsSection true) ts ↔ All (IsSection false) ss
IsSection-iff [] [] h = (λ p. tt, λ p. tt)
IsSection-iff [] (t ∷ ts) h = absurd h
IsSection-iff (s ∷ ss) [] h = absurd h
IsSection-iff (s ∷ ss) (t ∷ ts) h =
    let rest = IsSection-iff ss ts h.1 in
    let xs = IsAssertion-iff s.assertions t.assertions h.0.1 in
    let nonempty = All₂-nil_iff BakesAssertion s.assertions t.assertions h.0.1 in
    (
      λ p. ((subst IsTitle h.0.0 p.0.0, nonempty.0 p.0.1, xs.0 p.0.2), rest.0 p.1),
      λ p. ((subst IsTitle (sym h.0.0) p.0.0, nonempty.1 p.0.1, xs.1 p.0.2), rest.1 p.1),
    )

all_codes-Bakes : (ss ts : List Section) → All₂ BakesSection ss ts → all_codes ts ≡ all_codes ss
all_codes-Bakes [] [] h = refl
all_codes-Bakes [] (t ∷ ts) h = absurd h
all_codes-Bakes (s ∷ ss) [] h = absurd h
all_codes-Bakes (s ∷ ss) (t ∷ ts) h =
    rw (assertion_codes-Bakes s.assertions t.assertions h.0.1, all_codes-Bakes ss ts h.1) refl

IsWellFormed-iff :
    (p : Playbook) (ts : List Section)
    → All₂ BakesSection p.sections ts
    → IsWellFormed true (record p { sections = ts }) ↔ IsWellFormed false p
IsWellFormed-iff p ts h =
    let ss = IsSection-iff p.sections ts h in
    let nonempty = All₂-nil_iff BakesSection p.sections ts h in
    let codes = all_codes-Bakes p.sections ts h in
    (
      λ w. record {
        title = w.title;
        destination = w.destination;
        nonempty = nonempty.0 w.nonempty;
        sections = ss.0 w.sections;
        codes = subst Distinct codes w.codes;
      },
      λ w. record {
        title = w.title;
        destination = w.destination;
        nonempty = nonempty.1 w.nonempty;
        sections = ss.1 w.sections;
        codes = subst Distinct (sym codes) w.codes;
      },
    )

module _ (transpile : String → Result String) (join_path : String → String → String)
    (base_dir : String) where
  process_gather-Inline :
      (g : GatherSpec) → Ensures IsInlineGather (process_gather transpile join_path base_dir g)
  unfolding process_gather
  process_gather-Inline g = ground arith

  process_exec-Baked :
      (e : Exec) → Ensures IsBakedExec (process_exec transpile join_path base_dir e)
  unfolding process_exec
  process_exec-Baked e = ground (
    arith,
    Ensures-traverse-All IsInlineGather (process_gather transpile join_path base_dir)
        process_gather-Inline e.gather,
  )

  process_eval_rule-Inline :
      (r : EvaluationRule)
      → Ensures (λ q. q.func_file ≡ "") (process_eval_rule transpile join_path base_dir r)
  unfolding process_eval_rule
  process_eval_rule-Inline r = ground arith

  process_cmd-Inline : (c : Cmd) → Ensures IsInlineCmd (process_cmd transpile join_path base_dir c)
  unfolding process_cmd
  process_cmd-Inline c = ground (
    arith,
    process_exec-Baked c.exec,
    process_eval_rule-Inline c.std_out_rule,
    process_eval_rule-Inline c.std_err_rule,
  )

  process_execs-Baked :
      (es : List Exec)
      → Ensures (All IsBakedExec) (traverse (process_exec transpile join_path base_dir) es)
  process_execs-Baked =
      Ensures-traverse-All IsBakedExec (process_exec transpile join_path base_dir)
        process_exec-Baked

  process_cmds-Inline :
      (cs : List Cmd)
      → Ensures (All IsInlineCmd) (traverse (process_cmd transpile join_path base_dir) cs)
  process_cmds-Inline =
      Ensures-traverse-All IsInlineCmd (process_cmd transpile join_path base_dir) process_cmd-Inline

  process_assertion-Bakes :
      (a : Assertion)
      → Ensures (BakesAssertion a) (process_assertion transpile join_path base_dir a)
  unfolding process_assertion
  process_assertion-Bakes a =
      Ensures-bind (All IsBakedExec) (BakesAssertion a) _ _ (process_execs-Baked a.pre_cmds)
        λ pre p.
          Ensures-bind (All IsInlineCmd) (BakesAssertion a) _ _ (process_cmds-Inline a.cmds)
            λ main m.
              Ensures-bind (All IsBakedExec) (BakesAssertion a) _ _
                (process_execs-Baked a.post_cmds)
                λ post q. (refl, ((Baked-Inline pre p, m, Baked-Inline post q), p, q))

  process_section-Bakes :
      (s : Section) → Ensures (BakesSection s) (process_section transpile join_path base_dir s)
  unfolding process_section
  process_section-Bakes s = ground (
    arith,
    Ensures-traverse BakesAssertion (process_assertion transpile join_path base_dir)
        process_assertion-Bakes s.assertions,
  )

  preprocess-Bakes :
      (p : Playbook)
      → Ensures
          (λ q. (q ≡ record p { sections = q.sections }) × All₂ BakesSection p.sections q.sections)
          (preprocess transpile join_path base_dir p)
  unfolding preprocess
  preprocess-Bakes p = ground (
    arith,
    Ensures-traverse BakesSection (process_section transpile join_path base_dir)
        process_section-Bakes p.sections,
  )

  -- If preprocessing succeeds, the agent finds no error in the baked playbook exactly when the builder
  -- finds none in the source.
  pub preprocess_accepted :
      (p q : Playbook)
      → preprocess transpile join_path base_dir p ≡ ok q
      → (validate q true ≡ []) ↔ (validate p false ≡ [])
  preprocess_accepted p q e =
      let (same, bakes) = rw e at (preprocess-Bakes p) in
      let (to, back) = IsWellFormed-iff p q.sections bakes in
      (
        λ h.
            (validate_iff p false).1
              (to (subst (IsWellFormed true) same ((validate_iff q true).0 h))),
        λ h.
            (validate_iff q true).1
              (subst (IsWellFormed true) (sym same) (back ((validate_iff p false).0 h))),
      )
