-- ===== src/Director/Redacted.antt =====
-- The outputs of commands that are marked `excludeFromReport` (director/director.go).
use mathlib.Core.Bool.{false≢true}
use crobe.Common.{
  false, Bool, if◌then◌else◌, all, and-eq-true, ℕ, ◌≡◌, refl, true, Option, none, some, List, [],
  ◌∷◌, String, All, All-append, Bool-cases, inl, inr, if-elim,
}
use crobe.Common.Int.{ℤ, pos}
use crobe.Playbook.{Exec, Cmd, Assertion, Playbook}
use crobe.Executor.{Host, Context, Outcome}
use crobe.Director.{AssertionContext, CommandLog}
use crobe.Director.Commands.{Ran, redacted, command_outputs, run_side, run_cmds, timed, settle}
use crobe.Director.Assertions.{run_assertion, close_assertion, idle}
use crobe.Director.Contexts.{contexts}
use crobe.Director.Every.{contexts-Every}
use crobe.Director.Run.{Machine, run_with_observer}

abbrev pub IsExcluded : Cmd → Type 0
IsExcluded c = c.exec.exclude_from_report ≡ true

abbrev pub IsRedacted : String → Type 0
IsRedacted out = out ≡ redacted

-- Whether every main command is excluded.
abbrev pub all_excluded : Assertion → Bool
all_excluded a = all (λ (c : Cmd). c.exec.exclude_from_report) a.cmds

all-IsExcluded :
    (cs : List Cmd) → all (λ (c : Cmd). c.exec.exclude_from_report) cs ≡ true → All IsExcluded cs
all-IsExcluded [] e = tt
all-IsExcluded (c ∷ cs) e =
    let (x, xs) = and-eq-true c.exec.exclude_from_report _ e in (x, all-IsExcluded cs xs)

redact :
    (b : Bool) (outs : List String)
    → (b ≡ true → All IsRedacted outs)
    → All (λ out. out ≡ (if b then redacted else out)) outs
redact true outs h = h refl
redact false [] h = tt
redact false (o ∷ outs) h = (refl, redact false outs (λ e. absurd (false≢true e)))

-- The outputs of a context, redacted if every main command is excluded.
abbrev pub Redacts : AssertionContext → Type 0
Redacts c =
    All (λ out. out ≡ (if all_excluded c.playbook_assertion then redacted else out)) c.outputs

module _ (h : Host) (run_exec : Exec → Context → h.World → Outcome h.World) where
  open h use {World, now, is_cancelled}

  settle-Redacted :
      (c : Cmd) (score : ℤ) (out : Outcome World) (e : Option String)
      → IsExcluded c
      → All IsRedacted (settle h run_exec c score out e).0
  unfolding settle command_outputs
  settle-Redacted c score out (some e) x = tt
  settle-Redacted c score out none x = rw x (refl, tt)

  run_cmds-Redacted :
      (score : ℤ) (cs : List Cmd) (ctx : Context) (w : World)
      → All IsExcluded cs
      → All IsRedacted (run_cmds h run_exec score cs ctx w).outputs
  unfolding run_cmds
  run_cmds-Redacted score [] ctx w x = tt
  run_cmds-Redacted score (c ∷ cs) ctx w x =
      let out = (timed h run_exec c.exec ctx (is_cancelled w).1).1 in
      let (outs, score', ctx', w') = settle h run_exec c score out out.error in
      let rest = run_cmds-Redacted score' cs ctx' w' x.1 in
      elim (Bool-cases (is_cancelled w).0) [
        | inl e ↦ rw (e, run_cmds) tt
        | inr e ↦
            rw (e, run_cmds)
              (All-append IsRedacted outs (run_cmds h run_exec score' cs ctx' w').outputs
                (settle-Redacted c score out out.error x.0) rest)
      ]

  close_assertion-Redacts :
      (a : Assertion) (start : ℕ) (pre_logs cmd_logs : List CommandLog) (outs : List String)
      (post : Ran World)
      → (all_excluded a ≡ true → All IsRedacted outs)
      → Redacts (close_assertion h run_exec a start pre_logs cmd_logs outs post).context
  unfolding close_assertion
  close_assertion-Redacts a start pre_logs cmd_logs outs post r =
      if-elim Redacts post.stopped _ _ (λ e. redact (all_excluded a) outs r)
        (λ e. redact (all_excluded a) outs r)

  run_assertion-Redacts :
      (x : Assertion) (w : World) → Redacts (run_assertion h run_exec x w).context
  unfolding run_assertion
  run_assertion-Redacts x w =
      let pre = run_side h run_exec "PreCmd" x.code (pos 0) x.pre_cmds [] (now w).1 in
      close_assertion-Redacts x (now w).0 _ _ _ _ (λ all.
        if-elim (λ (r : Ran World). All IsRedacted r.outputs) pre.stopped (idle pre)
          (run_cmds h run_exec (pos 0) x.cmds pre.context pre.world) (λ e. tt)
          (λ e. run_cmds-Redacted (pos 0) x.cmds pre.context pre.world (all-IsExcluded x.cmds all)))

module _ (h : Host) (run_exec : Exec → Context → h.World → Outcome h.World) (config : Playbook)
    (run_id : String) where
  open h use {World}

  -- In every context of a trace, if all main commands of the assertion are excluded from the report,
  -- every output is the text that stands for a redacted one, whatever the commands print.
  pub outputs_redacted :
      (m : Machine) (w : World)
      → All Redacts (contexts (run_with_observer h run_exec config run_id m w).trace.sections)
  outputs_redacted =
      contexts-Every h run_exec config run_id Redacts (run_assertion-Redacts h run_exec) (λ x. tt)
