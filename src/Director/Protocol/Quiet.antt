-- ===== src/Director/Protocol/Quiet.antt =====
-- What one assertion tells the observer: its loops log, and its end is reported once.
use crobe.Common.{
  ℕ, refl, inl, inr, List, [], ◌∷◌, ◌++◌, String, if◌then◌else◌, Bool-cases, if-elim, Option, none,
  some,
}
use crobe.Common.Int.{ℤ, pos, leb_ℤ}
use crobe.Playbook.{get_min_passing_score, Exec, Assertion}
use crobe.Executor.{Host, Context, Outcome}
use crobe.Director.{CommandLog}
use crobe.Director.Commands.{Ran, run_side, run_cmds, timed, error_events}
use crobe.Director.Assertions.{idle, run_assertion, close_assertion}
use crobe.Director.Protocol.{Tells, Tells-append}

error_events-Tells :
    (label code : String) (e : Option String) → Tells [] (error_events label code e)
error_events-Tells label code none = (refl, refl, refl)
error_events-Tells label code (some e) = (refl, refl, refl)

module _ (h : Host) (run_exec : Exec → Context → h.World → Outcome h.World) where
  open h use {World, now, is_cancelled}

  run_side-Tells :
      (label code : String) (score : ℤ) (es : List Exec) (ctx : Context) (w : World)
      → Tells [] (run_side h run_exec label code score es ctx w).events
  unfolding run_side
  run_side-Tells label code score [] ctx w = (refl, refl, refl)
  run_side-Tells label code score (e ∷ es) ctx w =
      let out = (timed h run_exec e ctx (is_cancelled w).1).1 in
      let rest = run_side-Tells label code score es out.context out.world in
      elim (Bool-cases (is_cancelled w).0) [
        | inl q ↦ rw (q, run_side) (refl, refl, refl)
        | inr q ↦
            rw (q, run_side)
              (Tells-append [] [] (error_events label code out.error)
                (run_side h run_exec label code score es out.context out.world).events
                (error_events-Tells label code out.error) rest)
      ]

  close_assertion-Tells :
      (a : Assertion) (start : ℕ) (pre_logs cmd_logs : List CommandLog) (outs : List String)
      (post : Ran World)
      → let r = close_assertion h run_exec a start pre_logs cmd_logs outs post in
        Tells (r.context ∷ []) r.events
  unfolding close_assertion
  close_assertion-Tells a start pre_logs cmd_logs outs post =
      let verdict = leb_ℤ (get_min_passing_score a) post.score in
      elim (Bool-cases post.stopped) [
        | inl q ↦ rw q (refl, refl, ([], refl, refl))
        | inr q ↦ elim (Bool-cases verdict) [
          | inl v ↦ rw (q, v) (refl, refl, ([], refl, refl))
          | inr v ↦ rw (q, v) (refl, refl, ([], refl, refl))
        ]
      ]

  abbrev IsQuiet : Ran World → Type 0
  IsQuiet r = Tells [] r.events

  pub run_assertion-Tells :
      (x : Assertion) (w : World)
      → let r = run_assertion h run_exec x w in Tells (r.context ∷ []) r.events
  unfolding run_assertion
  run_assertion-Tells x w =
      let w0 = (now w).1 in
      let pre = run_side h run_exec "PreCmd" x.code (pos 0) x.pre_cmds [] w0 in
      let main =
        if pre.stopped
        then idle pre
        else run_cmds h run_exec (pos 0) x.cmds pre.context pre.world in
      let post =
        if main.stopped
        then idle main
        else run_side h run_exec "PostCmd" x.code main.score x.post_cmds main.context main.world in
      let quiet_pre : IsQuiet pre = run_side-Tells "PreCmd" x.code (pos 0) x.pre_cmds [] w0 in
      let quiet_post : IsQuiet post =
        if-elim IsQuiet main.stopped (idle main) _ (λ _. (refl, refl, refl))
          (λ _. run_side-Tells "PostCmd" x.code main.score x.post_cmds main.context main.world) in
      let done = close_assertion h run_exec x (now w).0 pre.logs main.logs main.outputs post in
      Tells-append [] (done.context ∷ []) pre.events (post.events ++ done.events) quiet_pre (
        Tells-append [] (done.context ∷ []) post.events done.events quiet_post
          (close_assertion-Tells x (now w).0 pre.logs main.logs main.outputs post))
