-- ===== src/Director/Hidden.antt =====
-- What a trace does not show: what is marked `excludeFromReport` (director/director.go).
use crobe.Common.{
  false, Option, arith, Bool, any, ◌++◌, ℕ, ◌≡◌, refl, ap, ◌∙◌, true, none, List, [], ◌∷◌, String,
  if◌then◌else◌, ◌==◌, lookup, All, Bool-cases, ◌||◌, ◌&&◌, inl, inr, eq_iff, if-elim,
}
use mathlib.Core.Path.{ap₂}
use crobe.Playbook.{GatherSpec, Cmd, Exec, Assertion, Playbook}
use crobe.Executor.{Value, Host, Context, Outcome}
use crobe.Director.Commands.{Ran}
use crobe.Director.{CommandLog, AssertionContext}
use crobe.Director.Assertions.{
  excluded_of, excluded_execs, excluded_cmds, run_assertion, close_assertion, excluded_keys, is_key,
  report_context,
}
use crobe.Director.Contexts.{contexts}
use crobe.Director.Every.{contexts-Every}
use crobe.Director.Run.{Machine, run_with_observer}

-- The copy of the context lacks the excluded keys, and has every other key as it was.
pub lookup-report_context :
    (ks : List String) (ctx : Context) (k : String)
    → lookup k (report_context ks ctx) ≡ (if is_key ks k then none else lookup k ctx)
unfolding report_context
lookup-report_context ks [] k =
    if-elim (λ o. none ≡ o) (is_key ks k) none none (λ _. refl) (λ _. refl)
lookup-report_context ks ((j, v) ∷ ctx) k =
    let ih = lookup-report_context ks ctx k in
    elim (Bool-cases (j == k)) [
      | inl q ↦
          let same : is_key ks j ≡ is_key ks k = ap (is_key ks) ((eq_iff j k).0 q) in
          elim (Bool-cases (is_key ks k)) [
            | inl e ↦ rw (same ∙ e, e, ih) (rw e refl)
            | inr e ↦ rw (same ∙ e, e, q) refl
          ]
      | inr q ↦ elim (Bool-cases (is_key ks j)) [ inl e ↦ rw (e, q) ih | inr e ↦ rw (e, q) ih ]
    ]

-- Whether a gather spec with the key is marked `excludeFromReport`, and whether an assertion has one.
abbrev marks : String → List GatherSpec → Bool
marks k gs = any (λ g. g.exclude_from_report && g.key == k) gs

abbrev pub is_marked : Assertion → String → Bool
is_marked a k =
    any (λ (e : Exec). marks k e.gather) a.pre_cmds
    || (any (λ (c : Cmd). marks k c.exec.gather) a.cmds
        || any (λ (e : Exec). marks k e.gather) a.post_cmds)

is_key-append :
    (xs ys : List String) (k : String) → is_key (xs ++ ys) k ≡ (is_key xs k || is_key ys k)
is_key-append [] ys k = refl
is_key-append (x ∷ xs) ys k = ground (arith, is_key-append xs ys k)

is_key-excluded_of : (gs : List GatherSpec) (k : String) → is_key (excluded_of gs) k ≡ marks k gs
is_key-excluded_of [] k = refl
is_key-excluded_of (g ∷ gs) k = elim (Bool-cases g.exclude_from_report) [
  | inl e ↦ rw e (ap (λ b. (g.key == k) || b) (is_key-excluded_of gs k))
  | inr e ↦ rw e (is_key-excluded_of gs k)
]

is_key-excluded_execs :
    (es : List Exec) (k : String)
    → is_key (excluded_execs es) k ≡ any (λ (e : Exec). marks k e.gather) es
is_key-excluded_execs [] k = refl
is_key-excluded_execs (e ∷ es) k =
    is_key-append (excluded_of e.gather) (excluded_execs es) k
    ∙ ap₂ (λ a b. a || b) (is_key-excluded_of e.gather k) (is_key-excluded_execs es k)

is_key-excluded_cmds :
    (cs : List Cmd) (k : String)
    → is_key (excluded_cmds cs) k ≡ any (λ (c : Cmd). marks k c.exec.gather) cs
is_key-excluded_cmds [] k = refl
is_key-excluded_cmds (c ∷ cs) k =
    is_key-append (excluded_of c.exec.gather) (excluded_cmds cs) k
    ∙ ap₂ (λ a b. a || b) (is_key-excluded_of c.exec.gather k) (is_key-excluded_cmds cs k)

is_key-excluded_keys : (a : Assertion) (k : String) → is_key (excluded_keys a) k ≡ is_marked a k
unfolding excluded_keys
is_key-excluded_keys a k =
    is_key-append (excluded_execs a.pre_cmds) (excluded_cmds a.cmds ++ excluded_execs a.post_cmds) k
    ∙ ap₂ (λ x y. x || y) (is_key-excluded_execs a.pre_cmds k)
        (is_key-append (excluded_cmds a.cmds) (excluded_execs a.post_cmds) k
          ∙ ap₂ (λ x y. x || y) (is_key-excluded_cmds a.cmds k)
              (is_key-excluded_execs a.post_cmds k))

-- What a context shows for a key: nothing, if the key is marked.
abbrev pub Hides : String → AssertionContext → Type 0
Hides k c =
    lookup k c.context ≡ (if is_marked c.playbook_assertion k then none else lookup k c.context)

hidden : (b : Bool) (o : Option Value) → (b ≡ true → o ≡ none) → o ≡ (if b then none else o)
hidden true o h = h refl
hidden false o h = refl

module _ (h : Host) (run_exec : Exec → Context → h.World → Outcome h.World) (config : Playbook)
    (run_id : String) where
  open h use {World}

  close_assertion-Hides :
      (k : String) (a : Assertion) (start : ℕ) (pre_logs cmd_logs : List CommandLog)
      (outs : List String) (post : Ran World)
      → Hides k (close_assertion h run_exec a start pre_logs cmd_logs outs post).context
  unfolding close_assertion
  close_assertion-Hides k a start pre_logs cmd_logs outs post =
      if-elim (Hides k) post.stopped _ _ (λ q. hidden (is_marked a k) none (λ e. refl))
        (λ q.
          hidden (is_marked a k) (lookup k (report_context (excluded_keys a) post.context)) (λ e.
            lookup-report_context (excluded_keys a) post.context k
            ∙ rw (is_key-excluded_keys a k ∙ e) refl))

  run_assertion-Hides :
      (k : String) (x : Assertion) (w : World) → Hides k (run_assertion h run_exec x w).context
  unfolding run_assertion
  run_assertion-Hides k x w = close_assertion-Hides k x (h.now w).0 _ _ _ _

  -- No context of a trace has an entry for a key that a gather spec of its assertion's commands,
  -- preparations or cleanups excludes from the report, whatever the scripts put into the context.
  pub excluded_keys_hidden :
      (k : String) (m : Machine) (w : World)
      → All
          (λ c.
            lookup k c.context
            ≡ (if is_marked c.playbook_assertion k then none else lookup k c.context))
          (contexts (run_with_observer h run_exec config run_id m w).trace.sections)
  excluded_keys_hidden k =
      contexts-Every h run_exec config run_id (Hides k) (run_assertion-Hides k)
        (λ x. hidden (is_marked x k) none (λ e. refl))
