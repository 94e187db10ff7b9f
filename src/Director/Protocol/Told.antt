-- ===== src/Director/Protocol/Told.antt =====
-- The events of a whole run, against the trace that it returns.
use mathlib.Core.Path.{subst}
use mathlib.Core.Bool.{false≢true}
use crobe.Common.{
  ℕ, suc, ◌+◌, ◌-◌, ◌≡◌, refl, sym, ap, ◌∙◌, ◌⊎◌, inl, inr, Bool, true, false, List, [], ◌∷◌, ◌++◌,
  map, String, if◌then◌else◌, length, drop, length-append, append_assoc, append-nil, arith,
}
use crobe.Playbook.{Exec, Assertion, Section, Playbook}
use crobe.Executor.{Host, Context, Outcome}
use crobe.Director.{Event, assertion_start, section_start, run_complete, run_cancelled}
use crobe.Director.Assertions.{unrun_context}
use crobe.Director.Unwind.{open_section, unwind_remaining, complete_unrun, unwind_sections}
use crobe.Director.Contexts.{
  contexts, contexts-append_at, length-append_at, contexts-open, unwind_adds,
}
use crobe.Director.Protocol.{tell, told, endings, Tells, Tells-append, unrun-Tells}
use crobe.Director.Coverage.{context-names}
use crobe.Director.Protocol.Quiet.{run_assertion-Tells}
use crobe.Director.Steps.{
  asked, ran, entered, assertion_step, section_ran, section_step, count_result_same, looped,
  run_step,
}
use crobe.Director.Run.{
  Machine, Flow, give_up, enter, count_result, run_assertions, begin_section, run_sections,
  complete, first_flow, run_with_observer,
}

module _ (h : Host) (run_exec : Exec → Context → h.World → Outcome h.World) (config : Playbook)
    (run_id : String) where
  open h use {World, now, is_cancelled}

  -- Before a return: `n` sections are entered, and the events tell of the contexts.
  record IsTold (n : ℕ) (fl : Flow World) : Type 0 where
    on : fl.returned ≡ false
    sections : length fl.trace.sections ≡ n
    tells : Tells (contexts fl.trace.sections) fl.events

  -- After one: the cancellation is the last event, and the only one that ends the run.
  record IsOver (last : Event) (fl : Flow World) : Type 0 where
    front : List Event
    events : fl.events ≡ front ++ last ∷ []
    tells : Tells (contexts fl.trace.sections) front

  abbrev Ends : ℕ → Flow World → Type 0
  Ends n fl = IsTold n fl ⊎ (fl.returned ≡ true) × IsOver (run_cancelled run_id fl.trace) fl

  returned-Over :
      (n : ℕ) (fl : Flow World)
      → Ends n fl
      → fl.returned ≡ true
      → (fl.returned ≡ true) × IsOver (run_cancelled run_id fl.trace) fl
  returned-Over n fl (inl c) q = absurd (false≢true (sym c.on ∙ q))
  returned-Over n fl (inr o) q = o

  going-Told : (n : ℕ) (fl : Flow World) → Ends n fl → fl.returned ≡ false → IsTold n fl
  going-Told n fl (inl c) q = c
  going-Told n fl (inr (r, o)) q = absurd (false≢true (sym q ∙ r))

  give_up-Ends :
      (n s a : ℕ) (fl : Flow World)
      → (length fl.trace.sections ≡ s) ⊎ (length fl.trace.sections ≡ suc s)
      → Tells (contexts fl.trace.sections) fl.events
      → Ends n (give_up h run_exec config run_id s a fl)
  unfolding give_up unwind_remaining
  give_up-Ends n s a fl len t =
      let secs = fl.trace.sections in
      let rest = drop s config.sections in
      let (cs, e, p) =
        unwind_adds Tells s a s rest secs len (refl, refl, refl)
          (λ xs cs evs p.
            Tells-append (map unrun_context xs) cs (map complete_unrun xs) evs (unrun-Tells xs)
              p) in
      let evs = (unwind_sections s a s rest secs).1 in
      inr (
        refl,
        record {
          front = fl.events ++ evs;
          events = sym (append_assoc fl.events evs _);
          tells =
              subst (λ ds. Tells ds (fl.events ++ evs)) (sym e)
                (Tells-append (contexts secs) cs fl.events evs t p);
        },
      )

  -- An assertion that has been announced and has run is entered.
  enter-Tells :
      (s total a : ℕ) (y : Assertion) (fl : Flow World)
      → length fl.trace.sections ≡ suc s
      → Tells (contexts fl.trace.sections) fl.events
      → let out = entered h run_exec config run_id total a y fl in
        (length out.trace.sections ≡ suc s) × Tells (contexts out.trace.sections) out.events
  unfolding enter
  enter-Tells s total a y fl len t =
      let r = ran h run_exec config run_id y fl in
      let ss = fl.trace.sections in
      let i = length ss - 1 in
      let start = assertion_start y (suc a) total in
      let (own, ends, follows) = run_assertion-Tells h run_exec y (is_cancelled fl.world).1 in
      let begun : Tells (r.context ∷ []) (start ∷ r.events) = (
        own,
        ends,
        (
          [],
          ap (λ x. x ∷ []) (context-names h run_exec config run_id y (is_cancelled fl.world).1),
          follows,
        ),
      ) in
      (
        length-append_at i (r.context ∷ []) ss ∙ len,
        subst (λ ds. Tells ds ((fl.events ++ start ∷ []) ++ r.events))
            (sym (contexts-append_at i (r.context ∷ []) ss (omega arith)))
            (subst (Tells (contexts ss ++ r.context ∷ []))
              (sym (append_assoc fl.events (start ∷ []) r.events))
              (Tells-append (contexts ss) (r.context ∷ []) fl.events (start ∷ r.events) t begun)),
      )

  run_assertions-Ends :
      (s total a : ℕ) (xs : List Assertion) (fl : Flow World)
      → IsTold (suc s) fl
      → Ends (suc s) (run_assertions h run_exec config run_id s total a xs fl)
  unfolding run_assertions
  run_assertions-Ends s total a [] fl c = inl c
  run_assertions-Ends s total a (y ∷ ys) fl c =
      let r = ran h run_exec config run_id y fl in
      let e = entered h run_exec config run_id total a y fl in
      let (len, t) = enter-Tells s total a y fl c.sections c.tells in
      let (on, same, same_world, same_events) = count_result_same h run_exec config run_id r e in
      assertion_step h run_exec config run_id (Ends (suc s)) s total a y ys fl
        (λ z. give_up-Ends (suc s) s a (asked h run_exec config run_id fl) (inr c.sections) c.tells)
        (λ q. give_up-Ends (suc s) s (suc a) e (inr len) t)
        (λ q.
          run_assertions-Ends s total (suc a) ys (count_result h run_exec config run_id r e)
            (record {
              on = on ∙ unfold enter in c.on;
              sections = ap (λ tr. length tr.sections) same ∙ len;
              tells =
                  subst
                    (λ tr.
                      Tells (contexts tr.sections)
                        (count_result h run_exec config run_id r e).events)
                    (sym same) (subst (Tells (contexts e.trace.sections)) (sym same_events) t);
            }))

  begin-Told :
      (total s : ℕ) (x : Section) (fl : Flow World)
      → IsTold s fl
      → IsTold (suc s) (begin_section h run_exec config run_id x s total fl)
  unfolding begin_section
  begin-Told total s x fl c =
      let ss = fl.trace.sections in
      let evs = fl.events ++ section_start x (suc s) total ∷ [] in
      record {
        on = c.on;
        sections = omega (arith, c.sections, length-append {0} ss (open_section x ∷ []));
        tells =
            subst (λ ds. Tells ds evs) (append-nil (contexts ss) ∙ sym (contexts-open ss x))
              (Tells-append (contexts ss) [] fl.events (section_start x (suc s) total ∷ []) c.tells
                (refl, refl, refl));
      }

  run_sections-Ends :
      (total s : ℕ) (xs : List Section) (fl : Flow World)
      → IsTold s fl
      → Ends (s + length xs) (run_sections h run_exec config run_id total s xs fl)
  unfolding run_sections
  run_sections-Ends total s [] fl c = inl (subst (λ n. IsTold n fl) (omega arith) c)
  run_sections-Ends total s (x ∷ xs) fl c =
      let fl' = asked h run_exec config run_id fl in
      let c' : IsTold s fl' = record { on = c.on; sections = c.sections; tells = c.tells } in
      let n = s + suc (length xs) in
      let r = section_ran h run_exec config run_id total s x fl in
      let out : Ends (suc s) r =
        run_assertions-Ends s (length x.assertions) 0 x.assertions
          (begin_section h run_exec config run_id x s total fl') (begin-Told total s x fl' c') in
      let same : suc s + length xs ≡ n = omega arith in
      section_step h run_exec config run_id (Ends n) total s x xs fl
        (λ z. give_up-Ends n s 0 fl' (inl c.sections) c.tells)
        (λ q. inr (returned-Over (suc s) r out q))
        (λ q.
          subst (λ m. Ends m (run_sections h run_exec config run_id total (suc s) xs r)) same
            (run_sections-Ends total (suc s) xs r (going-Told (suc s) r out q)))

  looped-Ends :
      (m : Machine) (w : World)
      → Ends (length config.sections) (looped h run_exec config run_id m w)
  looped-Ends m w =
      subst (λ n. Ends n (looped h run_exec config run_id m w)) (omega arith)
        (run_sections-Ends (length config.sections) 0 config.sections
          (first_flow h run_exec config run_id m w)
          (record { on = refl; sections = refl; tells = (refl, refl, refl) }))

  complete-Over :
      (n : ℕ) (fl : Flow World)
      → IsTold n fl
      → IsOver
          (run_complete (complete h run_exec config run_id fl).trace)
          (complete h run_exec config run_id fl)
  unfolding complete
  complete-Over n fl c = record { front = fl.events; events = refl; tells = c.tells }

  -- The event that ends a run: the trace is complete, or what was left of it has been cancelled.
  abbrev pub last_event : Flow World → Event
  last_event fl = if fl.returned then run_cancelled run_id fl.trace else run_complete fl.trace

  last-Over :
      (b : Bool) (fl : Flow World)
      → fl.returned ≡ b
      → IsOver (if b then run_cancelled run_id fl.trace else run_complete fl.trace) fl
      → IsOver (last_event fl) fl
  last-Over b fl q o =
      subst (λ c. IsOver (if c then run_cancelled run_id fl.trace else run_complete fl.trace) fl)
        (sym q) o

  complete_same : (fl : Flow World) → (complete h run_exec config run_id fl).returned ≡ fl.returned
  unfolding complete
  complete_same fl = refl

  run-Over :
      (m : Machine) (w : World)
      → let fl = run_with_observer h run_exec config run_id m w in IsOver (last_event fl) fl
  run-Over m w =
      let n = length config.sections in
      let fl = looped h run_exec config run_id m w in
      run_step h run_exec config run_id (λ out. IsOver (last_event out) out) m w
        (λ q. last-Over true fl q (returned-Over n fl (looped-Ends m w) q).1)
        (λ q.
          last-Over false (complete h run_exec config run_id fl) (complete_same fl ∙ q)
            (complete-Over n fl (going-Told n fl (looped-Ends m w) q)))

  -- The same, with the order of the assertions.
  pub run_Tells :
      (m : Machine) (w : World)
      → let fl = run_with_observer h run_exec config run_id m w in
        (front : List Event) × (fl.events ≡ front ++ last_event fl ∷ [])
        × Tells (contexts fl.trace.sections) front
  run_Tells m w = let o = run-Over m w in (o.front, o.events, o.tells)

  -- However a run ends, its last event is the one that ends it, which carries the trace that the run
  -- returns: `run_cancelled` if the run was unwound, `run_complete` if not. No event before it ends the
  -- run, and these report the end of every assertion of the trace, in order, each exactly once, with the
  -- status and the verdict that its context in the trace has.
  pub events_tell :
      (m : Machine) (w : World)
      → let fl = run_with_observer h run_exec config run_id m w in
        (front : List Event) × (fl.events ≡ front ++ last_event fl ∷ [])
        × (map tell (contexts fl.trace.sections) ≡ told front)
        × (endings front ≡ [])
  events_tell m w = let o = run-Over m w in (o.front, o.events, o.tells.0, o.tells.1)
