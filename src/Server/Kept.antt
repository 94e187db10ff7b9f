-- ===== src/Server/Kept.antt =====
-- A rule for what every step of the server keeps (internal/server): the requests, the loading of what a handler has
-- read, and the goroutines.
use crobe.Common.{
  refl, arith, ◌≡◌, ℕ, true, false, not, ◌||◌, Option, some, List, [], ◌∷◌, String, Option-cases,
  if-elim, and-eq-true, inl, inr,
}
use crobe.Director.{Event}
use crobe.Server.Types.{is_busy}
use crobe.Server.State.{can_mutate}
use crobe.Server.Handlers.{Run, Submission, Server}
use crobe.Server.Observer.{observe}
use crobe.Server.Runs.{finish_setup, finish_run, drop_at}
use crobe.Server.Destination.{Outside}
use crobe.Server.Requests.{Decoders, finish_load}
use crobe.Server.Handlers.{Loaded}
use crobe.Server.Reports.{end_submission}
use crobe.Server.Steps.{
  is_load, load, call, load_next, unovertaken, Step, upload, remote, delete, destination, run,
  cancel, submit, stop, set_up, observed, ran, submitted, at, advance, finish_submission, step,
  steps,
}
use crobe.Server.Asked.{Asked, step-Asked}

module _ {R : Type 0} (o : Outside) (d : Decoders)
    (write_to_folder : String → R → Option String) where
  -- By the goroutines and the submissions, and by the loading of what a handler has read, in the states
  -- of `F`, too.
  pub record Kept (F : Server R → Type 0) (P : Server R → Type 0) : Type 0 where
    pub asked : Asked o d write_to_folder P
    pub load :
        (i : ℕ) (l : Loaded) (s : Server R)
        → F s
        → P s
        → P (finish_load o.abs l (record s { loads = drop_at i s.loads })).1
    pub setup :
        (i : ℕ) (r : Run) (e : Option String) (s : Server R)
        → at i s.runs ≡ some r
        → P s
        → P (finish_setup r e s)
    pub event :
        (i : ℕ) (r : Run) (ev : Event) (s : Server R)
        → at i s.runs ≡ some r
        → P s
        → P (observe r.run_id ev s)
    pub done :
        (i : ℕ) (r : Run) (report : R) (time : ℕ) (s : Server R)
        → at i s.runs ≡ some r
        → P s
        → P (finish_run write_to_folder r report time s)
    pub sent :
        (i : ℕ) (sub : Submission R) (e : Option String) (s : Server R)
        → at i s.submissions ≡ some sub
        → P s
        → P (end_submission i sub e s).1

  -- Whatever a handler has read is loaded in a state of `F`.
  abbrev pub Fits : (F : Server R → Type 0) → List (Step R) → Server R → Type 0
  Fits F [] s = Unit
  Fits F (x ∷ xs) s = (is_load x ≡ true → F s) × Fits F xs (step o d write_to_folder x s)

  abbrev pub Anywhere : Server R → Type 0
  Anywhere s = Unit

  abbrev pub WhereFree : Server R → Type 0
  WhereFree s = is_busy s.state.status ≡ false

  pub Fits-Anywhere : (xs : List (Step R)) (s : Server R) → Fits Anywhere xs s
  Fits-Anywhere [] s = tt
  Fits-Anywhere (x ∷ xs) s = (λ q. tt, Fits-Anywhere xs (step o d write_to_folder x s))

  pub Fits-unovertaken :
      (xs : List (Step R)) (s : Server R)
      → unovertaken o d write_to_folder xs s ≡ true
      → Fits WhereFree xs s
  unfolding unovertaken can_mutate
  Fits-unovertaken [] s h = tt
  Fits-unovertaken (x ∷ xs) s h =
      let (now, later) =
        and-eq-true (not (is_load x) || not (is_busy s.state.status))
          (unovertaken o d write_to_folder xs (step o d write_to_folder x s)) h in
      (λ q. ground arith, Fits-unovertaken xs (step o d write_to_folder x s) later)

  module _ (F : Server R → Type 0) (P : Server R → Type 0) (k : Kept F P) where
    advances :
        (i : ℕ) (f g : Run → Server R) (s : Server R)
        → ((r : Run) → at i s.runs ≡ some r → P (f r))
        → ((r : Run) → at i s.runs ≡ some r → P (g r))
        → P s
        → P (advance o d write_to_folder (at i s.runs) f g s)
    unfolding advance
    advances i f g s a b p = elim (Option-cases (at i s.runs)) [
      | inl n ↦ rw n p
      | inr (r, n) ↦ rw n (if-elim P r.is_elevating (f r) (g r) (λ q. a r n) (λ q. b r n))
    ]

    sends :
        (i : ℕ) (e : Option String) (s : Server R)
        → P s
        → P (finish_submission o d write_to_folder i (at i s.submissions) e s)
    unfolding finish_submission
    sends i e s p = elim (Option-cases (at i s.submissions)) [
      | inl n ↦ rw n p
      | inr (sub, n) ↦ rw n (k.sent i sub e s n p)
    ]

    loads_next :
        (i : ℕ) (s : Server R) → F s → P s → P (load_next o d write_to_folder i (at i s.loads) s)
    unfolding load_next
    loads_next i s f p = elim (Option-cases (at i s.loads)) [
      | inl n ↦ rw n p
      | inr (l, n) ↦ rw n (k.load i l s f p)
    ]

    pub step-Kept :
        (x : Step R) (s : Server R)
        → (is_load x ≡ true → F s)
        → P s
        → P (step o d write_to_folder x s)
    unfolding step
    step-Kept (upload method u) s f p =
        step-Asked o d write_to_folder P k.asked (upload method u) s refl p
    step-Kept (remote method req) s f p =
        step-Asked o d write_to_folder P k.asked (remote method req) s refl p
    step-Kept (delete method) s f p =
        step-Asked o d write_to_folder P k.asked (delete method) s refl p
    step-Kept (destination method req) s f p =
        step-Asked o d write_to_folder P k.asked (destination method req) s refl p
    step-Kept (run method stamp time) s f p =
        step-Asked o d write_to_folder P k.asked (run method stamp time) s refl p
    step-Kept (cancel method) s f p =
        step-Asked o d write_to_folder P k.asked (cancel method) s refl p
    step-Kept (submit method) s f p =
        step-Asked o d write_to_folder P k.asked (submit method) s refl p
    step-Kept stop s f p = step-Asked o d write_to_folder P k.asked stop s refl p
    step-Kept (load i) s f p = loads_next i s (f refl) p
    step-Kept (call i) s f p = step-Asked o d write_to_folder P k.asked (call i) s refl p
    step-Kept (set_up i e) s f p =
        advances i (λ r. finish_setup r e s) (λ r. s) s (λ r n. k.setup i r e s n p) (λ r n. p) p
    step-Kept (observed i ev) s f p =
        advances i (λ r. s) (λ r. observe r.run_id ev s) s (λ r n. p) (λ r n. k.event i r ev s n p)
          p
    step-Kept (ran i report time) s f p =
        advances i (λ r. s) (λ r. finish_run write_to_folder r report time s) s (λ r n. p)
          (λ r n. k.done i r report time s n p) p
    step-Kept (submitted i e) s f p = sends i e s p

    pub steps-Kept :
        (xs : List (Step R)) (s : Server R) → Fits F xs s → P s → P (steps o d write_to_folder xs s)
    unfolding steps
    steps-Kept [] s f p = p
    steps-Kept (x ∷ xs) s f p =
        steps-Kept xs (step o d write_to_folder x s) f.1 (step-Kept x s f.0 p)
