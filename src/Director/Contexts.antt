-- ===== src/Director/Contexts.antt =====
-- The assertions of a trace as one list, under the ways in which the run adds to it.
use crobe.Common.{
  ℕ, zero, suc, ◌≡◌, refl, sym, ap, ◌∙◌, ◌⊎◌, inl, inr, List, [], ◌∷◌, ◌++◌, map, if◌then◌else◌,
  ltb, eqb, length, drop, length-append, append_assoc, append-nil, arith, Bool-cases,
}
use crobe.Playbook.{Assertion, Section}
use crobe.Director.{AssertionContext, SectionContext, Event}
use crobe.Director.Assertions.{unrun_context}
use crobe.Director.Unwind.{append_at, open_section, unwind_sections, complete_unrun}

abbrev pub contexts : List SectionContext → List AssertionContext
contexts [] = []
contexts (s ∷ ss) = s.assertions ++ contexts ss

pub length-append_at :
    (i : ℕ) (xs : List AssertionContext) (ss : List SectionContext)
    → length (append_at i xs ss) ≡ length ss
unfolding append_at
length-append_at i xs [] = refl
length-append_at zero xs (s ∷ ss) = refl
length-append_at (suc i) xs (s ∷ ss) = cc (length-append_at i xs ss)

-- What is added to the last section is added at the end.
pub contexts-append_at :
    (i : ℕ) (xs : List AssertionContext) (ss : List SectionContext)
    → length ss ≡ suc i
    → contexts (append_at i xs ss) ≡ contexts ss ++ xs
unfolding append_at
contexts-append_at i xs [] e = absurd (omega arith)
contexts-append_at zero xs (s ∷ []) e =
    append-nil (s.assertions ++ xs) ∙ sym (ap (λ ys. ys ++ xs) (append-nil s.assertions))
contexts-append_at zero xs (s ∷ t ∷ ss) e = absurd (omega arith)
contexts-append_at (suc i) xs (s ∷ ss) e =
    ap (λ ys. s.assertions ++ ys) (contexts-append_at i xs ss (omega arith))
    ∙ sym (append_assoc s.assertions (contexts ss) xs)

pub contexts-open :
    (ss : List SectionContext) (x : Section) → contexts (ss ++ open_section x ∷ []) ≡ contexts ss
contexts-open [] x = refl
contexts-open (s ∷ ss) x = cc (contexts-open ss x)

-- The sections of the trace when `unwindRemaining` comes to section `i`.
abbrev opened : ℕ → Section → List SectionContext → List SectionContext
opened i x ss = if ltb i (length ss) then ss else ss ++ open_section x ∷ []

opened_lem :
    (i : ℕ) (x : Section) (ss : List SectionContext)
    → (length ss ≡ i) ⊎ (length ss ≡ suc i)
    → (length (opened i x ss) ≡ suc i) × (contexts (opened i x ss) ≡ contexts ss)
opened_lem i x ss h = elim (Bool-cases (ltb i (length ss))) [
  | inl e ↦ rw e (ground arith, refl)
  | inr e ↦ rw e (ground (arith, length-append {0} ss (open_section x ∷ [])), contexts-open ss x)
]

-- `unwindRemaining` adds contexts of assertions that have not run, and reports each of them.
pub unwind_adds {ℓ} :
    (P : List AssertionContext → List Event → Type ℓ) (s a i : ℕ) (rest : List Section)
    (ss : List SectionContext)
    → (length ss ≡ i) ⊎ (length ss ≡ suc i)
    → P [] []
    → ((xs : List Assertion) (cs : List AssertionContext) (evs : List Event)
        → P cs evs
        → P (map unrun_context xs ++ cs) (map complete_unrun xs ++ evs))
    → (cs : List AssertionContext) × (contexts (unwind_sections s a i rest ss).0
        ≡ contexts ss ++ cs)
      × P cs (unwind_sections s a i rest ss).1
unfolding unwind_sections
unwind_adds P s a i [] ss h p0 p1 = ([], sym (append-nil (contexts ss)), p0)
unwind_adds P s a i (x ∷ rest) ss h p0 p1 =
    let xs = drop (if eqb i s then a else 0) x.assertions in
    let ss' = append_at i (map unrun_context xs) (opened i x ss) in
    let (long, same) = opened_lem i x ss h in
    let long' : length ss' ≡ suc i =
      length-append_at i (map unrun_context xs) (opened i x ss) ∙ long in
    let (cs, e, p) = unwind_adds P s a (suc i) rest ss' (inl long') p0 p1 in
    (
      map unrun_context xs ++ cs,
      e
          ∙ ap (λ ys. ys ++ cs) (contexts-append_at i (map unrun_context xs) (opened i x ss) long)
          ∙ append_assoc (contexts (opened i x ss)) (map unrun_context xs) cs
          ∙ ap (λ ys. ys ++ (map unrun_context xs ++ cs)) same,
      p1 xs cs (unwind_sections s a (suc i) rest ss').1 p,
    )
