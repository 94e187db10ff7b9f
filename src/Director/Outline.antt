-- ===== src/Director/Outline.antt =====
-- The outline of a trace, and what `unwindRemaining` does to it.
use mathlib.Core.Path.{ap₂}
use crobe.Common.{
  ℕ, zero, suc, ◌<◌, ◌≡◌, refl, sym, ap, ◌∙◌, ◌⊎◌, List, [], ◌∷◌, ◌++◌, map, if◌then◌else◌, ltb,
  eqb, length, drop, length-append, append-nil, map-append, arith,
}
use crobe.Playbook.{Assertion, Section}
use crobe.Director.{AssertionContext, SectionContext}
use crobe.Director.Assertions.{unrun_context}
use crobe.Director.Unwind.{append_at, open_section, unwind_sections}

-- The assertions that the contexts belong to.
abbrev pub names : List AssertionContext → List Assertion
names = map (λ c. c.playbook_assertion)

-- A section of the trace with the assertions that it lists, and one of the playbook.
abbrev pub shape : List SectionContext → List (Section × List Assertion)
shape = map (λ s. (s.playbook_section, names s.assertions))

abbrev pub outline : List Section → List (Section × List Assertion)
outline = map (λ s. (s, s.assertions))

names-unrun : (xs : List Assertion) → names (map unrun_context xs) ≡ xs
names-unrun [] = refl
names-unrun (x ∷ xs) = cc (names-unrun xs)

pub length-shape : (ss : List SectionContext) → length (shape ss) ≡ length ss
length-shape [] = refl
length-shape (s ∷ ss) = cc (length-shape ss)

-- Appending to the last section of a trace.
pub append_at-last :
    (ss : List SectionContext) (s : SectionContext) (xs : List AssertionContext)
    → append_at (length ss) xs (ss ++ s ∷ [])
      ≡ ss ++ record s { assertions = s.assertions ++ xs } ∷ []
unfolding append_at
append_at-last [] s xs = refl
append_at-last (t ∷ ss) s xs = cc (append_at-last ss s xs)

abbrev unrun_section : Section → SectionContext
unrun_section x = record { playbook_section = x; assertions = map unrun_context x.assertions }

pub shape-concat :
    (ss : List SectionContext) (t : SectionContext) (rest : List (Section × List Assertion))
    → shape (ss ++ t ∷ []) ++ rest ≡ shape ss ++ (t.playbook_section, names t.assertions) ∷ rest
shape-concat [] t rest = refl
shape-concat (s ∷ ss) t rest = cc (shape-concat ss t rest)

-- One such section.
unwind_one :
    (s a i : ℕ) (x : Section) (ss : List SectionContext)
    → length ss ≡ i
    → (s < i) ⊎ (a ≡ 0)
    → append_at i
        (map unrun_context (drop (if eqb i s then a else 0) x.assertions))
        (if ltb i (length ss) then ss else ss ++ open_section x ∷ [])
      ≡ ss ++ unrun_section x ∷ []
unwind_one s a i x ss e k =
    let new : (if ltb i (length ss) then ss else ss ++ open_section x ∷ [])
        ≡ ss ++ open_section x ∷ [] =
      ground arith in
    let all : (if eqb i s then a else 0) ≡ 0 = ground arith in
    rw (new, all, ← e) (append_at-last ss (open_section x) (map unrun_context x.assertions))

-- Sections that the trace does not have yet are entered whole.
pub unwind_later :
    (s a i : ℕ) (rest : List Section) (ss : List SectionContext)
    → length ss ≡ i
    → (s < i) ⊎ (a ≡ 0)
    → shape (unwind_sections s a i rest ss).0 ≡ shape ss ++ outline rest
unfolding unwind_sections
unwind_later s a i [] ss e k = sym (append-nil (shape ss))
unwind_later s a i (x ∷ rest) ss e k =
    let ss' = ss ++ unrun_section x ∷ [] in
    let grown : length ss' ≡ suc i = omega (arith, length-append {0} ss (unrun_section x ∷ [])) in
    rw (unwind_one s a i x ss e k) (
      unwind_later s a (suc i) rest ss' grown (omega arith)
      ∙ shape-concat ss (unrun_section x) (outline rest)
      ∙ ap (λ ys. shape ss ++ (x, ys) ∷ outline rest) (names-unrun x.assertions))

-- The section that was running keeps what it has, and gets the assertions from index `a`.
pub unwind_here :
    (a : ℕ) (x : Section) (rest : List Section) (ss : List SectionContext) (t : SectionContext)
    → t.playbook_section ≡ x
    → names t.assertions ++ drop a x.assertions ≡ x.assertions
    → shape (unwind_sections (length ss) a (length ss) (x ∷ rest) (ss ++ t ∷ [])).0
      ≡ shape ss ++ outline (x ∷ rest)
unfolding unwind_sections
unwind_here a x rest ss t own covered =
    let n = length ss in
    let xs = drop a x.assertions in
    let t' = record t { assertions = t.assertions ++ map unrun_context xs } in
    let longer : length (ss ++ t ∷ []) ≡ suc n = omega (arith, length-append {0} ss (t ∷ [])) in
    let longer' : length (ss ++ t' ∷ []) ≡ suc n = omega (arith, length-append {0} ss (t' ∷ [])) in
    let old : (if ltb n (length (ss ++ t ∷ []))
          then ss ++ t ∷ []
          else (ss ++ t ∷ []) ++ open_section x ∷ [])
        ≡ ss ++ t ∷ [] =
      ground arith in
    let all : (if eqb n n then a else 0) ≡ a = ground arith in
    let listed : names t'.assertions ≡ x.assertions =
      map-append _ t.assertions (map unrun_context xs)
      ∙ ap (λ ys. names t.assertions ++ ys) (names-unrun xs)
      ∙ covered in
    rw (old, all, append_at-last ss t (map unrun_context xs))
      (unwind_later n a (suc n) rest (ss ++ t' ∷ []) longer' (omega arith)
        ∙ shape-concat ss t' (outline rest)
        ∙ ap₂ (λ y ys. shape ss ++ (y, ys) ∷ outline rest) own listed)

pub drop-suc {ℓ} :
    {A : Type ℓ} (a : ℕ) (xs : List A) (y : A) (ys : List A)
    → drop a xs ≡ y ∷ ys
    → drop (suc a) xs ≡ ys
drop-suc zero xs y ys e = rw e refl
drop-suc (suc a) [] y ys e = cc
drop-suc (suc a) (x ∷ xs) y ys e = drop-suc a xs y ys e
