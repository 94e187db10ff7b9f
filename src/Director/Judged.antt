-- ===== src/Director/Judged.antt =====
-- The two kinds of contexts that a run leaves, and how many of them passed (director/director.go).
use crobe.Common.{
  ℕ, suc, ◌+◌, ◌≡◌, refl, ◌⊎◌, inl, inr, true, false, List, [], ◌∷◌, ◌++◌, map, if◌then◌else◌,
  length, All, arith,
}
use crobe.Common.Int.{pos, ◌≤ℤ◌}
use crobe.Playbook.{Assertion, get_min_passing_score}
use crobe.Director.{AssertionStatus, AssertionContext}
use crobe.Director.Assertions.{unrun_context}

-- An assertion that has run to its end: it passed exactly when its score reaches the threshold of the
-- playbook.
abbrev pub IsJudged : AssertionContext → Type 0
IsJudged c =
    (c.min_score ≡ get_min_passing_score c.playbook_assertion)
    × (((c.status ≡ AssertionStatus.passed) × (c.passed ≡ true) × (c.min_score ≤ℤ c.score))
        ⊎ ((c.status ≡ AssertionStatus.failed) × (c.passed ≡ false) × ¬ (c.min_score ≤ℤ c.score)))

-- One that was interrupted or has not run: it has not passed, and shows no score and no context.
abbrev pub IsCancelled : AssertionContext → Type 0
IsCancelled c =
    (c.status ≡ AssertionStatus.cancelled)
    × (c.passed ≡ false)
    × (c.score ≡ pos 0)
    × (c.context ≡ [])

abbrev pub count_passed : List AssertionContext → ℕ
count_passed [] = 0
count_passed (c ∷ cs) = let rest = count_passed cs in if c.passed then suc rest else rest

abbrev pub count_failed : List AssertionContext → ℕ
count_failed [] = 0
count_failed (c ∷ cs) = let rest = count_failed cs in if c.passed then rest else suc rest

pub count_passed-concat :
    (cs : List AssertionContext) (c : AssertionContext)
    → count_passed (cs ++ c ∷ []) ≡ count_passed cs + (if c.passed then 1 else 0)
count_passed-concat [] c = ground arith
count_passed-concat (d ∷ cs) c = ground (arith, count_passed-concat cs c)

pub count_failed-concat :
    (cs : List AssertionContext) (c : AssertionContext)
    → count_failed (cs ++ c ∷ []) ≡ count_failed cs + (if c.passed then 0 else 1)
count_failed-concat [] c = ground arith
count_failed-concat (d ∷ cs) c = ground (arith, count_failed-concat cs c)

pub count_all : (cs : List AssertionContext) → count_passed cs + count_failed cs ≡ length cs
count_all [] = refl
count_all (c ∷ cs) = ground (arith, count_all cs)

-- Every context is of the one kind or of the other.
abbrev pub IsFinal : AssertionContext → Type 0
IsFinal c = IsJudged c ⊎ IsCancelled c

pub Judged-Final : (cs : List AssertionContext) → All IsJudged cs → All IsFinal cs
Judged-Final [] h = tt
Judged-Final (c ∷ cs) h = (inl h.0, Judged-Final cs h.1)

pub unrun-Final : (xs : List Assertion) → All IsFinal (map unrun_context xs)
unrun-Final [] = tt
unrun-Final (x ∷ xs) = (inr (refl, refl, refl, refl), unrun-Final xs)
