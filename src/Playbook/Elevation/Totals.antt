-- ===== src/Playbook/Elevation/Totals.antt =====
-- `ElevationStats` over the whole playbook: the sizes of its sets against a plain count.
use crobe.Common.{
  ℕ, suc, ◌+◌, ◌≡◌, List, [], ◌∷◌, arith, length, ltb, if◌then◌else◌, Bool-cases, inl, inr,
}
use crobe.Playbook.{Section, Playbook}
use crobe.Playbook.Elevation.{add_index, Tally, visit_assertions, visit_sections, elevation_stats}
use crobe.Playbook.Elevation.Counts.{
  count_assertions, elevated_assertions, one_if, Below, Below-suc, fresh_index, KeysBelow,
  AfterAssertions, visit_assertions-After,
}

-- The commands, the assertions and the sections that hold a command which needs elevation.
abbrev pub count_sections : List Section → ℕ
count_sections [] = 0
count_sections (x ∷ xs) = count_assertions x.assertions + count_sections xs

abbrev pub elevated_in_sections : List Section → ℕ
elevated_in_sections [] = 0
elevated_in_sections (x ∷ xs) = elevated_assertions x.assertions + elevated_in_sections xs

abbrev pub elevated_sections : List Section → ℕ
elevated_sections [] = 0
elevated_sections (x ∷ xs) = one_if (ltb 0 (count_assertions x.assertions)) + elevated_sections xs

when_add :
    (s n : ℕ) (l : List ℕ)
    → Below s l
    → let l' = if ltb 0 n then add_index s l else l in
      (length l' ≡ length l + one_if (ltb 0 n)) × Below (suc s) l'
unfolding add_index
when_add s n l h = rw (fresh_index s l h) (elim (Bool-cases (ltb 0 n)) [
  | inl e ↦ rw e (omega arith, (omega arith, Below-suc s l h))
  | inr e ↦ rw e (omega arith, Below-suc s l h)
])

visit_sections_counts :
    (s : ℕ) (xs : List Section) (t : Tally)
    → Below s t.sec_set
    → KeysBelow s 0 t.ass_set
    → let u = visit_sections s xs t in
      (u.n_cmds ≡ t.n_cmds + count_sections xs)
      × (length u.sec_set ≡ length t.sec_set + elevated_sections xs)
      × (length u.ass_set ≡ length t.ass_set + elevated_in_sections xs)
unfolding visit_sections
visit_sections_counts s [] t b k = omega arith
visit_sections_counts s (x ∷ xs) t b k =
    let u : Tally = visit_assertions s 0 x.assertions t in
    let first : AfterAssertions s x.assertions t u = visit_assertions-After s 0 x.assertions t k in
    let n : ℕ = count_assertions x.assertions in
    let grown : (length u.sec_set ≡ length t.sec_set + one_if (ltb 0 n)) × Below (suc s) u.sec_set =
      rw (first.1) (when_add s n t.sec_set b) in
    let rest = visit_sections_counts (suc s) xs u grown.1 first.3 in
    (omega (arith, first.0, rest.0), omega (arith, grown.0, rest.1), omega (arith, first.2, rest.2))

-- The sizes of the sets of `ElevationStats` are the numbers of sections and of assertions that hold a
-- command with the flag, `nCmds` is the number of those commands, and elevation is required exactly
-- when there is one.
pub elevation_stats_counts :
    (p : Playbook)
    → elevation_stats p ≡ record {
      n_sections = elevated_sections p.sections;
      n_assertions = elevated_in_sections p.sections;
      n_cmds = count_sections p.sections;
      require_elevation = ltb 0 (count_sections p.sections);
    }
unfolding elevation_stats
elevation_stats_counts p = ground (
  arith,
  visit_sections_counts 0 p.sections (record { n_cmds = 0; sec_set = []; ass_set = [] }) tt tt,
)
