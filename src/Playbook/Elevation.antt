-- ===== src/Playbook/Elevation.antt =====
-- Which commands need elevated rights (playbook/playbook_elevation.go). The two Go maps are sets of
-- indices, kept as lists without repetition.
use crobe.Common.{
  ℕ, suc, ◌+◌, Bool, true, false, ◌&&◌, List, [], ◌∷◌, any, length, ltb, eqb, if◌then◌else◌,
}
use crobe.Playbook.{Exec, Cmd, Assertion, Section, Playbook}
pub mod Counts
pub mod Totals

abbrev pub eqb_pair : ℕ × ℕ → ℕ × ℕ → Bool
eqb_pair (a, b) (c, d) = eqb a c && eqb b d

-- `secSet[i] = struct{}{}` and `assSet[key] = struct{}{}`
unfoldable pub add_index : ℕ → List ℕ → List ℕ
add_index i s = if any (eqb i) s then s else i ∷ s

unfoldable pub add_key : ℕ × ℕ → List (ℕ × ℕ) → List (ℕ × ℕ)
add_key k s = if any (eqb_pair k) s then s else k ∷ s

-- The variables of `ElevationStats`.
pub record Tally : Type 0 where
  pub n_cmds : ℕ
  pub sec_set : List ℕ
  pub ass_set : List (ℕ × ℕ)

-- The body of the three innermost loops, at a command that needs elevation.
unfoldable pub mark : ℕ → ℕ → Tally → Tally
mark s a t = record {
  n_cmds = t.n_cmds + 1;
  sec_set = add_index s t.sec_set;
  ass_set = add_key (s, a) t.ass_set;
}

unfoldable pub visit_execs : ℕ → ℕ → List Exec → Tally → Tally
visit_execs s a [] t = t
visit_execs s a (e ∷ es) t = visit_execs s a es (if e.require_elevation then mark s a t else t)

unfoldable pub visit_cmds : ℕ → ℕ → List Cmd → Tally → Tally
visit_cmds s a [] t = t
visit_cmds s a (c ∷ cs) t = visit_cmds s a cs (if c.exec.require_elevation then mark s a t else t)

unfoldable pub visit_assertion : ℕ → ℕ → Assertion → Tally → Tally
visit_assertion s a ass t =
    visit_execs s a ass.post_cmds (visit_cmds s a ass.cmds (visit_execs s a ass.pre_cmds t))

unfoldable pub visit_assertions : ℕ → ℕ → List Assertion → Tally → Tally
visit_assertions s a [] t = t
visit_assertions s a (x ∷ xs) t = visit_assertions s (suc a) xs (visit_assertion s a x t)

unfoldable pub visit_sections : ℕ → List Section → Tally → Tally
visit_sections s [] t = t
visit_sections s (x ∷ xs) t = visit_sections (suc s) xs (visit_assertions s 0 x.assertions t)

pub record Stats : Type 0 where
  pub n_sections : ℕ
  pub n_assertions : ℕ
  pub n_cmds : ℕ
  pub require_elevation : Bool

-- `ElevationStats`, of a playbook that is not nil
unfoldable pub elevation_stats : Playbook → Stats
elevation_stats p =
    let t = visit_sections 0 p.sections (record { n_cmds = 0; sec_set = []; ass_set = [] }) in
    record {
      n_sections = length t.sec_set;
      n_assertions = length t.ass_set;
      n_cmds = t.n_cmds;
      require_elevation = ltb 0 t.n_cmds;
    }

-- `RequiresElevation`
unfoldable pub requires_elevation : Playbook → Bool
unfolding elevation_stats
requires_elevation p = (elevation_stats p).require_elevation
