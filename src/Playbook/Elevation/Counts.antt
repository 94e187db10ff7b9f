-- ===== src/Playbook/Elevation/Counts.antt =====
-- The sets of `ElevationStats` count what a plain count over the playbook counts.
use Prim.Native.Nat.add
use crobe.Common.{
  ℕ, zero, suc, ◌+◌, ◌<◌, ◌≡◌, ap, ◌∙◌, refl, ◌⊎◌, Bool, true, false, List, [], ◌∷◌, arith, any,
  All, length, ltb, eqb, if◌then◌else◌,
}
use crobe.Playbook.{Exec, Cmd, Assertion}
use crobe.Playbook.Elevation.{
  eqb_pair, add_index, add_key, Tally, mark, visit_execs, visit_cmds, visit_assertion,
  visit_assertions,
}

-- How often `mark` is called.
mark_times : ℕ → ℕ → ℕ → Tally → Tally
mark_times s a zero t = t
mark_times s a (suc n) t = mark_times s a n (mark s a t)

mark_times-add :
    (s a m n : ℕ) (t : Tally) → mark_times s a n (mark_times s a m t) ≡ mark_times s a (m + n) t
unfolding mark_times
mark_times-add s a zero n t = rw (add.zero)
mark_times-add s a (suc m) n t = rw (add.suc) (mark_times-add s a m n (mark s a t))

abbrev count_execs : List Exec → ℕ
count_execs [] = 0
count_execs (e ∷ es) = if e.require_elevation then suc (count_execs es) else count_execs es

abbrev count_cmds : List Cmd → ℕ
count_cmds [] = 0
count_cmds (c ∷ cs) = if c.exec.require_elevation then suc (count_cmds cs) else count_cmds cs

-- The commands of an assertion that need elevation.
abbrev pub count_assertion : Assertion → ℕ
count_assertion a = count_execs a.pre_cmds + (count_cmds a.cmds + count_execs a.post_cmds)

abbrev pub count_assertions : List Assertion → ℕ
count_assertions [] = 0
count_assertions (a ∷ as') = count_assertion a + count_assertions as'

visit_execs-mark_times :
    (s a : ℕ) (es : List Exec) (t : Tally)
    → visit_execs s a es t ≡ mark_times s a (count_execs es) t
unfolding visit_execs mark_times
visit_execs-mark_times s a [] t = refl
visit_execs-mark_times s a (e ∷ es) t =
    ground (arith, visit_execs-mark_times s a es t, visit_execs-mark_times s a es (mark s a t))

visit_cmds-mark_times :
    (s a : ℕ) (cs : List Cmd) (t : Tally) → visit_cmds s a cs t ≡ mark_times s a (count_cmds cs) t
unfolding visit_cmds mark_times
visit_cmds-mark_times s a [] t = refl
visit_cmds-mark_times s a (c ∷ cs) t =
    ground (arith, visit_cmds-mark_times s a cs t, visit_cmds-mark_times s a cs (mark s a t))

visit_assertion-mark_times :
    (s a : ℕ) (x : Assertion) (t : Tally)
    → visit_assertion s a x t ≡ mark_times s a (count_assertion x) t
unfolding visit_assertion
visit_assertion-mark_times s a x t =
    let c : ℕ = count_execs x.pre_cmds in
    let d : ℕ = count_cmds x.cmds in
    let u : Tally = mark_times s a c t in
    ap (λ w. visit_execs s a x.post_cmds (visit_cmds s a x.cmds w))
      (visit_execs-mark_times s a x.pre_cmds t)
    ∙ ap (visit_execs s a x.post_cmds) (visit_cmds-mark_times s a x.cmds u)
    ∙ visit_execs-mark_times s a x.post_cmds (mark_times s a d u)
    ∙ mark_times-add s a d (count_execs x.post_cmds) u
    ∙ mark_times-add s a c (d + count_execs x.post_cmds) t

add_index_idem : (i : ℕ) (l : List ℕ) → add_index i (add_index i l) ≡ add_index i l
unfolding add_index
add_index_idem i l = ground arith

add_key_idem : (k : ℕ × ℕ) (l : List (ℕ × ℕ)) → add_key k (add_key k l) ≡ add_key k l
unfolding add_key
add_key_idem k l = ground arith

-- Marking once or more often enters the section and the assertion once.
mark_times-suc :
    (s a n : ℕ) (t : Tally)
    → mark_times s a (suc n) t ≡ record {
      n_cmds = t.n_cmds + suc n;
      sec_set = add_index s t.sec_set;
      ass_set = add_key (s, a) t.ass_set;
    }
unfolding mark_times mark
mark_times-suc s a zero t = ground arith
mark_times-suc s a (suc n) t =
    rw (mark_times-suc s a n (mark s a t), add_index_idem, add_key_idem) (ground arith)

-- Every index of the set lies below a bound, and every key below a key in the order of the loops.
abbrev pub Below : ℕ → List ℕ → Type 0
Below s = All (λ i. i < s)

abbrev pub KeyLt : ℕ → ℕ → ℕ × ℕ → Type 0
KeyLt s a k = (k.0 < s) ⊎ ((k.0 ≡ s) × (k.1 < a))

abbrev pub KeysBelow : ℕ → ℕ → List (ℕ × ℕ) → Type 0
KeysBelow s a = All (KeyLt s a)

pub fresh_index : (s : ℕ) (l : List ℕ) → Below s l → any (eqb s) l ≡ false
fresh_index s [] h = refl
fresh_index s (i ∷ l) h = ground (arith, fresh_index s l h.1)

fresh_key : (s a : ℕ) (l : List (ℕ × ℕ)) → KeysBelow s a l → any (eqb_pair (s, a)) l ≡ false
fresh_key s a [] h = refl
fresh_key s a (k ∷ l) h = ground (arith, fresh_key s a l h.1)

KeysBelow-suc : (s a : ℕ) (l : List (ℕ × ℕ)) → KeysBelow s a l → KeysBelow s (suc a) l
KeysBelow-suc s a [] h = tt
KeysBelow-suc s a (k ∷ l) h = (ground arith, KeysBelow-suc s a l h.1)

KeysBelow-section : (s a : ℕ) (l : List (ℕ × ℕ)) → KeysBelow s a l → KeysBelow (suc s) 0 l
KeysBelow-section s a [] h = tt
KeysBelow-section s a (k ∷ l) h = (ground arith, KeysBelow-section s a l h.1)

pub Below-suc : (s : ℕ) (l : List ℕ) → Below s l → Below (suc s) l
Below-suc s [] h = tt
Below-suc s (k ∷ l) h = (omega arith, Below-suc s l h.1)

abbrev pub one_if : Bool → ℕ
one_if true = 1
one_if false = 0

-- What one assertion adds: the set of keys grows by one key if the assertion has such a command.
abbrev AfterAssertion : ℕ → ℕ → ℕ → Tally → Tally → Type 0
AfterAssertion s a n t u =
    (u.n_cmds ≡ t.n_cmds + n)
    × (u.sec_set ≡ (if ltb 0 n then add_index s t.sec_set else t.sec_set))
    × (length u.ass_set ≡ length t.ass_set + one_if (ltb 0 n))
    × KeysBelow s (suc a) u.ass_set

mark_times-After :
    (s a n : ℕ) (t : Tally) → KeysBelow s a t.ass_set → AfterAssertion s a n t (mark_times s a n t)
mark_times-After s a zero t h =
    unfold mark_times in (ground arith, refl, ground arith, KeysBelow-suc s a t.ass_set h)
mark_times-After s a (suc n) t h = rw (mark_times-suc s a n t) (
  refl,
  ground arith,
  unfold add_key in rw (fresh_key s a t.ass_set h) (ground arith),
  unfold add_key in rw (fresh_key s a t.ass_set h) (ground arith, KeysBelow-suc s a t.ass_set h),
)

abbrev pub elevated_assertions : List Assertion → ℕ
elevated_assertions [] = 0
elevated_assertions (x ∷ xs) = one_if (ltb 0 (count_assertion x)) + elevated_assertions xs

add_twice :
    (s n m : ℕ) (l : List ℕ)
    → let once = if ltb 0 n then add_index s l else l in
      (if ltb 0 m then add_index s once else once) ≡ (if ltb 0 (n + m) then add_index s l else l)
add_twice s n m l = ground (arith, add_index_idem s l)

abbrev pub AfterAssertions : ℕ → List Assertion → Tally → Tally → Type 0
AfterAssertions s xs t u =
    (u.n_cmds ≡ t.n_cmds + count_assertions xs)
    × (u.sec_set ≡ (if ltb 0 (count_assertions xs) then add_index s t.sec_set else t.sec_set))
    × (length u.ass_set ≡ length t.ass_set + elevated_assertions xs)
    × KeysBelow (suc s) 0 u.ass_set

pub visit_assertions-After :
    (s a : ℕ) (xs : List Assertion) (t : Tally)
    → KeysBelow s a t.ass_set
    → AfterAssertions s xs t (visit_assertions s a xs t)
unfolding visit_assertions
visit_assertions-After s a [] t h =
    (omega arith, refl, omega arith, KeysBelow-section s a t.ass_set h)
visit_assertions-After s a (x ∷ xs) t h =
    let n : ℕ = count_assertion x in
    let u : Tally = visit_assertion s a x t in
    let first : AfterAssertion s a n t u =
      rw (visit_assertion-mark_times s a x t) (mark_times-After s a n t h) in
    let rest : AfterAssertions s xs u (visit_assertions s (suc a) xs u) =
      visit_assertions-After s (suc a) xs u first.3 in
    (
      omega (arith, first.0, rest.0),
      rw (rest.1, first.1) (add_twice s n (count_assertions xs) t.sec_set),
      omega (arith, first.2, rest.2),
      rest.3,
    )
