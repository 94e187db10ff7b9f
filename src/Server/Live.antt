-- ===== src/Server/Live.antt =====
-- What the snapshot of a run shows in the end (internal/server/handlers_execution.go), against the trace
-- that the run returns (director/director.go).
use mathlib.Core.Path.{subst, ap₂}
use crobe.Common.{
  ◌≡◌, ◌≢◌, refl, sym, ap, ◌∙◌, Bool, List, [], ◌∷◌, map, String, arith, eq_iff, All,
}
use crobe.Playbook.{Assertion}
use crobe.Playbook.Validator.Spec.{assertion_codes, Distinct}
use crobe.Director.{
  Event, run_start, section_start, assertion_start, assertion_complete, log, run_complete,
  run_cancelled, run_error,
}
use crobe.Director.Protocol.{told, Follows}
use crobe.Server.Types.{AssertionSnapshot}
use crobe.Server.Observer.{update_first, start_snapshot, complete_snapshot}
use crobe.Server.Mirror.{shown_codes, shows}
pub mod Agrees
pub mod Whole

-- What a view shows of an assertion, and what is told of its end.
abbrev pub view : AssertionSnapshot → String × String × Bool
view a = (a.code, a.status, a.passed)

abbrev pub entry : Assertion × String × Bool → String × String × Bool
entry t = (t.0.code, t.1, t.2)

-- The calls of the observer, one after the other.
abbrev pub replay : List Event → List AssertionSnapshot → List AssertionSnapshot
replay [] views = views
replay (ev ∷ es) views = replay es (shows ev views)

-- A view under another code stays.
update_other :
    (code : String) (f : AssertionSnapshot → AssertionSnapshot) (v : AssertionSnapshot)
    (views : List AssertionSnapshot)
    → v.code ≢ code
    → update_first code f (v ∷ views) ≡ v ∷ update_first code f views
unfolding update_first
update_other code f v views ne = ground (arith, eq_iff v.code code)

update_own :
    (code : String) (f : AssertionSnapshot → AssertionSnapshot) (v : AssertionSnapshot)
    (views : List AssertionSnapshot)
    → v.code ≡ code
    → update_first code f (v ∷ views) ≡ f v ∷ views
unfolding update_first
update_own code f v views e = ground (arith, eq_iff v.code code)

-- A view under a code that does not come stays.
replay-other :
    (es : List Event) (xs : List Assertion) (v : AssertionSnapshot) (views : List AssertionSnapshot)
    → Follows xs es []
    → All (λ c. v.code ≢ c) (assertion_codes xs)
    → replay es (v ∷ views) ≡ v ∷ replay es views
replay-other [] xs v views f ne = refl
replay-other (run_start i p ∷ es) xs v views f ne = replay-other es xs v views f ne
replay-other (section_start s i n ∷ es) xs v views f ne = replay-other es xs v views f ne
replay-other (assertion_start x i n ∷ es) xs v views (rest, e, f) ne =
    let ne' : All (λ c. v.code ≢ c) (x.code ∷ assertion_codes rest) =
      subst (λ l. All (λ c. v.code ≢ c) (assertion_codes l)) e ne in
    ap (replay es) (update_other x.code start_snapshot v views ne'.0)
    ∙ replay-other es xs v (update_first x.code start_snapshot views) f ne
replay-other (assertion_complete x p ∷ es) xs v views (rest, e, f) ne =
    let ne' : All (λ c. v.code ≢ c) (x.code ∷ assertion_codes rest) =
      subst (λ l. All (λ c. v.code ≢ c) (assertion_codes l)) e ne in
    ap (replay es) (update_other x.code (complete_snapshot p) v views ne'.0)
    ∙ replay-other es rest v (update_first x.code (complete_snapshot p) views) f ne'.1
replay-other (log m ∷ es) xs v views f ne = replay-other es xs v views f ne
replay-other (run_complete t ∷ es) xs v views f ne = replay-other es xs v views f ne
replay-other (run_cancelled i t ∷ es) xs v views f ne = replay-other es xs v views f ne
replay-other (run_error m ∷ es) xs v views f ne = replay-other es xs v views f ne

-- The first of the views is that of the assertion which is next.
pub replay-told :
    (es : List Event) (xs : List Assertion) (views : List AssertionSnapshot)
    → Follows xs es []
    → shown_codes views ≡ assertion_codes xs
    → Distinct (assertion_codes xs)
    → map view (replay es views) ≡ map entry (told es)
replay-told [] xs [] f e d = refl
replay-told [] xs (v ∷ views) f e d = let e' = rw f at e in absurd (cc)
replay-told (run_start i p ∷ es) xs views f e d = replay-told es xs views f e d
replay-told (section_start s i n ∷ es) xs views f e d = replay-told es xs views f e d
replay-told (assertion_start x i n ∷ es) xs [] (rest, q, f) e d = let e' = rw q at e in absurd (cc)
replay-told (assertion_start x i n ∷ es) xs (v ∷ views) (rest, q, f) e d =
    let e' : v.code ∷ shown_codes views ≡ x.code ∷ assertion_codes rest =
      e ∙ ap assertion_codes q in
    ap (λ l. map view (replay es l)) (update_own x.code start_snapshot v views (cc e'))
    ∙ replay-told es xs (start_snapshot v ∷ views) f e d
replay-told (assertion_complete x p ∷ es) xs [] (rest, q, f) e d = let e' = rw q at e in absurd (cc)
replay-told (assertion_complete x p ∷ es) xs (v ∷ views) (rest, q, f) e d =
    let e' : v.code ∷ shown_codes views ≡ x.code ∷ assertion_codes rest =
      e ∙ ap assertion_codes q in
    let own : v.code ≡ x.code = cc e' in
    let d' : All (λ c. x.code ≢ c) (assertion_codes rest) × Distinct (assertion_codes rest) =
      subst (λ l. Distinct (assertion_codes l)) q d in
    let v' = complete_snapshot p v in
    ap (λ l. map view (replay es l)) (update_own x.code (complete_snapshot p) v views own)
    ∙ ap (map view) (
        replay-other es rest v' views f
          (subst (λ c. All (λ k. c ≢ k) (assertion_codes rest)) (sym own) d'.0))
    ∙ ap₂ (λ c l. (c, p.status, p.passed) ∷ l) own (replay-told es rest views f (cc e') d'.1)
replay-told (log m ∷ es) xs views f e d = replay-told es xs views f e d
replay-told (run_complete t ∷ es) xs views f e d = replay-told es xs views f e d
replay-told (run_cancelled i t ∷ es) xs views f e d = replay-told es xs views f e d
replay-told (run_error m ∷ es) xs views f e d = replay-told es xs views f e d
