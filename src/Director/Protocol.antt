-- ===== src/Director/Protocol.antt =====
-- What the events of a run tell its observer (director/observer.go, internal/server/events.go).
use crobe.Common.{
  ◌≡◌, refl, ap, ◌∙◌, Bool, true, false, List, [], ◌∷◌, ◌++◌, map, String, map-append, sym,
}
use mathlib.Core.Path.{ap₂, subst}
use crobe.Playbook.{Assertion}
use crobe.Director.{
  AssertionContext, AssertionStatus, Progress, Event, run_start, section_start, assertion_start,
  assertion_complete, log, run_complete, run_cancelled, run_error,
}
use crobe.Director.Outline.{names}
use crobe.Director.Assertions.{unrun_context}
use crobe.Director.Unwind.{complete_unrun}
pub mod Quiet
pub mod Told
pub mod Ordered

-- `AssertionStatus.String`
abbrev pub status_string : AssertionStatus → String
status_string AssertionStatus.pending = "pending"
status_string AssertionStatus.running = "running"
status_string AssertionStatus.passed = "passed"
status_string AssertionStatus.failed = "failed"
status_string AssertionStatus.cancelled = "cancelled"

-- An assertion, its status and its verdict: by its context, and by the calls of `OnAssertionComplete`.
abbrev pub tell : AssertionContext → Assertion × String × Bool
tell c = (c.playbook_assertion, status_string c.status, c.passed)

abbrev pub told : List Event → List (Assertion × String × Bool)
told [] = []
told (run_start i p ∷ es) = told es
told (section_start s i n ∷ es) = told es
told (assertion_start a i n ∷ es) = told es
told (assertion_complete a p ∷ es) = (a, p.status, p.passed) ∷ told es
told (log m ∷ es) = told es
told (run_complete t ∷ es) = told es
told (run_cancelled i t ∷ es) = told es
told (run_error m ∷ es) = told es

-- The events that end a run.
abbrev pub endings : List Event → List Event
endings [] = []
endings (run_start i p ∷ es) = endings es
endings (section_start s i n ∷ es) = endings es
endings (assertion_start a i n ∷ es) = endings es
endings (assertion_complete a p ∷ es) = endings es
endings (log m ∷ es) = endings es
endings (run_complete t ∷ es) = run_complete t ∷ endings es
endings (run_cancelled i t ∷ es) = run_cancelled i t ∷ endings es
endings (run_error m ∷ es) = run_error m ∷ endings es

pub told-append : (es fs : List Event) → told (es ++ fs) ≡ told es ++ told fs
told-append [] fs = refl
told-append (run_start i p ∷ es) fs = told-append es fs
told-append (section_start s i n ∷ es) fs = told-append es fs
told-append (assertion_start a i n ∷ es) fs = told-append es fs
told-append (assertion_complete a p ∷ es) fs =
    ap (λ r. (a, p.status, p.passed) ∷ r) (told-append es fs)
told-append (log m ∷ es) fs = told-append es fs
told-append (run_complete t ∷ es) fs = told-append es fs
told-append (run_cancelled i t ∷ es) fs = told-append es fs
told-append (run_error m ∷ es) fs = told-append es fs

pub endings-append : (es fs : List Event) → endings (es ++ fs) ≡ endings es ++ endings fs
endings-append [] fs = refl
endings-append (run_start i p ∷ es) fs = endings-append es fs
endings-append (section_start s i n ∷ es) fs = endings-append es fs
endings-append (assertion_start a i n ∷ es) fs = endings-append es fs
endings-append (assertion_complete a p ∷ es) fs = endings-append es fs
endings-append (log m ∷ es) fs = endings-append es fs
endings-append (run_complete t ∷ es) fs = ap (λ r. run_complete t ∷ r) (endings-append es fs)
endings-append (run_cancelled i t ∷ es) fs = ap (λ r. run_cancelled i t ∷ r) (endings-append es fs)
endings-append (run_error m ∷ es) fs = ap (λ r. run_error m ∷ r) (endings-append es fs)

-- Events in which each of these assertions is started, perhaps, and then completed, in order: the other
-- list is what they leave.
abbrev pub Follows : List Assertion → List Event → List Assertion → Type 0
Follows xs [] ys = xs ≡ ys
Follows xs (run_start i p ∷ es) ys = Follows xs es ys
Follows xs (section_start s i n ∷ es) ys = Follows xs es ys
Follows xs (assertion_start a i n ∷ es) ys =
    (rest : List Assertion) × (xs ≡ a ∷ rest) × Follows xs es ys
Follows xs (assertion_complete a p ∷ es) ys =
    (rest : List Assertion) × (xs ≡ a ∷ rest) × Follows rest es ys
Follows xs (log m ∷ es) ys = Follows xs es ys
Follows xs (run_complete t ∷ es) ys = Follows xs es ys
Follows xs (run_cancelled i t ∷ es) ys = Follows xs es ys
Follows xs (run_error m ∷ es) ys = Follows xs es ys

pub Follows-append :
    (xs ys ws zs : List Assertion) (es fs : List Event)
    → Follows xs es ws
    → Follows (ws ++ ys) fs zs
    → Follows (xs ++ ys) (es ++ fs) zs
Follows-append xs ys ws zs [] fs h k = rw h k
Follows-append xs ys ws zs (run_start i p ∷ es) fs h k = Follows-append xs ys ws zs es fs h k
Follows-append xs ys ws zs (section_start s i n ∷ es) fs h k = Follows-append xs ys ws zs es fs h k
Follows-append xs ys ws zs (assertion_start a i n ∷ es) fs (rest, e, h) k =
    (rest ++ ys, ap (λ l. l ++ ys) e, Follows-append xs ys ws zs es fs h k)
Follows-append xs ys ws zs (assertion_complete a p ∷ es) fs (rest, e, h) k =
    (rest ++ ys, ap (λ l. l ++ ys) e, Follows-append rest ys ws zs es fs h k)
Follows-append xs ys ws zs (log m ∷ es) fs h k = Follows-append xs ys ws zs es fs h k
Follows-append xs ys ws zs (run_complete t ∷ es) fs h k = Follows-append xs ys ws zs es fs h k
Follows-append xs ys ws zs (run_cancelled i t ∷ es) fs h k = Follows-append xs ys ws zs es fs h k
Follows-append xs ys ws zs (run_error m ∷ es) fs h k = Follows-append xs ys ws zs es fs h k

-- Events that tell of these contexts, end nothing, and follow the order.
abbrev pub Tells : List AssertionContext → List Event → Type 0
Tells cs es = (map tell cs ≡ told es) × (endings es ≡ []) × Follows (names cs) es []

pub Tells-append :
    (cs ds : List AssertionContext) (es fs : List Event)
    → Tells cs es
    → Tells ds fs
    → Tells (cs ++ ds) (es ++ fs)
Tells-append cs ds es fs (t, e, f) (t', e', f') = (
  map-append tell cs ds ∙ ap₂ (λ a b. a ++ b) t t' ∙ sym (told-append es fs),
  endings-append es fs ∙ ap₂ (λ a b. a ++ b) e e',
  subst (λ l. Follows l (es ++ fs) []) (sym (map-append _ cs ds))
      (Follows-append (names cs) (names ds) [] [] es fs f f'),
)

pub unrun-Tells : (xs : List Assertion) → Tells (map unrun_context xs) (map complete_unrun xs)
unrun-Tells [] = (refl, refl, refl)
unrun-Tells (x ∷ xs) =
    let (t, e, f) = unrun-Tells xs in
    (ap (λ r. (x, "cancelled", false) ∷ r) t, e, (names (map unrun_context xs), refl, f))
