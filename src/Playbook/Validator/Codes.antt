-- ===== src/Playbook/Validator/Codes.antt =====
-- The map of seen codes, threaded through the validator, against distinctness of all the codes.
use crobe.Common.{
  ◌≡◌, refl, ◌≢◌, ◌↔◌, none, List, [], ◌∷◌, ◌++◌, String, All, All-append, All-append_left,
  All-append_right, arith, eq_iff, lookup, insert, lookup-insert, append-eq-nil,
}
use crobe.Playbook.Validator.{ValidationError, Seen}
use crobe.Playbook.Validator.Spec.{Distinct}

abbrev pub Fresh : Seen → List String → Type 0
Fresh seen = All (λ c. lookup c seen ≡ none)

abbrev pub Avoids : String → List String → Type 0
Avoids d = All (λ c. c ≢ d)

-- No code of the first list stands in the second.
abbrev Disjoint : List String → List String → Type 0
Disjoint cs = All (λ d. Avoids d cs)

-- A map that knows the keys of another and a list of codes.
abbrev pub Extends : Seen → List String → Seen → Type 0
Extends seen cs seen' =
    (d : String) → (lookup d seen' ≡ none) ↔ ((lookup d seen ≡ none) × Avoids d cs)

Fresh-Extends :
    (seen seen' : Seen) (cs ds : List String)
    → Extends seen cs seen'
    → Fresh seen' ds ↔ (Fresh seen ds × Disjoint cs ds)
Fresh-Extends seen seen' cs [] e = (λ h. (tt, tt), λ h. tt)
Fresh-Extends seen seen' cs (d ∷ ds) e =
    let rest = Fresh-Extends seen seen' cs ds e in
    (
      λ h. let (a, b) = (e d).0 h.0 in let (p, q) = rest.0 h.1 in ((a, p), (b, q)),
      λ h. ((e d).1 (h.0.0, h.1.0), rest.1 (h.0.1, h.1.1)),
    )

-- `c` is before the list, so `c ≢ d` for each `d` of it: the same fact from either side.
Disjoint-cons :
    (c : String) (cs ds : List String)
    → Disjoint (c ∷ cs) ds ↔ (All (λ d. c ≢ d) ds × Disjoint cs ds)
Disjoint-cons c cs [] = (λ h. (tt, tt), λ h. tt)
Disjoint-cons c cs (d ∷ ds) =
    let rest = Disjoint-cons c cs ds in
    (
      λ h. let (p, q) = rest.0 h.1 in ((h.0.0, p), (h.0.1, q)),
      λ h. ((h.0.0, h.1.0), rest.1 (h.0.1, h.1.1)),
    )

Disjoint-nil : (ds : List String) → Disjoint [] ds
Disjoint-nil [] = tt
Disjoint-nil (d ∷ ds) = (tt, Disjoint-nil ds)

Distinct-append :
    (cs ds : List String) → Distinct (cs ++ ds) ↔ (Distinct cs × Distinct ds × Disjoint cs ds)
Distinct-append [] ds = (λ h. (tt, h, Disjoint-nil ds), λ h. h.1)
Distinct-append (c ∷ cs) ds =
    let rest = Distinct-append cs ds in
    (
      λ h.
          let (a, b, e) = rest.0 h.1 in
          (
            (All-append_left _ cs ds h.0, a),
            b,
            (Disjoint-cons c cs ds).1 (All-append_right _ cs ds h.0, e),
          ),
      λ h.
          let (p, q) = (Disjoint-cons c cs ds).0 h.2 in
          (All-append _ cs ds h.0.0 p, rest.1 (h.0.1, h.1, q)),
    )

-- What a pass of the validator over some codes says: it finds nothing exactly when `P` holds of what
-- it looked at and the codes are new and distinct, and then the map knows the codes.
pub record Checks (P : Type 0) (seen : Seen) (cs : List String) (r : List ValidationError × Seen)
    : Type 0 where
  pub sound : r.0 ≡ [] → P × Fresh seen cs × Distinct cs
  pub complete : P → Fresh seen cs → Distinct cs → r.0 ≡ []
  pub extends : r.0 ≡ [] → Extends seen cs r.1

Extends-append :
    (seen s1 s2 : Seen) (cs ds : List String)
    → Extends seen cs s1
    → Extends s1 ds s2
    → Extends seen (cs ++ ds) s2
Extends-append seen s1 s2 cs ds e f d = (
  λ h. let (a, q) = (f d).0 h in let (b, p) = (e d).0 a in (b, All-append _ cs ds p q),
  λ h. (f d).1 ((e d).1 (h.0, All-append_left _ cs ds h.1), All-append_right _ cs ds h.1),
)

-- One pass after another.
pub Checks-append :
    {P Q : Type 0} {seen : Seen} (cs ds : List String) (r1 r2 : List ValidationError × Seen)
    → Checks P seen cs r1
    → Checks Q r1.1 ds r2
    → Checks (P × Q) seen (cs ++ ds) (r1.0 ++ r2.0, r2.1)
Checks-append {seen = seen} cs ds r1 r2 c1 c2 = record {
  sound = λ h.
      let (h1, h2) = append-eq-nil r1.0 r2.0 h in
      let (p, f1, d1) = c1.sound h1 in
      let (q, f2, d2) = c2.sound h2 in
      let (f2', dis) = (Fresh-Extends seen r1.1 cs ds (c1.extends h1)).0 f2 in
      ((p, q), All-append _ cs ds f1 f2', (Distinct-append cs ds).1 (d1, d2, dis));
  complete = λ pq f d.
      let (d1, d2, dis) = (Distinct-append cs ds).0 d in
      let h1 = c1.complete pq.0 (All-append_left _ cs ds f) d1 in
      let h2 =
        c2.complete pq.1
          ((Fresh-Extends seen r1.1 cs ds (c1.extends h1)).1 (All-append_right _ cs ds f, dis))
          d2 in
      rw (h1, h2) refl;
  extends = λ h.
      let (h1, h2) = append-eq-nil r1.0 r2.0 h in
      Extends-append seen r1.1 r2.1 cs ds (c1.extends h1) (c2.extends h2);
}

-- A new key.
pub Extends-insert :
    (c v : String) (seen : Seen) → lookup c seen ≡ none → Extends seen (c ∷ []) (insert c v seen)
Extends-insert c v seen fresh d =
    rw (lookup-insert c d v seen) (λ h. ground (arith, eq_iff c d), λ h. ground (arith, eq_iff c d))
