-- ===== src/Playbook/Validator/Correct.antt =====
-- `Playbook.Validate` returns no error exactly for the playbooks that meet the specification.
use crobe.Common.{
  ℕ, suc, ◌≡◌, refl, ◌≢◌, ◌↔◌, Bool, true, false, none, List, [], ◌∷◌, ◌++◌, String, All, arith,
  eq_iff, lookup, insert, append-eq-nil,
}
use crobe.Common.Text.{trim_space, concat}
use crobe.Playbook.{Assertion, Section, Playbook}
use crobe.Playbook.Validator.{
  Seen, check_title, check_agent, check_code, assertion_path, section_path, validate_assertion,
  validate_assertions, validate_body, validate_section, validate_sections, check_destination,
  check_sections, validate,
}
use crobe.Playbook.Validator.Spec.{
  IsNonBlank, IsAssertion, IsSection, assertion_codes, all_codes, Distinct, IsWellFormed,
}
use crobe.Playbook.Validator.Checks.{check_title_iff, check_agent_iff, check_destination_iff}
use crobe.Playbook.Validator.Codes.{Fresh, Checks, Checks-append, Extends-insert}

check_code_clean :
    (path code : String) (seen : Seen)
    → (check_code path code seen).0 ≡ []
    → ((check_code path code seen).1 ≡ insert code path seen) × (lookup code seen ≡ none)
unfolding check_code
check_code_clean path code seen h = ground arith

check_code-Checks :
    (path code : String) (seen : Seen)
    → Checks (IsNonBlank code) seen (code ∷ []) (check_code path code seen)
unfolding check_code
check_code-Checks path code seen = record {
  sound = λ h. (ground (arith, eq_iff (trim_space code) ""), (ground arith, tt), (tt, tt));
  complete = λ p f d. ground (arith, eq_iff (trim_space code) "");
  extends = λ h.
      let (e, fresh) = check_code_clean path code seen h in
      rw e (Extends-insert code path seen fresh);
}

validate_assertion-Checks :
    (s a : ℕ) (is_agent : Bool) (x : Assertion) (seen : Seen)
    → Checks (IsAssertion is_agent x) seen (x.code ∷ []) (validate_assertion s a is_agent x seen)
unfolding validate_assertion
validate_assertion-Checks s a true x seen =
    let at : String = assertion_path s a in
    let path : String = concat (at ∷ ".code" ∷ []) in
    let c = check_code-Checks path x.code seen in
    record {
      sound = λ h.
          let (h1, h2) = append-eq-nil (check_code path x.code seen).0 (check_agent at x) h in
          let (p, f, d) = c.sound h1 in ((p, (check_agent_iff at x).0 h2), f, d);
      complete = λ p f d. rw (c.complete p.0 f d, (check_agent_iff at x).1 p.1) refl;
      extends =
          λ h. c.extends (append-eq-nil (check_code path x.code seen).0 (check_agent at x) h).0;
    }
validate_assertion-Checks s a false x seen =
    let path : String = concat (assertion_path s a ∷ ".code" ∷ []) in
    let c = check_code-Checks path x.code seen in
    record {
      sound = λ h.
          let (p, f, d) = c.sound (append-eq-nil (check_code path x.code seen).0 [] h).0 in
          ((p, tt), f, d);
      complete = λ p f d. rw (c.complete p.0 f d) refl;
      extends = λ h. c.extends (append-eq-nil (check_code path x.code seen).0 [] h).0;
    }

nothing-Checks : (seen : Seen) → Checks Unit seen [] ([], seen)
nothing-Checks seen = record {
  sound = λ h. (tt, tt, tt);
  complete = λ p f d. refl;
  extends = λ h d. (λ e. (e, tt), λ e. e.0);
}

validate_assertions-Checks :
    (s a : ℕ) (is_agent : Bool) (xs : List Assertion) (seen : Seen)
    → Checks
        (All (IsAssertion is_agent) xs)
        seen
        (assertion_codes xs)
        (validate_assertions s a is_agent xs seen)
unfolding validate_assertions
validate_assertions-Checks s a is_agent [] seen = nothing-Checks seen
validate_assertions-Checks s a is_agent (x ∷ xs) seen =
    let r1 = validate_assertion s a is_agent x seen in
    Checks-append (x.code ∷ []) (assertion_codes xs) r1
      (validate_assertions s (suc a) is_agent xs r1.1)
      (validate_assertion-Checks s a is_agent x seen)
      (validate_assertions-Checks s (suc a) is_agent xs r1.1)

validate_body-Checks :
    (s : ℕ) (is_agent : Bool) (xs : List Assertion) (seen : Seen)
    → Checks
        ((xs ≢ []) × All (IsAssertion is_agent) xs)
        seen
        (assertion_codes xs)
        (validate_body s is_agent xs seen)
unfolding validate_body
validate_body-Checks s is_agent [] seen = record {
  sound = λ h. cc;
  complete = λ p f d. absurd (p.0 refl);
  extends = λ h. cc;
}
validate_body-Checks s is_agent (x ∷ xs) seen =
    let c = validate_assertions-Checks s 0 is_agent (x ∷ xs) seen in
    record {
      sound = λ h. let (p, f, d) = c.sound h in ((λ e. cc, p), f, d);
      complete = λ p. c.complete p.1;
      extends = c.extends;
    }

validate_section-Checks :
    (s : ℕ) (is_agent : Bool) (x : Section) (seen : Seen)
    → Checks
        (IsSection is_agent x)
        seen
        (assertion_codes x.assertions)
        (validate_section s is_agent x seen)
unfolding validate_section
validate_section-Checks s is_agent x seen =
    let path : String = section_path s ".title" in
    let titles = check_title path "section" x.title in
    let t = check_title_iff path "section" x.title in
    let r = validate_body s is_agent x.assertions seen in
    let c = validate_body-Checks s is_agent x.assertions seen in
    record {
      sound = λ h.
          let (h1, h2) = append-eq-nil titles r.0 h in
          let (p, f, d) = c.sound h2 in ((t.0 h1, p.0, p.1), f, d);
      complete = λ p f d. rw (t.1 p.0, c.complete (p.1, p.2) f d) refl;
      extends = λ h. c.extends (append-eq-nil titles r.0 h).1;
    }

validate_sections-Checks :
    (s : ℕ) (is_agent : Bool) (xs : List Section) (seen : Seen)
    → Checks
        (All (IsSection is_agent) xs)
        seen
        (all_codes xs)
        (validate_sections s is_agent xs seen)
unfolding validate_sections
validate_sections-Checks s is_agent [] seen = nothing-Checks seen
validate_sections-Checks s is_agent (x ∷ xs) seen =
    let r1 = validate_section s is_agent x seen in
    Checks-append (assertion_codes x.assertions) (all_codes xs) r1
      (validate_sections (suc s) is_agent xs r1.1) (validate_section-Checks s is_agent x seen)
      (validate_sections-Checks (suc s) is_agent xs r1.1)

Fresh-empty : (cs : List String) → Fresh [] cs
Fresh-empty [] = tt
Fresh-empty (c ∷ cs) = (refl, Fresh-empty cs)

check_sections_iff :
    (is_agent : Bool) (xs : List Section)
    → (check_sections is_agent xs ≡ [])
      ↔ ((xs ≢ []) × All (IsSection is_agent) xs × Distinct (all_codes xs))
unfolding check_sections
check_sections_iff is_agent [] = (λ h. cc, λ h. absurd (h.0 refl))
check_sections_iff is_agent (x ∷ xs) =
    let c = validate_sections-Checks 0 is_agent (x ∷ xs) [] in
    (
      λ h. let (p, f, d) = c.sound h in (λ e. cc, p, d),
      λ h. c.complete h.1 (Fresh-empty (all_codes (x ∷ xs))) h.2,
    )

pub validate_iff :
    (p : Playbook) (is_agent : Bool) → (validate p is_agent ≡ []) ↔ IsWellFormed is_agent p
unfolding validate
validate_iff p is_agent =
    let t = check_title_iff "title" "playbook" p.title in
    let d = check_destination_iff p in
    let s = check_sections_iff is_agent p.sections in
    let titles = check_title "title" "playbook" p.title in
    let rest = check_destination p ++ check_sections is_agent p.sections in
    (
      λ h.
          let (h1, h2) = append-eq-nil titles rest h in
          let (h3, h4) =
            append-eq-nil (check_destination p) (check_sections is_agent p.sections) h2 in
          record {
            title = t.0 h1;
            destination = d.0 h3;
            nonempty = (s.0 h4).0;
            sections = (s.0 h4).1;
            codes = (s.0 h4).2;
          },
      λ w. rw (t.1 w.title, d.1 w.destination, s.1 (w.nonempty, w.sections, w.codes)) refl,
    )
