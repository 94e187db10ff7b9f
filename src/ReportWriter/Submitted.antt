-- ===== src/ReportWriter/Submitted.antt =====
-- When the submission of a report succeeds (internal/reportwriter/httpWriter.go).
use crobe.Common.{
  ℕ, ◌≤◌, ◌<◌, Bool, true, false, not, ◌||◌, Option, none, some, [], ◌∷◌, String, ◌≡◌, ◌↔◌, refl,
  arith, if◌then◌else◌, if-elim, starts_with, ltb, leb,
}
use mathlib.Core.Path.{subst}
use crobe.Common.Text.{concat}
use crobe.Common.Result.{Result, ok, err}
use crobe.Playbook.{ReportDestinationConfig}
use crobe.Runner.{FinalResult}
use crobe.ReportWriter.{Transport, encode_body, make_request, read_answer, submit, write_to_http}

module _ {W : Type 0} (t : Transport W) where
  abbrev Answered : ReportDestinationConfig → String × String → W → Type 0
  Answered config encoded w =
      (t.new_request config.url ≡ none)
      × (status : ℕ) × (reply : String) × ((t.send (make_request t config encoded) w).0
          ≡ ok (status, reply))
      × (200 ≤ status)
      × (status < 300)

  abbrev Sends : Option String × W → Type 0
  Sends r = r.0 ≡ none

  -- Every step of a submission succeeds.
  pub record Submits (config : ReportDestinationConfig) (res : FinalResult) (w : W) : Type 0 where
    pub is_https : starts_with config.url "https://" ≡ true
    pub json : String
    pub marshals : t.marshal res.structured ≡ ok json
    pub encoded : String × String
    pub encodes : encode_body t config json res ≡ ok encoded
    pub answered : Answered config encoded w

  read_answer_iff :
      (answer : Result (ℕ × String))
      → (read_answer t answer ≡ none) ↔ (
          (status : ℕ) × (reply : String) × (answer ≡ ok (status, reply))
          × (200 ≤ status)
          × (status < 300))
  unfolding read_answer
  read_answer_iff (err e) = (λ q. absurd (cc), λ q. let (_, _, same, _, _) = q in absurd (cc same))
  read_answer_iff (ok (status, body)) = (
    λ q. (status, body, refl, ground arith, ground arith),
    λ q.
        let (status', body', same, low, high) = q in
        let status_same : status ≡ status' = cc same in
        if-elim (λ x. x ≡ none) (ltb status 200 || leb 300 status) _ _ (λ b. absurd (ground arith))
          (λ b. refl),
  )

  sent_iff :
      (refused : Option String) (sent : Result (ℕ × String) × W) (w : W)
      → (Sends (elim refused [
        | some e ↦ (some (concat ("failed to create HTTP request: " ∷ e ∷ [])), w)
        | none ↦ (read_answer t sent.0, sent.1)
      ]))
        ↔ ((refused ≡ none)
            × (status : ℕ) × (reply : String) × (sent.0 ≡ ok (status, reply))
            × (200 ≤ status)
            × (status < 300))
  sent_iff (some e) sent w = (λ q. absurd (cc q), λ q. absurd (cc (q.0)))
  sent_iff none sent w =
      let answer = read_answer_iff sent.0 in
      (
        λ q.
            let (status, reply, same, low, high) = answer.0 q in
            (refl, status, reply, same, low, high),
        λ q.
            let (_, status, reply, same, low, high) = q in
            answer.1 (status, reply, same, low, high),
      )

  submit_iff :
      (config : ReportDestinationConfig) (encoded : String × String) (w : W)
      → ((submit t config encoded w).0 ≡ none) ↔ Answered config encoded w
  unfolding submit
  submit_iff config encoded w =
      sent_iff (t.new_request config.url) (t.send (make_request t config encoded) w) w

  encoded_iff :
      (config : ReportDestinationConfig) (w : W) (e : Result (String × String))
      → Sends (elim e [ err e' ↦ (some e', w) | ok body ↦ submit t config body w ])
        ↔ ((encoded : String × String) × (e ≡ ok encoded) × Answered config encoded w)
  encoded_iff config w (err e) = (λ q. absurd (cc q), λ q. let (_, same, _) = q in absurd (cc same))
  encoded_iff config w (ok body) = (
    λ q. (body, refl, (submit_iff config body w).0 q),
    λ q.
        let (encoded, same, answered) = q in
        let body_same : encoded ≡ body = cc same in
        (submit_iff config body w).1 (subst (λ b. Answered config b w) body_same answered),
  )

  stepwise_iff :
      (config : ReportDestinationConfig) (res : FinalResult) (w : W) (secure : Bool)
      (marshalled : Result String)
      → (Sends (
          if not secure
          then (
            some (concat ("insecure HTTP report submission is not allowed: " ∷ config.url ∷ [])),
            w,
          )
          else elim marshalled [
            | err e ↦ (some e, w)
            | ok json ↦ elim (encode_body t config json res) [
              | err e ↦ (some e, w)
              | ok encoded ↦ submit t config encoded w
            ]
          ]))
        ↔ ((secure ≡ true)
            × (json : String) × (marshalled ≡ ok json)
            × (encoded : String × String) × (encode_body t config json res ≡ ok encoded)
            × Answered config encoded w)
  stepwise_iff config res w false marshalled = (λ q. absurd (cc q), λ q. absurd (cc (q.0)))
  stepwise_iff config res w true (err e) =
      (λ q. absurd (cc q), λ q. let (_, _, same, _, _, _) = q in absurd (cc same))
  stepwise_iff config res w true (ok json) =
      let rest = encoded_iff config w (encode_body t config json res) in
      (
        λ q.
            let (encoded, encodes, answered) = rest.0 q in
            (refl, json, refl, encoded, encodes, answered),
        λ q.
            let (_, json', same, encoded, encodes, answered) = q in
            let json_same : json' ≡ json = cc same in
            rest.1 (
              encoded,
              subst (λ j. encode_body t config j res ≡ ok encoded) json_same encodes,
              answered,
            ),
      )

  -- The submission of a report returns no error exactly when the URL begins with https://, the report and the
  -- body of its format are encoded, the request can be made, and the server answers it with a status from 200
  -- to 299.
  pub write_to_http_iff :
      (config : ReportDestinationConfig) (res : FinalResult) (w : W)
      → ((write_to_http t config res w).0 ≡ none) ↔ Submits config res w
  unfolding write_to_http
  write_to_http_iff config res w = (
    λ q.
        let (is_https, json, marshals, encoded, encodes, answered) =
          (stepwise_iff config res w (starts_with config.url "https://")
              (t.marshal res.structured)).0
            q in
        record {
          is_https = is_https;
          json = json;
          marshals = marshals;
          encoded = encoded;
          encodes = encodes;
          answered = answered;
        },
    λ s.
        (stepwise_iff config res w (starts_with config.url "https://") (t.marshal res.structured)).1
          (s.is_https, s.json, s.marshals, s.encoded, s.encodes, s.answered),
  )
