-- ===== src/Elevation/Relayed.antt =====
-- A command that needs privileges returns what the worker's runner returned for it
-- (internal/elevation/client.go).
use Prim.Native.Char.{code}
use Prim.Native.String.{◌++◌}
use mathlib.Core.Path.{subst}
use text.Mathlib.TextLemmas.{append-nil, append_cancel_left, cons-append}
use crobe.Common.{
  ℕ, ◌%◌, ◌<◌, ◌⊎◌, ◌≢◌, inl, inr, false, not, Option, none, some, List, [], ◌∷◌, String, ◌≡◌, refl,
  sym, ap, ◌∙◌, arith, All, if◌then◌else◌, if-elim, ◌==◌, is_empty, eq_iff, Bool-cases,
}
use crobe.Common.Text.{concat, itoa}
use crobe.Common.Text.Decimal.{itoa-injective}
use crobe.Common.Result.{ok}
use crobe.Executor.{ExecutionRequest, ExecutionResult}
use crobe.Elevation.{WireMessage, Link, request_id, ping_id, accept_response, empty_result}
use crobe.Elevation.Worker.{result_message, LinkReach, LocalRunner}
use crobe.Elevation.Traced.{IsCall, ReplyTraced, asked_by}
use crobe.Elevation.Preserved.{LinkReach-IsTraced}

-- The counter, which wraps around, does not repeat a number before it has.
request_id-injective :
    (j k : ℕ)
    → j < 18446744073709551616
    → k < 18446744073709551616
    → request_id j ≡ request_id k
    → j ≡ k
unfolding request_id concat
request_id-injective j k hj hk e =
    let numbers : itoa (j % 18446744073709551616) ++ "" ≡ itoa (k % 18446744073709551616) ++ "" =
      append_cancel_left "req-" _ _ e in
    let same : j % 18446744073709551616 ≡ k % 18446744073709551616 =
      itoa-injective _ _ (sym (append-nil _) ∙ numbers ∙ append-nil _) in
    omega (arith, same)

abbrev first_code : String → ℕ
first_code String.[] = 0
first_code (String.◌∷◌ c s) = code c

ping_id-request_id : (j k : ℕ) → ping_id j ≢ request_id k
unfolding request_id ping_id concat
ping_id-request_id j k e =
    let same = ap first_code (sym (cons-append "p" "ing-" _) ∙ e ∙ cons-append "r" "eq-" _) in
    absurd (omega (arith, same))

-- What `Run` makes of what the runner returned. An error without a text is lost.
abbrev pub relayed : ExecutionResult → Option String → ExecutionResult × Option String
relayed res none = (res, none)
relayed res (some e) =
    if is_empty e then (res, none) else (res, some (concat ("elevated worker error: " ∷ e ∷ [])))

abbrev pub mismatched : String → String → ExecutionResult × Option String
mismatched got want =
    (empty_result, some (concat ("mismatched response ID: got " ∷ got ∷ ", want " ∷ want ∷ [])))

accept-result_message :
    (id : String) (res : ExecutionResult) (e : Option String)
    → accept_response id (ok (result_message id res e)) ≡ relayed res e
unfolding accept_response
accept-result_message id res none =
    if-elim (λ x. x ≡ (res, none)) (not (id == id)) _ _
      (λ q. absurd (cc (q, (eq_iff id id).1 refl))) (λ q. refl)
accept-result_message id res (some e) =
    let same = (eq_iff id id).1 refl in
    simp (same) (elim (Bool-cases (is_empty e)) [ inl q ↦ simp (q) | inr q ↦ simp (q) ])

accept-other :
    (id : String) (msg : WireMessage)
    → (msg.id == id) ≡ false
    → accept_response id (ok msg) ≡ mismatched msg.id id
unfolding accept_response
accept-other id msg h =
    if-elim (λ x. x ≡ mismatched msg.id id) (not (msg.id == id)) _ _ (λ q. refl)
      (λ q. absurd (cc (q, h)))

module _ (Ran : LocalRunner) where
  -- Whatever the client, the worker and the jobs of the worker did before, in whatever order, and while fewer
  -- than 2 ^ 64 numbers have been given out: for a request that was sent, the next message that a decoder
  -- of the client takes is either refused, because it has another identifier, or `Run` returns what the
  -- worker's runner returned for this very request, with its error, unless the error has no text.
  pub run_relayed :
      (l : Link) (k : ℕ) (req : ExecutionRequest) (msg : WireMessage) (rest : List WireMessage)
      → LinkReach Ran l
      → l.seq < 18446744073709551616
      → IsCall (asked_by l) k req
      → l.to_client ≡ msg ∷ rest
      → (msg.id ≢ request_id k)
          × (accept_response (request_id k) (ok msg) ≡ mismatched msg.id (request_id k))
        ⊎ ((res : ExecutionResult) × (e : Option String) × Ran req res e
            × (accept_response (request_id k) (ok msg) ≡ relayed res e))
  run_relayed l k req msg rest reach small (below, asked) queue =
      let t = LinkReach-IsTraced Ran reach in
      let (traced, _) = subst (All (ReplyTraced Ran (asked_by l))) queue t.replies in
      elim (Bool-cases (msg.id == request_id k)) [
        | inr q ↦ inl (
          λ e. absurd (cc (q, (eq_iff msg.id (request_id k)).1 e)),
          accept-other (request_id k) msg q,
        )
        | inl q ↦
            let own = (eq_iff msg.id (request_id k)).0 q in
            elim traced [
              | inl (j, req', res, e, same, ran, (below', asked')) ↦
                  let id_same : request_id j ≡ request_id k =
                    sym (ap (λ (m : WireMessage). m.id) same) ∙ own in
                  let number = request_id-injective j k (omega arith) (omega arith) id_same in
                  let req_same : req' ≡ req = cc (asked, asked', number) in
                  inr (
                    res,
                    e,
                    subst (λ r. Ran r res e) req_same ran,
                    ap (λ m. accept_response (request_id k) (ok m)) same
                        ∙ ap (λ id. accept_response (request_id k) (ok (result_message id res e)))
                            id_same
                        ∙ accept-result_message (request_id k) res e,
                  )
              | inr (j, same) ↦
                  absurd (ping_id-request_id j k (sym (ap (λ (m : WireMessage). m.id) same) ∙ own))
            ]
      ]
