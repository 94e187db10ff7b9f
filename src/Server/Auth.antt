-- ===== src/Server/Auth.antt =====
-- The authentication of requests (internal/server/auth.go): the test of `AuthMiddleware` with
-- `extractAuthToken`. `strings.ToLower` is a parameter; the comparison in constant time is one of texts.
use crobe.Common.{
  Bool, true, false, not, ◌||◌, Option, none, some, String, ◌≡◌, ◌⊎◌, ◌↔◌, inl, inr, refl, sym, ap,
  ◌∙◌, if◌then◌else◌, ◌==◌, is_empty, starts_with, eq_iff, Bool-cases, if-elim, arith,
}
use mathlib.Core.Path.{subst}
use crobe.Common.Text.{trim_space}

abbrev pub session_cookie_name : String
session_cookie_name = "crobe_session"

-- What a request brings: the value of its cookie `crobe_session`, its header `Authorization` and the
-- parameter `token` of its query, each empty if it is not there, the cookie `none`.
pub record AuthRequest : Type 0 where
  pub cookie : Option String
  pub authorization : String
  pub query_token : String

-- `s[7:]` of a text that begins with seven characters of one byte.
abbrev pub after_bearer : String → String
after_bearer
      (String.◌∷◌ a (
        String.◌∷◌ b
          (String.◌∷◌ c (String.◌∷◌ d (String.◌∷◌ e (String.◌∷◌ f (String.◌∷◌ g s))))))) =
    s
after_bearer _ = ""

abbrev Yields : String → String → Type 0
Yields token s = s ≡ token

module _ (to_lower : String → String) where
  abbrev pub header_or_query : AuthRequest → String
  header_or_query r =
      if starts_with (to_lower r.authorization) "bearer "
      then trim_space (after_bearer r.authorization)
      else r.query_token

  unfoldable pub extract_auth_token : AuthRequest → String
  extract_auth_token r = elim r.cookie [
    | none ↦ header_or_query r
    | some value ↦ if not (is_empty value) then value else header_or_query r
  ]

  -- Whether the request is passed on.
  unfoldable pub passes_auth : String → AuthRequest → Bool
  passes_auth server_token r =
      is_empty server_token
      || not (is_empty (extract_auth_token r) || not (extract_auth_token r == server_token))

  abbrev HasNoCookie : Option String → Type 0
  HasNoCookie cookie = (cookie ≡ none) ⊎ (cookie ≡ some "")

  -- A request brings a token: in its cookie, or, if that is empty or missing, after `Bearer` in its header,
  -- or, if the header does not begin so, in its query.
  pub data Brings (token : String) (r : AuthRequest) : Type 0 where
    in_cookie : r.cookie ≡ some token → Brings token r
    in_header :
        HasNoCookie r.cookie
        → starts_with (to_lower r.authorization) "bearer " ≡ true
        → trim_space (after_bearer r.authorization) ≡ token
        → Brings token r
    in_query :
        HasNoCookie r.cookie
        → starts_with (to_lower r.authorization) "bearer " ≡ false
        → r.query_token ≡ token
        → Brings token r

  -- What is extracted if the cookie is the given one.
  abbrev Extracts : AuthRequest → Option String → String → Type 0
  Extracts r none token = header_or_query r ≡ token
  Extracts r (some value) token =
      (if not (is_empty value) then value else header_or_query r) ≡ token

  header-Brings :
      (token : String) (r : AuthRequest)
      → HasNoCookie r.cookie
      → header_or_query r ≡ token
      → Brings token r
  header-Brings token r h =
      if-elim (λ x. x ≡ token → Brings token r) (starts_with (to_lower r.authorization) "bearer ") _
        _ (λ q e. in_header h q e) (λ q e. in_query h q e)

  picked :
      (token : String) (r : AuthRequest) (cookie : Option String)
      → r.cookie ≡ cookie
      → Extracts r cookie token
      → Brings token r
  picked token r none e = header-Brings token r (inl e)
  picked token r (some value) e =
      if-elim (λ x. x ≡ token → Brings token r) (not (is_empty value)) _ _
        (λ q same. in_cookie (e ∙ ap some same))
        (λ q.
          let blank : is_empty value ≡ true = ground arith in
          header-Brings token r (inr (e ∙ ap some ((eq_iff value "").0 blank))))

  no_cookie :
      (token : String) (r : AuthRequest)
      → HasNoCookie r.cookie
      → header_or_query r ≡ token
      → Extracts r r.cookie token
  no_cookie token r (inl e) h = subst (λ c. Extracts r c token) (sym e) h
  no_cookie token r (inr e) h = subst (λ c. Extracts r c token) (sym e) h

  extracted :
      (token : String) (r : AuthRequest)
      → is_empty token ≡ false
      → Brings token r
      → Extracts r r.cookie token
  extracted token r ne (in_cookie e) =
      subst (λ c. Extracts r c token) (sym e)
        (if-elim (λ x. x ≡ token) (not (is_empty token)) token (header_or_query r) (λ q. refl)
          (λ q. absurd (ground arith)))
  extracted token r ne (in_header h q e) = no_cookie token r h (
      if-elim (λ x. x ≡ token) (starts_with (to_lower r.authorization) "bearer ") _ _ (λ q'. e)
        (λ q'. absurd (cc (q, q'))))
  extracted token r ne (in_query h q e) = no_cookie token r h (
      if-elim (λ x. x ≡ token) (starts_with (to_lower r.authorization) "bearer ") _ _
        (λ q'. absurd (cc (q, q'))) (λ q'. e))

  picked_iff :
      (token : String) (r : AuthRequest) (cookie : Option String)
      → Yields token (elim cookie [
        | none ↦ header_or_query r
        | some value ↦ if not (is_empty value) then value else header_or_query r
      ])
        ↔ Extracts r cookie token
  picked_iff token r none = (λ q. q, λ q. q)
  picked_iff token r (some value) = (λ q. q, λ q. q)

  extracted_iff :
      (token : String) (r : AuthRequest)
      → (extract_auth_token r ≡ token) ↔ Extracts r r.cookie token
  unfolding extract_auth_token
  extracted_iff token r = picked_iff token r r.cookie

  -- A request is passed on exactly when the server has no token, or the request brings the server's token.
  pub passes_auth_iff :
      (server_token : String) (r : AuthRequest)
      → (passes_auth server_token r ≡ true) ↔ ((server_token ≡ "") ⊎ Brings server_token r)
  unfolding passes_auth
  passes_auth_iff server_token r =
      let token = extract_auth_token r in
      elim (Bool-cases (is_empty server_token)) [
        | inl q ↦ (λ p. inl ((eq_iff server_token "").0 q), λ p. ground arith)
        | inr q ↦ (
          λ p.
              let same : (token == server_token) ≡ true = ground arith in
              inr (
                picked server_token r r.cookie refl
                  ((extracted_iff server_token r).0 ((eq_iff token server_token).0 same))),
          λ p. elim p [
            | inl e ↦ absurd (cc (q, (eq_iff server_token "").1 e))
            | inr b ↦
                let same : token ≡ server_token =
                  (extracted_iff server_token r).1 (extracted server_token r q b) in
                let equal = (eq_iff token server_token).1 same in
                let full : is_empty token ≡ false = ap is_empty same ∙ q in ground arith
          ],
        )
      ]
