-- ===== src/Server/Destination/Accepted.antt =====
-- Which destinations are accepted (internal/server/report_destination.go), against RFC 7230.
use Prim.Native.Char.{Char, code}
use crobe.Common.{
  and-eq-true, ◌≡◌, ◌≢◌, ◌↔◌, refl, ap, ◌⊎◌, ◌≤◌, ◌<◌, Bool, true, false, not, Option, none, some,
  List, [], ◌∷◌, String, is_empty, arith, eq_iff, All,
}
use crobe.Common.Text.{trim_space, Every}
use crobe.Common.Result.{Result, ok, err}
use crobe.Server.Types.{HttpsDestinationConfig}
use crobe.Server.Destination.{
  Outside, is_token_char, all_token_chars, is_valid_header_field_name, is_control,
  is_valid_header_field_value, is_known_format, or_error, check, check_headers, check_url,
  validate_https,
}

-- A visible character of ASCII that is not a delimiter, by its code.
abbrev pub IsTokenChar : Char → Type 0
IsTokenChar c =
    (32 < code c)
    × (code c < 127)
    × (code c ≢ 34)
    × ((code c < 40) ⊎ (41 < code c))
    × (code c ≢ 44)
    × (code c ≢ 47)
    × ((code c < 58) ⊎ (64 < code c))
    × ((code c < 91) ⊎ (93 < code c))
    × (code c ≢ 123)
    × (code c ≢ 125)

-- A tab, or no control character.
abbrev pub IsFieldChar : Char → Type 0
IsFieldChar c = (code c ≡ 9) ⊎ ((32 ≤ code c) × (code c ≢ 127))

token_iff : (c : Char) → (is_token_char c ≡ true) ↔ IsTokenChar c
unfolding is_token_char
token_iff c = (λ h. ground arith, λ h. ground arith)

field_iff : (c : Char) → (not (is_control c) ≡ true) ↔ IsFieldChar c
unfolding is_control
field_iff c = (λ h. ground arith, λ h. ground arith)

all_token_iff : (s : String) → (all_token_chars s ≡ true) ↔ Every IsTokenChar s
unfolding all_token_chars
all_token_iff String.[] = (λ h. tt, λ h. refl)
all_token_iff (String.◌∷◌ c s) = (
  λ h.
      let (a, b) = and-eq-true (is_token_char c) (all_token_chars s) h in
      ((token_iff c).0 a, (all_token_iff s).0 b),
  λ h. let (a, b) = h in rw ((token_iff c).1 a, (all_token_iff s).1 b) refl,
)

value_iff : (s : String) → (is_valid_header_field_value s ≡ true) ↔ Every IsFieldChar s
unfolding is_valid_header_field_value
value_iff String.[] = (λ h. tt, λ h. refl)
value_iff (String.◌∷◌ c s) = (
  λ h.
      let (a, b) = and-eq-true (not (is_control c)) (is_valid_header_field_value s) h in
      ((field_iff c).0 a, (value_iff s).0 b),
  λ h. let (a, b) = h in rw ((field_iff c).1 a, (value_iff s).1 b) refl,
)

empty_iff : (s : String) → (not (is_empty s) ≡ true) ↔ (s ≢ "")
empty_iff s = (λ h e. ground (arith, eq_iff s ""), λ h. ground (arith, eq_iff s ""))

name_iff : (s : String) → (is_valid_header_field_name s ≡ true) ↔ ((s ≢ "") × Every IsTokenChar s)
unfolding is_valid_header_field_name
name_iff s = (
  λ h.
      let (a, b) = and-eq-true (not (is_empty s)) (all_token_chars s) h in
      ((empty_iff s).0 a, (all_token_iff s).0 b),
  λ h. let (a, b) = h in rw ((empty_iff s).1 a, (all_token_iff s).1 b) refl,
)

-- A header that may be sent.
abbrev pub IsHeader : String × String → Type 0
IsHeader (k, v) = (k ≢ "") × Every IsTokenChar k × Every IsFieldChar v

-- An endpoint that may be asked for.
pub record IsEndpoint (o : Outside) (c : HttpsDestinationConfig) : Type 0 where
  pub nonblank : trim_space c.url ≢ ""
  pub host : String
  pub parsed : o.parse_request_uri (trim_space c.url) ≡ ok ("https", host)
  pub has_host : host ≢ ""
  pub format : (c.format ≡ "") ⊎ ((c.format ≡ "json") ⊎ (c.format ≡ "multipart"))
  pub headers : All IsHeader c.headers

pub or_error-eq-none : (a b : Option String) → or_error a b ≡ none → (a ≡ none) × (b ≡ none)
or_error-eq-none none b h = (refl, h)
or_error-eq-none (some e) b h = absurd (cc)

check-eq-none : (b : Bool) (e : String) → check b e ≡ none → b ≡ true
check-eq-none true e h = refl
check-eq-none false e h = absurd (cc)

module _ (o : Outside) where
  headers_iff : (hs : List (String × String)) → (check_headers o hs ≡ none) ↔ All IsHeader hs
  unfolding check_headers
  headers_iff [] = (λ h. tt, λ h. refl)
  headers_iff ((k, v) ∷ more) = (
    λ h.
        let (a, h') = or_error-eq-none _ _ h in
        let (b, c) = or_error-eq-none _ _ h' in
        let (p, q) = (name_iff k).0 (check-eq-none _ _ a) in
        ((p, q, (value_iff v).0 (check-eq-none _ _ b)), (headers_iff more).0 c),
    λ h.
        let ((p, q, r), more') = h in
        rw ((name_iff k).1 (p, q), (value_iff v).1 r, (headers_iff more).1 more') refl,
  )

  format_iff :
      (f : String) → (is_known_format f ≡ true) ↔ ((f ≡ "") ⊎ ((f ≡ "json") ⊎ (f ≡ "multipart")))
  format_iff f = (
    λ h. ground (arith, eq_iff f "", eq_iff f "json", eq_iff f "multipart"),
    λ h. ground (arith, eq_iff f "", eq_iff f "json", eq_iff f "multipart"),
  )

  url_sound :
      (u : Result (String × String))
      → check_url o u ≡ none
      → (host : String) × (u ≡ ok ("https", host)) × (host ≢ "")
  unfolding check_url
  url_sound (err e) h = absurd (cc)
  url_sound (ok (scheme, host)) h =
      let (a, b) = or_error-eq-none _ _ h in
      let is_https = (eq_iff scheme "https").0 (check-eq-none _ _ a) in
      (host, ap (λ s. ok (s, host)) is_https, (empty_iff host).0 (check-eq-none _ _ b))

  -- `Validate` of a custom endpoint returns no error exactly when the URL is not blank, is parsed as one of
  -- the scheme `https` with a host, the format is empty or one of the two, the name of each header is not
  -- empty and consists of visible ASCII characters other than the delimiters of RFC 7230, and its
  -- value has no control character but the tab. So no header of an endpoint can begin another line.
  pub validate_https_iff :
      (c : HttpsDestinationConfig) → (validate_https o c ≡ none) ↔ IsEndpoint o c
  unfolding validate_https
  validate_https_iff c = (
    λ h.
        let (a, h') = or_error-eq-none _ _ h in
        let (b, h'') = or_error-eq-none _ _ h' in
        let (f, g) = or_error-eq-none _ _ h'' in
        let (host, parsed, has_host) = url_sound (o.parse_request_uri (trim_space c.url)) b in
        record {
          nonblank = (empty_iff (trim_space c.url)).0 (check-eq-none _ _ a);
          host = host;
          parsed = parsed;
          has_host = has_host;
          format = (format_iff c.format).0 (check-eq-none _ _ f);
          headers = (headers_iff c.headers).0 g;
        },
    λ e.
        rw
          (
            (empty_iff (trim_space c.url)).1 e.nonblank,
            e.parsed,
            (format_iff c.format).1 e.format,
            (headers_iff c.headers).1 e.headers,
          )
          (unfold check_url in rw ((empty_iff e.host).1 e.has_host) refl),
  )
