-- ===== src/Server/Destination.antt =====
-- The checks on a destination that a client asks for (internal/server/report_destination.go). The
-- parser of URLs, `os.Stat`, `filepath.Abs` and the verb `%q` are parameters. The headers are checked in
-- the order of the association list, where Go ranges over a map.
use Prim.Native.Char.{Char, code}
use crobe.Common.{
  Bool, true, false, not, ◌&&◌, ◌||◌, Option, none, some, List, [], ◌∷◌, String, if◌then◌else◌,
  is_empty, ◌==◌, ltb, leb, eqb,
}
use crobe.Common.Text.{trim_space, concat}
use crobe.Common.Result.{Result, ok, err}
use crobe.Server.Types.{
  HttpsDestinationConfig, DestinationUpdateRequest, folder_source_default, folder_source_cli,
  folder_source_playbook, folder_source_custom, folder_source_off, https_source_playbook,
  https_source_custom, https_source_off,
}
use crobe.Server.State.Methods.{resolve_folder_path}
pub mod Accepted
pub mod Guarded

-- `isTokenChar`. A byte of a character beyond ASCII is none, so the characters can stand for the bytes.
unfoldable pub is_token_char : Char → Bool
is_token_char c =
    let b = code c in
    leb 97 b && leb b 122
    || leb 65 b && leb b 90
    || leb 48 b && leb b 57
    || eqb b 33
    || leb 35 b && leb b 39
    || eqb b 42
    || eqb b 43
    || eqb b 45
    || eqb b 46
    || leb 94 b && leb b 96
    || eqb b 124
    || eqb b 126

-- The loop of `isValidHeaderFieldName`, and the function.
unfoldable pub all_token_chars : String → Bool
all_token_chars String.[] = true
all_token_chars (String.◌∷◌ c s) = is_token_char c && all_token_chars s

unfoldable pub is_valid_header_field_name : String → Bool
is_valid_header_field_name name = not (is_empty name) && all_token_chars name

-- The test on one character of a value.
unfoldable pub is_control : Char → Bool
is_control c = let r = code c in ltb r 0x20 && not (eqb r 0x09) || eqb r 0x7f

-- `isValidHeaderFieldValue`
unfoldable pub is_valid_header_field_value : String → Bool
is_valid_header_field_value String.[] = true
is_valid_header_field_value (String.◌∷◌ c s) = not (is_control c) && is_valid_header_field_value s

-- What `os.Stat` finds.
pub data FileInfo : Type 0 where
  directory file missing : FileInfo
  unreadable : String → FileInfo

-- `parse_request_uri` gives the scheme and the host.
pub record Outside : Type 0 where
  pub abs : String → Option String
  pub quote : String → String
  pub parse_request_uri : String → Result (String × String)
  pub stat : String → FileInfo

-- The sources that a request may name.
abbrev pub is_folder_source : String → Bool
is_folder_source s =
    s == folder_source_default
    || s == folder_source_cli
    || s == folder_source_playbook
    || s == folder_source_custom
    || s == folder_source_off

abbrev pub is_https_source : String → Bool
is_https_source s = s == https_source_playbook || s == https_source_custom || s == https_source_off

abbrev pub is_known_format : String → Bool
is_known_format format = is_empty format || format == "json" || format == "multipart"

-- The first of two errors.
abbrev pub or_error : Option String → Option String → Option String
or_error none later = later
or_error (some e) later = some e

-- A test, with the error if it fails.
abbrev pub check : Bool → String → Option String
check true message = none
check false message = some message

module _ (o : Outside) where
  -- The loop over the headers.
  unfoldable pub check_headers : List (String × String) → Option String
  check_headers [] = none
  check_headers ((k, v) ∷ more) =
      or_error
        (check (is_valid_header_field_name k)
          (concat ("invalid HTTP header name: " ∷ o.quote k ∷ [])))
        (or_error
          (check (is_valid_header_field_value v)
            (concat ("invalid HTTP header value for header " ∷ o.quote k ∷ [])))
          (check_headers more))

  unfoldable pub check_url : Result (String × String) → Option String
  check_url (err e) = some (concat ("invalid https destination URL: " ∷ e ∷ []))
  check_url (ok (scheme, host)) =
      or_error (check (scheme == "https") "HTTPS destination URL must start with https://")
        (check (not (is_empty host)) "https destination URL must contain a valid host")

  -- `HttpsDestinationConfig.Validate`: the error, if any.
  unfoldable pub validate_https : HttpsDestinationConfig → Option String
  validate_https c =
      let url = trim_space c.url in
      or_error (check (not (is_empty url)) "https destination URL is required") (
        or_error (check_url (o.parse_request_uri url)) (
          or_error (check (is_known_format c.format) "https format must be 'json' or 'multipart'")
            (check_headers c.headers)))

  unfoldable pub check_folder_source : DestinationUpdateRequest → Option String
  check_folder_source req = elim req.folder_source [
    | none ↦ none
    | some s ↦
        or_error
          (check (is_folder_source s) (
            concat (
              "invalid folder_source: "
              ∷ o.quote s
              ∷ " (must be default, cli, playbook, custom, or off)"
              ∷ [])))
          (if s == folder_source_custom
            then elim req.folder [
              | none ↦ some "custom folder path cannot be empty"
              | some f ↦ check (not (is_empty (trim_space f))) "custom folder path cannot be empty"
            ]
            else none)
  ]

  unfoldable pub stat_error : String → FileInfo → Option String
  stat_error dir directory = none
  stat_error dir file = some (concat ("custom folder path is not a directory: " ∷ dir ∷ []))
  stat_error dir missing = some (concat ("custom folder path does not exist: " ∷ dir ∷ []))
  stat_error dir (unreadable e) = some (concat ("cannot access custom folder path: " ∷ e ∷ []))

  -- The condition under which the folder is looked up.
  abbrev pub is_custom_folder : Option String → Bool
  is_custom_folder none = true
  is_custom_folder (some s) = s == folder_source_custom

  unfoldable pub check_folder : DestinationUpdateRequest → Option String
  check_folder req = elim req.folder [
    | none ↦ none
    | some f ↦
        let dir = resolve_folder_path o.abs f in
        if not (is_empty (trim_space f)) && is_custom_folder req.folder_source
        then stat_error dir (o.stat dir)
        else none
  ]

  abbrev pub validate_given : Option HttpsDestinationConfig → Option String → Option String
  validate_given none absent = absent
  validate_given (some c) absent = validate_https c

  -- The source and the endpoint that a request names.
  unfoldable pub check_https : Option String → Option HttpsDestinationConfig → Option String
  check_https none https = validate_given https none
  check_https (some s) https =
      or_error
        (check (is_https_source s) (
          concat
            ("invalid https_source: " ∷ o.quote s ∷ " (must be playbook, custom, or off)" ∷ [])))
        (if s == https_source_custom
          then validate_given https
              (some "https configuration is required when https_source is 'custom'")
          else none)

  -- `DestinationUpdateRequest.Validate`: the error, if any.
  unfoldable pub validate_update : DestinationUpdateRequest → Option String
  validate_update req =
      or_error (check_folder_source req)
        (or_error (check_folder req) (check_https req.https_source req.https))
