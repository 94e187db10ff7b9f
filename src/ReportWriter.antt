-- ===== src/ReportWriter.antt =====
-- The submission of a report (internal/reportwriter/httpWriter.go). Encodings, the HMAC, the writer of
-- forms and the client of HTTP are outside. A text stands for its bytes; what is printed is left out.
use crobe.Common.{
  ℕ, ◌≤◌, ◌<◌, Bool, not, ◌||◌, ◌&&◌, Option, none, some, List, [], ◌∷◌, ◌++◌, String,
  if◌then◌else◌, ltb, leb, is_empty, ◌==◌, starts_with,
}
use crobe.Common.Text.{concat, itoa}
use crobe.Common.Result.{Result, ok, err}
use crobe.Playbook.{ReportDestinationConfig, format_json}
use crobe.Report.{FinalReport}
use crobe.Runner.{FinalResult}
pub mod Carried
pub mod Submitted

-- A signature that is left out is empty.
pub record JsonPayload : Type 0 where
  pub json : String
  pub json_signature : String
  pub md : String
  pub md_signature : String
  pub log : String
  pub log_signature : String

pub record ReportFile : Type 0 where
  pub filename : String
  pub content_type : String
  pub content : String

-- A part of a form: a file in Base64 with its name and its type, or a signature with its name.
pub data FormPart : Type 0 where
  file_part : String → String → String → FormPart
  signature_part : String → String → FormPart

-- `headers` are the calls of `Header.Set`, in order; those of the additional headers come in any order in the
-- program, and in that of the list here.
pub record Request : Type 0 where
  pub url : String
  pub headers : List (String × String)
  pub body : String

-- What is outside. `create` and `write` say how `CreatePart` or `CreateFormFile`, and `Write`, fail; `form`
-- gives the body of a form and its content type; `new_request` how `http.NewRequest` fails; `send` answers
-- with the status and the body.
pub record Transport (W : Type 0) : Type 0 where
  pub marshal : FinalReport → Result String
  pub marshal_payload : JsonPayload → Result String
  pub base64 : String → String
  pub hmac : String → String → String
  pub create : FormPart → Option String
  pub write : FormPart → Option String
  pub form : List FormPart → String × String
  pub new_request : String → Option String
  pub send : Request → W → Result (ℕ × String) × W

module _ {W : Type 0} (t : Transport W) where
  unfoldable pub report_files : String → FinalResult → List ReportFile
  report_files json res =
      record { filename = "report.json"; content_type = "application/json"; content = json }
      ∷ record { filename = "report.md"; content_type = "text/markdown"; content = res.markdown }
      ∷ record { filename = "report.log"; content_type = "text/plain"; content = res.log }
      ∷ []

  abbrev pub sign : String → String → String
  sign secret content = if is_empty secret then "" else t.hmac content secret

  unfoldable pub json_payload : String → String → FinalResult → JsonPayload
  json_payload secret json res = record {
    json = t.base64 json;
    json_signature = sign secret (t.base64 json);
    md = t.base64 res.markdown;
    md_signature = sign secret (t.base64 res.markdown);
    log = t.base64 res.log;
    log_signature = sign secret (t.base64 res.log);
  }

  -- Creates a part and writes it, with the texts that begin the two errors.
  unfoldable pub put_part : String → String → FormPart → List FormPart → Result (List FormPart)
  put_part creating writing part parts = elim (t.create part) [
    | some e ↦ err (concat (creating ∷ e ∷ []))
    | none ↦ elim (t.write part) [
      | some e ↦ err (concat (writing ∷ e ∷ []))
      | none ↦ ok (parts ++ part ∷ [])
    ]
  ]

  unfoldable pub add_signature : String → String → String → List FormPart → Result (List FormPart)
  add_signature secret filename content parts =
      if is_empty secret
      then ok parts
      else put_part (concat ("failed to create signature part for " ∷ filename ∷ ": " ∷ []))
          (concat ("failed to write signature content for " ∷ filename ∷ ": " ∷ []))
          (signature_part (concat (filename ∷ ".signature.txt" ∷ [])) (t.hmac content secret)) parts

  unfoldable pub add_file_part : String → ReportFile → List FormPart → Result (List FormPart)
  add_file_part secret f parts =
      let content = t.base64 f.content in
      elim (put_part (concat ("failed to create multipart for " ∷ f.filename ∷ ": " ∷ []))
        (concat ("failed to write multipart content for " ∷ f.filename ∷ ": " ∷ []))
        (file_part f.filename f.content_type content) parts) [
          | err e ↦ err e
          | ok parts' ↦ add_signature secret f.filename content parts'
        ]

  -- The loop over the files.
  unfoldable pub add_file_parts : String → List ReportFile → List FormPart → Result (List FormPart)
  add_file_parts secret [] parts = ok parts
  add_file_parts secret (f ∷ fs) parts = elim (add_file_part secret f parts) [
    | err e ↦ err e
    | ok parts' ↦ add_file_parts secret fs parts'
  ]

  -- The body and its content type.
  unfoldable pub encode_body :
      ReportDestinationConfig → String → FinalResult → Result (String × String)
  encode_body config json res =
      if config.format == format_json
      then elim (t.marshal_payload (json_payload config.signature_secret json res)) [
        | err e ↦ err e
        | ok body ↦ ok (body, "application/json")
      ]
      else elim (add_file_parts config.signature_secret (report_files json res) []) [
        | err e ↦ err e
        | ok parts ↦ ok (t.form parts)
      ]

  unfoldable pub make_request : ReportDestinationConfig → String × String → Request
  make_request config (body, content_type) = record {
    url = config.url;
    headers = ("Content-Type", content_type) ∷ config.additional_headers;
    body = body;
  }

  -- What the answer to the request makes of the submission.
  unfoldable pub read_answer : Result (ℕ × String) → Option String
  read_answer (err e) = some (concat ("failed to submit report: " ∷ e ∷ []))
  read_answer (ok (status, body)) =
      if ltb status 200 || leb 300 status
      then some
          (concat ("failed to submit report: status " ∷ itoa status ∷ ". Response: " ∷ body ∷ []))
      else none

  unfoldable pub submit : ReportDestinationConfig → String × String → W → Option String × W
  submit config encoded w = elim (t.new_request config.url) [
    | some e ↦ (some (concat ("failed to create HTTP request: " ∷ e ∷ [])), w)
    | none ↦ let (answer, w') = t.send (make_request config encoded) w in (read_answer answer, w')
  ]

  unfoldable pub write_to_http : ReportDestinationConfig → FinalResult → W → Option String × W
  write_to_http config res w =
      if not (starts_with config.url "https://")
      then (some (concat ("insecure HTTP report submission is not allowed: " ∷ config.url ∷ [])), w)
      else elim (t.marshal res.structured) [
        | err e ↦ (some e, w)
        | ok json ↦ elim (encode_body config json res) [
          | err e ↦ (some e, w)
          | ok encoded ↦ submit config encoded w
        ]
      ]
