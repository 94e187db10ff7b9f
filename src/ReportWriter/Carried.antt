-- ===== src/ReportWriter/Carried.antt =====
-- The two formats of a submission carry the same (internal/reportwriter/httpWriter.go).
use crobe.Common.{
  Bool, true, false, Option, none, some, List, [], ◌∷◌, ◌++◌, String, map, append-nil, append_assoc,
  ◌≡◌, refl, sym, ap, ◌∙◌, inl, inr, Bool-cases, if◌then◌else◌, is_empty,
}
use crobe.Common.Text.{concat}
use crobe.Common.Result.{Result, ok, err}
use crobe.Runner.{FinalResult}
use crobe.ReportWriter.{
  JsonPayload, ReportFile, FormPart, file_part, signature_part, Transport, report_files, sign,
  json_payload, put_part, add_signature, add_file_part, add_file_parts,
}

-- What is carried: contents with their signatures.
abbrev pub payload_contents : JsonPayload → List (String × String)
payload_contents p =
    (p.json, p.json_signature) ∷ (p.md, p.md_signature) ∷ (p.log, p.log_signature) ∷ []

-- A signature belongs to the file before it.
abbrev next_signature : List FormPart → String
next_signature [] = ""
next_signature (file_part filename content_type content ∷ parts) = ""
next_signature (signature_part filename signature ∷ parts) = signature

abbrev pub form_contents : List FormPart → List (String × String)
form_contents [] = []
form_contents (file_part filename content_type content ∷ parts) =
    (content, next_signature parts) ∷ form_contents parts
form_contents (signature_part filename signature ∷ parts) = form_contents parts

abbrev Yields : {A : Type 0} → Result A → A → Type 0
Yields r a = r ≡ ok a

-- A result that comes from two steps comes from each.
bind-ok :
    {A : Type 0} {B : Type 0} (r : Result A) (f : A → Result B) (out : B)
    → Yields (elim r [ err e ↦ err e | ok a ↦ f a ]) out
    → (a : A) × (r ≡ ok a) × (f a ≡ ok out)
bind-ok (err e) f out q = absurd (cc q)
bind-ok (ok a) f out q = (a, refl, q)

module _ {W : Type 0} (t : Transport W) where
  -- The parts of a file.
  abbrev parts_of : String → ReportFile → List FormPart
  parts_of secret f =
      file_part f.filename f.content_type (t.base64 f.content)
      ∷ (if is_empty secret
          then []
          else signature_part (concat (f.filename ∷ ".signature.txt" ∷ []))
              (t.hmac (t.base64 f.content) secret)
            ∷ [])

  abbrev all_parts : String → List ReportFile → List FormPart
  all_parts secret [] = []
  all_parts secret (f ∷ fs) = parts_of secret f ++ all_parts secret fs

  -- A file with its signature.
  abbrev pub signed : String → ReportFile → String × String
  signed secret f = (t.base64 f.content, sign t secret (t.base64 f.content))

  written :
      (created wrote : Option String) (creating writing : String) (parts out : List FormPart)
      → Yields
          (elim created [
            | some e ↦ err (concat (creating ∷ e ∷ []))
            | none ↦ elim wrote [ some e ↦ err (concat (writing ∷ e ∷ [])) | none ↦ ok parts ]
          ])
          out
      → out ≡ parts
  written (some e) wrote creating writing parts out q = absurd (cc q)
  written none (some e) creating writing parts out q = absurd (cc q)
  written none none creating writing parts out q = let same : parts ≡ out = cc q in sym same

  put_part_lem :
      (creating writing : String) (part : FormPart) (parts out : List FormPart)
      → put_part t creating writing part parts ≡ ok out
      → out ≡ parts ++ part ∷ []
  unfolding put_part
  put_part_lem creating writing part parts out e =
      written (t.create part) (t.write part) creating writing (parts ++ part ∷ []) out e

  signed_parts :
      (unsigned : Bool) (creating writing : String) (part : FormPart) (parts out : List FormPart)
      → Yields (if unsigned then ok parts else put_part t creating writing part parts) out
      → out ≡ parts ++ (if unsigned then [] else part ∷ [])
  signed_parts true creating writing part parts out q =
      let same : parts ≡ out = cc q in sym same ∙ sym (append-nil parts)
  signed_parts false creating writing part parts out q =
      put_part_lem creating writing part parts out q

  add_file_part_lem :
      (secret : String) (f : ReportFile) (parts out : List FormPart)
      → add_file_part t secret f parts ≡ ok out
      → out ≡ parts ++ parts_of secret f
  unfolding add_file_part add_signature
  add_file_part_lem secret f parts out e =
      let content = t.base64 f.content in
      let whole = file_part f.filename f.content_type content in
      let signature =
        signature_part (concat (f.filename ∷ ".signature.txt" ∷ [])) (t.hmac content secret) in
      let (parts', first, then_signed) = bind-ok (put_part t _ _ whole parts) _ out e in
      let put = put_part_lem _ _ whole parts parts' first in
      signed_parts (is_empty secret) _ _ signature parts' out then_signed
      ∙ ap (λ x. x ++ (if is_empty secret then [] else signature ∷ [])) put
      ∙ append_assoc parts (whole ∷ []) (if is_empty secret then [] else signature ∷ [])

  add_file_parts_lem :
      (secret : String) (fs : List ReportFile) (parts out : List FormPart)
      → add_file_parts t secret fs parts ≡ ok out
      → out ≡ parts ++ all_parts secret fs
  unfolding add_file_parts
  add_file_parts_lem secret [] parts out e =
      let same : parts ≡ out = cc e in sym same ∙ sym (append-nil parts)
  add_file_parts_lem secret (f ∷ fs) parts out e =
      let (parts', first, rest) = bind-ok (add_file_part t secret f parts) _ out e in
      add_file_parts_lem secret fs parts' out rest
      ∙ ap (λ x. x ++ all_parts secret fs) (add_file_part_lem secret f parts parts' first)
      ∙ append_assoc parts (parts_of secret f) (all_parts secret fs)

  next_signature-all_parts :
      (secret : String) (fs : List ReportFile) → next_signature (all_parts secret fs) ≡ ""
  next_signature-all_parts secret [] = refl
  next_signature-all_parts secret (f ∷ fs) = refl

  form_contents-all_parts :
      (secret : String) (fs : List ReportFile)
      → form_contents (all_parts secret fs) ≡ map (signed secret) fs
  form_contents-all_parts secret [] = refl
  form_contents-all_parts secret (f ∷ fs) =
      let rest = form_contents-all_parts secret fs in
      let unsigned = next_signature-all_parts secret fs in
      elim (Bool-cases (is_empty secret)) [
        | inl q ↦ simp (q, rest, unsigned)
        | inr q ↦ simp (q, rest)
      ]

  -- For a report, the parts of a form that is written without an error carry the same as the payload of the
  -- JSON format: the three files in Base64, in the same order, each with the signature of what is carried, or
  -- with none in both formats if there is no secret.
  pub formats_agree :
      (secret json : String) (res : FinalResult) (parts : List FormPart)
      → add_file_parts t secret (report_files t json res) [] ≡ ok parts
      → form_contents parts ≡ payload_contents (json_payload t secret json res)
  unfolding report_files json_payload
  formats_agree secret json res parts e =
      ap form_contents (add_file_parts_lem secret (report_files t json res) [] parts e)
      ∙ form_contents-all_parts secret (report_files t json res)
