-- ===== src/Examples/Submissions.antt =====
-- The theorems on the submission of a report, at a server that accepts everything.
use crobe.Common.{ℕ, suc, ◌≡◌, ◌↔◌, refl, none, List, [], ◌∷◌}
use crobe.Common.Text.{concat}
use crobe.Common.Result.{ok}
use crobe.Director.Run.{run_with_observer}
use crobe.Report.{generate_report}
use crobe.Runner.{FinalResult}
use crobe.ReportWriter.{
  Transport, FormPart, file_part, signature_part, report_files, json_payload, add_file_parts,
  add_file_part, add_signature, put_part, write_to_http,
}
use crobe.ReportWriter.Carried.{form_contents, payload_contents, formats_agree}
use crobe.ReportWriter.Submitted.{Submits, write_to_http_iff}
use crobe.Examples.Samples.{playbook, host, never, quick_exec, machine, endpoint_config}

abbrev transport : Transport ℕ
transport = record {
  marshal = λ report. ok "{}";
  marshal_payload = λ payload. ok payload.json;
  base64 = λ s. s;
  hmac = λ s key. key;
  create = λ part. none;
  write = λ part. none;
  form = λ parts. ("form", "multipart/form-data");
  new_request = λ url. none;
  send = λ req w. (ok (201, "created"), suc w);
}

abbrev final : FinalResult
final = record {
  structured =
      generate_report (run_with_observer (host never) quick_exec playbook "run" machine 0).trace;
  markdown = "# Report";
  log = "A log";
}

abbrev written_parts : List FormPart
written_parts =
    file_part "report.json" "application/json" "{}"
    ∷ signature_part "report.json.signature.txt" "s1"
    ∷ file_part "report.md" "text/markdown" "# Report"
    ∷ signature_part "report.md.signature.txt" "s1"
    ∷ file_part "report.log" "text/plain" "A log"
    ∷ signature_part "report.log.signature.txt" "s1"
    ∷ []

parts_written :
    add_file_parts transport "s1" (report_files transport "{}" final) [] ≡ ok written_parts
unfolding add_file_parts add_file_part add_signature put_part report_files concat
parts_written = refl

formats_agree_example :
    form_contents written_parts ≡ payload_contents (json_payload transport "s1" "{}" final)
formats_agree_example = formats_agree transport "s1" "{}" final written_parts parts_written

write_to_http_iff_example :
    ((write_to_http transport endpoint_config final 0).0 ≡ none)
    ↔ Submits transport endpoint_config final 0
write_to_http_iff_example = write_to_http_iff transport endpoint_config final 0
