-- ===== src/Server/State/Secrets.antt =====
-- What `GetPlaybookInspection` (internal/server/state.go) shows of the secrets of a playbook.
use crobe.Common.{◌≡◌, refl, some, List, map, String, is_empty}
use crobe.Playbook.{Playbook, ReportDestinationConfig}
use crobe.Playbook.Elevation.{requires_elevation}
use crobe.Playbook.Elevation.{elevation_stats}
use crobe.Server.State.{StateManager, inspect_https, get_playbook_inspection}

abbrev keys : List (String × String) → List String
keys kvs = map (λ (kv : String × String). kv.0) kvs

-- Two configurations that differ in nothing but the values of their headers and the text of a secret
-- that both have, or neither has.
pub record IsAlike (c d : ReportDestinationConfig) : Type 0 where
  pub url : c.url ≡ d.url
  pub format : c.format ≡ d.format
  pub has_secret : is_empty c.signature_secret ≡ is_empty d.signature_secret
  pub header_names : keys c.additional_headers ≡ keys d.additional_headers

abbrev pub with_https : Playbook → ReportDestinationConfig → Playbook
with_https pb c = record pb { report_destination_https = some c }

inspect_https-IsAlike :
    (c d : ReportDestinationConfig) → IsAlike c d → inspect_https (some c) ≡ inspect_https (some d)
unfolding inspect_https
inspect_https-IsAlike c d h = rw (h.url, h.format, h.has_secret, h.header_names) refl

-- The inspection of a playbook does not depend on the text of the signature secret nor on the values of
-- the additional headers, but for whether the secret is empty.
pub inspection_hides_secrets :
    {R : Type 0} (sm : StateManager R) (pb : Playbook) (c d : ReportDestinationConfig)
    → IsAlike c d
    → get_playbook_inspection (record sm { playbook = some (with_https pb c) })
      ≡ get_playbook_inspection (record sm { playbook = some (with_https pb d) })
unfolding get_playbook_inspection requires_elevation elevation_stats
inspection_hides_secrets sm pb c d h = rw (inspect_https-IsAlike c d h) refl
