-- ===== src/Examples/Requests.antt =====
-- The theorem on the authentication, at a request with a header and an empty cookie.
use crobe.Common.{◌≡◌, ◌⊎◌, ◌↔◌, true, some, String}
use crobe.Server.Auth.{AuthRequest, passes_auth, Brings, passes_auth_iff}

-- A text in lower case already.
abbrev lower : String → String
lower s = s

abbrev server_token : String
server_token = "abc"

abbrev with_header : AuthRequest
with_header = record { cookie = some ""; authorization = "bearer abc"; query_token = "xyz" }

passes_auth_iff_example :
    (passes_auth lower server_token with_header ≡ true)
    ↔ ((server_token ≡ "") ⊎ Brings lower server_token with_header)
passes_auth_iff_example = passes_auth_iff lower server_token with_header
