-- ===== src/Tests/Requests.antt =====
-- Identifiers in paths, headers and responses (frontend/src/helpers/encoding.js, fetch-wrapper.js).
use wg_portal.Prelude.{
  ℕ, String, List, [], ◌∷◌, some, none, false, not, ◌&&◌, ◌≡◌, refl, arith, includes, is_some,
  if◌then◌else◌,
}
use Prim.Native.String
use wg_portal.Encoding.{replace_first, url_safe, base64_url_encode, base64_url_decode}
use wg_portal.Encoding.Base64.{btoa}
use wg_portal.Encoding.RoundTrip.{decode-base64_url_encode}
use wg_portal.Js.{World}
use wg_portal.Auth.{AuthStore, load_store, is_authenticated, user_identifier}
use wg_portal.Auth.SignIn.{is_fulfilled, signed_in}
use wg_portal.Security.{SecurityStore}
use wg_portal.FetchWrapper.{RequestOptions, mutating, api_request, Response, json, handle_response}
use wg_portal.FetchWrapper.Laws.{
  header, api_request-headers, handle_response-session, ends_session, is_malformed,
}

-- `wg/0?`, whose base64 text has no slash, and `???`, whose base64 text `Pz8/` has one.
abbrev wg : List ℕ
wg = b'w' ∷ b'g' ∷ b'/' ∷ b'0' ∷ []

decode-base64_url_encode_example :
    (t : List ℕ) × (base64_url_encode wg ≡ some t) × (base64_url_decode t ≡ some wg)
decode-base64_url_encode_example =
    decode-base64_url_encode wg (omega arith, (omega arith, (omega arith, (omega arith, tt))))

-- Six question marks, whose base64 text is `Pz8/Pz8/`.
abbrev marks : List ℕ
marks = b'?' ∷ b'?' ∷ b'?' ∷ b'?' ∷ b'?' ∷ b'?' ∷ []

abbrev plain : List ℕ
plain = b'P' ∷ b'z' ∷ b'8' ∷ b'/' ∷ b'P' ∷ b'z' ∷ b'8' ∷ b'/' ∷ []

abbrev safe : List ℕ
safe = b'P' ∷ b'z' ∷ b'8' ∷ b'_' ∷ b'P' ∷ b'z' ∷ b'8' ∷ b'/' ∷ []

btoa-marks : btoa marks ≡ some plain
unfolding btoa
btoa-marks = refl

encode-marks : base64_url_encode marks ≡ some safe
unfolding base64_url_encode url_safe replace_first btoa
encode-marks = refl

abbrev alice : AuthStore
alice = load_store (record {
  user = some (record {
    identifier = "alice";
    firstname = "";
    lastname = "";
    email = "";
    is_admin = false;
  });
  return_url = none;
})

abbrev token : SecurityStore
token = record { csrf_token = "t0" }

abbrev backend : String
backend = "/api/v0"

api_request-headers_example :
    (o : RequestOptions) × (api_request backend alice token "PUT" "/peer/x" (some "{}") ≡ some o)
    × (o.url ≡ String.◌++◌ backend "/peer/x")
    × (o.body ≡ some "{}")
    × (header "X-CSRF-TOKEN" o.headers ≡ (if includes mutating "PUT" then some "t0" else none))
    × (header "X-FRONTEND-UID" o.headers
        ≡ (if is_authenticated alice then some (user_identifier alice) else none))
    × (header "Content-Type" o.headers
        ≡ (if is_some {A = String} (some "{}") then some "application/json" else none))
api_request-headers_example = api_request-headers backend alice token "PUT" "/peer/x" (some "{}")

-- A refusal with a message, and the response of the logout that follows.
abbrev refusal : Response String
refusal = record {
  success = false;
  status = 401;
  status_text = "Unauthorized";
  content = json "no";
}

abbrev browser : World AuthStore
browser = record { store = alice; log = [] }

handle_response-session_example :
    (is_fulfilled (handle_response some refusal browser)
      ≡ (refusal.success && not (is_malformed refusal.content)))
    × (signed_in (handle_response some refusal browser)
        ≡ (is_authenticated alice && not (ends_session refusal)))
handle_response-session_example = handle_response-session some refusal browser
