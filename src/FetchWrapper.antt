-- ===== src/FetchWrapper.antt =====
-- The wrappers of fetch (frontend/src/helpers/fetch-wrapper.js): the headers and options of a
-- request, and what becomes of a response. `base` is WGPORTAL_BACKEND_BASE_URL, a constant of the
-- build; a body is its JSON text; `none` stands for a TypeError of the wrapper.
pub mod Laws
pub mod Received
use Prim.Native.String
use text.Mathlib.Text.{starts_with}
use wg_portal.Prelude.{
  ℕ, String, List, [], ◌∷◌, ◌++◌, Option, some, none, Bool, true, false, ◌&&◌, ◌||◌, ◌==◌, includes,
  if◌then◌else◌, map_option, or_else,
}
use wg_portal.Js.{
  M, Out, ok, Thrown, error, type_error, return, reject, state, when, pass, ◌>>◌, ◌>>=◌,
}
use wg_portal.Auth.{AuthStore, is_authenticated, user_identifier}
use wg_portal.Auth.Requests.{logout}
use wg_portal.Security.{SecurityStore}

abbrev pub Headers : Type 0
Headers = List (String × String)

pub record RequestOptions : Type 0 where
  pub url : String
  pub method : String
  pub headers : Headers
  pub body : Option String

abbrev pub mutating : List String
mutating = "POST" ∷ "PUT" ∷ "PATCH" ∷ "DELETE" ∷ []

module _ (base : String) (auth : AuthStore) (sec : SecurityStore) where
  abbrev headers_for : String → Bool → Headers
  headers_for method is_api_url =
      (if is_api_url && includes mutating method then ("X-CSRF-TOKEN", sec.csrf_token) ∷ [] else [])
      ++ (if is_api_url && is_authenticated auth
          then ("X-FRONTEND-UID", user_identifier auth) ∷ []
          else [])

  -- `getHeaders(method, url)`; with no url, `undefined.startsWith` is a TypeError.
  unfoldable pub get_headers : String → Option String → Option Headers
  get_headers method url = map_option (λ u. headers_for method (starts_with u base)) url

  -- The content type of a request with a body.
  abbrev with_body : Option String → Headers → Headers
  with_body none h = h
  with_body (some _) h = h ++ ("Content-Type", "application/json") ∷ []

  -- `request(method)(url, body)`: getHeaders is given the url as its method, and no url.
  unfoldable pub request : String → String → Option String → Option RequestOptions
  request method url body =
      map_option
        (λ h. record { url = url; method = method; headers = with_body body h; body = body })
        (get_headers url none)

  -- `apiRequest(method)(path, body)`
  unfoldable pub api_request : String → String → Option String → Option RequestOptions
  api_request method path body =
      let url = String.◌++◌ base path in
      map_option
        (λ h. record { url = url; method = method; headers = with_body body h; body = body })
        (get_headers method (some url))

-- `url(path)`
unfoldable api_url : String → String → String
api_url base path = String.◌++◌ base path

-- The text of a response: empty, JSON, or a text that JSON.parse rejects.
pub data Content (D : Type 0) : Type 0 where
  empty : Content D
  json : D → Content D
  malformed : Content D

pub record Response (D : Type 0) : Type 0 where
  pub success : Bool
  pub status : ℕ
  pub status_text : String
  pub content : Content D

abbrev pub data_of : {D : Type 0} → Content D → Option D
data_of empty = none
data_of (json d) = some d
data_of malformed = none

-- `message` reads the field Message, if it is there and not empty.
module _ {D : Type 0} (message : D → Option String) where
  -- `(data && data.Message) || response.statusText`
  abbrev error_text : Response D → String
  error_text r = elim (data_of r.content) [
    | none ↦ r.status_text
    | some d ↦ or_else (message d) r.status_text
  ]

  -- A response that is no success rejects, and one of status 401 or 403 signs the user out first: the
  -- logout runs up to its own request, and the rest of it is no part of the response.
  unfoldable pub reject_response : Response D → M AuthStore (Option D)
  reject_response r = do
    s ← state
    when ((r.status == 401 || r.status == 403) && is_authenticated s) logout pass
    reject (error (error_text r))

  -- `handleResponse(response)`; the text is parsed first.
  unfoldable pub handle_response : Response D → M AuthStore (Option D)
  unfolding reject_response
  handle_response r = elim r.content [
    | malformed ↦ reject (error "SyntaxError")
    | empty ↦ if r.success then return none else reject_response r
    | json d ↦ if r.success then return (some d) else reject_response r
  ]
