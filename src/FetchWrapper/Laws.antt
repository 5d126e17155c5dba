-- ===== src/FetchWrapper/Laws.antt =====
-- The headers of a request, and what a response does to the session, on every branch.
use Prim.Native.String
use text.Mathlib.Text.{starts_with}
use text.Mathlib.TextPositions.{starts_with-append}
use wg_portal.Prelude.{
  String, [], ◌∷◌, ◌++◌, Option, some, none, Bool, true, false, not, ◌&&◌, ◌||◌, ◌==◌, ◌≡◌, refl,
  ◌===◌, includes, if◌then◌else◌, is_some, arith, sym, ◌∙◌,
}
use wg_portal.Js.{World, Out, ok, throw, hang, Reply, fulfilled, rejected}
use wg_portal.Js.Keeping.{settled}
use wg_portal.Auth.{AuthStore, is_authenticated, user_identifier, set_user_info, reset_return_url}
use wg_portal.Auth.Requests.{logout}
use wg_portal.Auth.SignIn.{is_fulfilled, signed_in}
use wg_portal.Security.{SecurityStore, load_security_properties_reply}
use wg_portal.FetchWrapper.{
  Headers, RequestOptions, mutating, get_headers, headers_for, api_request, with_body, Content,
  empty, json, malformed, Response, reject_response, handle_response,
}

-- The value of a header.
unfoldable pub header : String → Headers → Option String
header name [] = none
header name ((k, v) ∷ rest) = if k === name then some v else header name rest

-- The headers that are found, by the three tests.
found_headers :
    (base : String) (auth : AuthStore) (sec : SecurityStore) (method : String)
    (body : Option String) (is_api_url : Bool)
    → let h = with_body base auth sec body (headers_for base auth sec method is_api_url) in
      (header "X-CSRF-TOKEN" h
        ≡ (if is_api_url && includes mutating method then some sec.csrf_token else none))
      × (header "X-FRONTEND-UID" h
          ≡ (if is_api_url && is_authenticated auth then some (user_identifier auth) else none))
      × (header "Content-Type" h ≡ (if is_some body then some "application/json" else none))
unfolding header
found_headers base auth sec method body is_api_url =
    by_tests (includes mutating method) (is_authenticated auth) is_api_url body
  where
    by_tests :
        (changes signed is_api_url : Bool) (body : Option String)
        → let h = with_body base auth sec body (
            (if is_api_url && changes then ("X-CSRF-TOKEN", sec.csrf_token) ∷ [] else [])
            ++ (if is_api_url && signed
                then ("X-FRONTEND-UID", user_identifier auth) ∷ []
                else [])) in
          (header "X-CSRF-TOKEN" h ≡ (if is_api_url && changes then some sec.csrf_token else none))
          × (header "X-FRONTEND-UID" h
              ≡ (if is_api_url && signed then some (user_identifier auth) else none))
          × (header "Content-Type" h ≡ (if is_some body then some "application/json" else none))
    by_tests true true true none = (refl, refl, refl)
    by_tests true true true (some _) = (refl, refl, refl)
    by_tests true false true none = (refl, refl, refl)
    by_tests true false true (some _) = (refl, refl, refl)
    by_tests false true true none = (refl, refl, refl)
    by_tests false true true (some _) = (refl, refl, refl)
    by_tests false false true none = (refl, refl, refl)
    by_tests false false true (some _) = (refl, refl, refl)
    by_tests changes signed false none = (refl, refl, refl)
    by_tests changes signed false (some _) = (refl, refl, refl)

-- A request of the backend is always made, at the base URL with the path: it has the CSRF token
-- exactly if its method is POST, PUT, PATCH or DELETE, the user's identifier exactly if a user is
-- signed in, and a content type exactly if it has a body.
pub api_request-headers :
    (base : String) (auth : AuthStore) (sec : SecurityStore) (method path : String)
    (body : Option String)
    → (o : RequestOptions) × (api_request base auth sec method path body ≡ some o)
      × (o.url ≡ String.◌++◌ base path)
      × (o.body ≡ body)
      × (header "X-CSRF-TOKEN" o.headers
          ≡ (if includes mutating method then some sec.csrf_token else none))
      × (header "X-FRONTEND-UID" o.headers
          ≡ (if is_authenticated auth then some (user_identifier auth) else none))
      × (header "Content-Type" o.headers ≡ (if is_some body then some "application/json" else none))
unfolding api_request get_headers header
api_request-headers base auth sec method path body =
    let found = found_headers base auth sec method body true in
    let is_api_url = starts_with-append base path in
    (
      _,
      refl,
      refl,
      refl,
      rw (is_api_url, found.0),
      rw (is_api_url, found.1),
      rw (is_api_url, found.2),
    )

-- A request of a URL that does not begin with the backend's base URL gets none of the headers that
-- belong to the session.
get_headers-foreign :
    (base : String) (auth : AuthStore) (sec : SecurityStore) (method url : String)
    → starts_with url base ≡ false
    → get_headers base auth sec method (some url) ≡ some []
unfolding get_headers
get_headers-foreign base auth sec method url h = rw (h)

abbrev pub is_malformed : {D : Type 0} → Content D → Bool
is_malformed empty = false
is_malformed (json _) = false
is_malformed malformed = true

-- Whether a response is one that signs the user out.
abbrev pub ends_session : {D : Type 0} → Response D → Bool
ends_session r =
    not r.success && not (is_malformed r.content) && (r.status == 401 || r.status == 403)

-- The promise is fulfilled exactly by a success whose text is empty or JSON. The user is signed in
-- afterwards exactly if it was before and the response is not a failure of status 401 or 403 whose
-- text is empty or JSON; other failures sign nobody out.
pub handle_response-session :
    {D : Type 0} (message : D → Option String) (r : Response D) (w : World AuthStore)
    → (is_fulfilled (handle_response message r w) ≡ (r.success && not (is_malformed r.content)))
      × (signed_in (handle_response message r w)
          ≡ (is_authenticated w.store && not (ends_session r)))
unfolding handle_response reject_response logout set_user_info reset_return_url is_authenticated
handle_response-session message r w = (ground arith, ground arith)

settled-signed_in :
    {A : Type 0} (out : Out AuthStore A) (v : World AuthStore)
    → settled out ≡ some v
    → signed_in out ≡ is_authenticated v.store
settled-signed_in (ok _ w) v h = ground arith
settled-signed_in (throw _ w) v h = ground arith
settled-signed_in hang v h = ground arith

-- Nobody is signed in: a response changes nothing.
signed_out-settled :
    {D : Type 0} (message : D → Option String) (r : Response D) (v : World AuthStore)
    → is_authenticated v.store ≡ false
    → settled (handle_response message r v) ≡ some v
unfolding handle_response reject_response
signed_out-settled message r v h = ground arith

-- When one response has ended the session, the next one of any kind, such as that of the logout
-- itself, changes nothing and makes no further request.
handle_response-once :
    {D : Type 0} (message : D → Option String) (r next : Response D) (w v : World AuthStore)
    → ends_session r ≡ true
    → settled (handle_response message r w) ≡ some v
    → settled (handle_response message next v) ≡ some v
handle_response-once message r next w v h k = signed_out-settled message next v (
    sym (settled-signed_in (handle_response message r w) v k)
    ∙ (handle_response-session message r w).1
    ∙ ground (arith, h))

-- The token of a reply; a failed request gives an empty one.
abbrev token_of : Reply String → String
token_of (fulfilled token) = token
token_of (rejected e) = ""

-- Whatever the reply to the request for the CSRF token, the promise is fulfilled, and each request
-- of a changing method carries the token that it left.
csrf_token-api_request :
    (base : String) (auth : AuthStore) (method path : String) (body : Option String)
    (r : Reply String) (w : World SecurityStore)
    → includes mutating method ≡ true
    → (v : World SecurityStore) × (o : RequestOptions) × (load_security_properties_reply r w
        ≡ ok tt v)
      × (api_request base auth v.store method path body ≡ some o)
      × (header "X-CSRF-TOKEN" o.headers ≡ some (token_of r))
unfolding load_security_properties_reply
csrf_token-api_request base auth method path body (fulfilled token) w h =
    let sec : SecurityStore = record { csrf_token = token } in
    let o = api_request-headers base auth sec method path body in
    (record w { store = sec }, o.0, refl, o.1, o.4 ∙ rw (h))
csrf_token-api_request base auth method path body (rejected e) w h =
    let sec : SecurityStore = record { csrf_token = "" } in
    let o = api_request-headers base auth sec method path body in (_, o.0, refl, o.1, o.4 ∙ rw (h))
