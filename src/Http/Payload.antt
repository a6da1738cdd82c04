-- ===== src/Http/Payload.antt =====
-- src/ecosystem/http/payload.rs and mime.rs: requests, responses and bodies. Texts are their bytes. A
-- hash map is the function that looks a key up in it.
use uringy.Common.{
  ℕ, Option, none, some, List, [], ◌∷◌, Result, ok, err, Panics, returns, panics, ◌>>=◌,
  if◌then◌else◌,
}
use uringy.Common.Text.{codes, lowercase, same_text, same_letters}

abbrev pub Text : Type 0
Text = List ℕ

abbrev pub Map : Type 0
Map = Text → Option Text

abbrev pub map_insert : Text → Text → Map → Map
map_insert k v m k' = if same_text k' k then some v else m k'

-- The pairs inserted from the first on.
abbrev pub map_from : List (Text × Text) → Map → Map
map_from [] m = m
map_from ((k, v) ∷ kvs) m = map_from kvs (map_insert k v m)

pub data Method : Type 0 where
  get post head put delete connect options trace patch : Method

-- `Method::from_str`
unfoldable pub method_from_str : Text → Result Method (Unit {0})
method_from_str s =
    if same_text s (codes "GET")
    then ok get
    else if same_text s (codes "POST")
    then ok post
    else if same_text s (codes "HEAD")
    then ok head
    else if same_text s (codes "PUT")
    then ok put
    else if same_text s (codes "DELETE")
    then ok delete
    else if same_text s (codes "CONNECT")
    then ok connect
    else if same_text s (codes "OPTIONS")
    then ok options
    else if same_text s (codes "TRACE")
    then ok trace
    else if same_text s (codes "PATCH")
    then ok patch
    else err tt

pub data StatusCode : Type 0 where
  ok_status accepted not_modified temporary_redirect bad_request unauthorized forbidden : StatusCode
  not_found method_not_allowed : StatusCode

-- `u16::from`
abbrev pub status_number : StatusCode → ℕ
status_number ok_status = 200
status_number accepted = 202
status_number not_modified = 304
status_number temporary_redirect = 307
status_number bad_request = 400
status_number unauthorized = 401
status_number forbidden = 403
status_number not_found = 404
status_number method_not_allowed = 405

pub record Request : Type 0 where
  pub method : Method
  pub path : Text
  pub query : Text
  -- `OnceCell`s: what the first call has stored.
  pub query_map : Option Map
  pub headers : List (Text × Text)
  pub header_map : Option Map
  pub body : Text

-- `Request::new`
abbrev pub new_request : Method → Text → Text → List (Text × Text) → Text → Request
new_request method path query headers body = record {
  method = method;
  path = path;
  query = query;
  query_map = none;
  headers = headers;
  header_map = none;
  body = body;
}

-- `serde_urlencoded::from_str`, into a list of pairs, is of another crate.
module _ (from_str : Text → Option (List (Text × Text))) where
  -- `query_params`, with the cell as the call leaves it
  unfoldable pub query_params : Request → Panics (Map × Request)
  query_params request = elim request.query_map [
    | some m ↦ returns (m, request)
    | none ↦ elim (from_str request.query) [
      | none ↦ panics
      | some pairs ↦ returns (
        map_from pairs (λ _. none),
        record request { query_map = some (map_from pairs (λ _. none)) },
      )
    ]
  ]

  -- `query`
  unfoldable pub query_param : Text → Request → Panics (Option Text × Request)
  unfolding query_params
  query_param name request = do (m, request') ← query_params request; returns (m name, request')

abbrev pub lowercase_names : List (Text × Text) → List (Text × Text)
lowercase_names [] = []
lowercase_names ((name, value) ∷ headers) = (lowercase name, value) ∷ lowercase_names headers

-- `headers`, with the cell as the call leaves it
unfoldable pub header_params : Request → Map × Request
header_params request =
    let made : Map = map_from (lowercase_names request.headers) (λ _. none) in
    elim request.header_map [
      | some m ↦ (m, request)
      | none ↦ (made, record request { header_map = some made })
    ]

-- `Request::header`
unfoldable pub request_header : Text → Request → Option Text × Request
unfolding header_params
request_header name request =
    let (m, request') = header_params request in (m (lowercase name), request')

pub record Response : Type 0 where
  pub status : StatusCode
  pub headers : List (Text × Text)
  pub body : Text
  pub content_type : Option Text

-- `iter().find(..)`, and the value
abbrev pub find_header : Text → List (Text × Text) → Option Text
find_header name [] = none
find_header name ((k, v) ∷ headers) =
    let rest = find_header name headers in if same_letters k name then some v else rest

-- `Response::header`
unfoldable pub response_header : Text → Response → Option Text
response_header name response = find_header name response.headers

-- The implementations of `AsBody`: `()`, texts, bytes, and the wrappers of mime.rs.
pub data Body : Type 0 where
  empty : Body
  text bytes : Text → Body
  html java_script css png woff2 : Body → Body

unfoldable pub contents : Body → Text
contents empty = []
contents (text t) = t
contents (bytes t) = t
contents (html b) = contents b
contents (java_script b) = contents b
contents (css b) = contents b
contents (png b) = contents b
contents (woff2 b) = contents b

unfoldable pub content_type_of : Body → Option Text
content_type_of empty = none
content_type_of (text t) = some (codes "text/plain")
content_type_of (bytes t) = some (codes "application/octet-stream")
content_type_of (html b) = some (codes "text/html; charset=utf-8")
content_type_of (java_script b) = some (codes "text/javascript")
content_type_of (css b) = some (codes "text/css")
content_type_of (png b) = some (codes "image/png")
content_type_of (woff2 b) = some (codes "font/woff2")
