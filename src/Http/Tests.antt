-- ===== src/Http/Tests.antt =====
-- Runs of the router of src/ecosystem/http, with a matcher of static paths.
mod Client
mod Reading
mod Connections
use uringy.Common.{
  Bool, not, ◌&&◌, ◌||◌, contains, false, join, ℕ, suc, ◌+◌, ◌*◌, ◌-◌, ◌^◌, ◌<◌, ◌≡◌, refl, inl,
  true, false, Option, none, some, List, [], ◌∷◌, ◌++◌, returns, panics, Result, ok, if◌then◌else◌,
  ◌==◌, arith,
}
use uringy.Common.Text.{codes, same_text, same_text_refl}
use uringy.Common.Decimal.{decimal}
use uringy.Http.Payload.{
  Text, Method, get, post, head, Request, new_request, Response, text, method_from_str, contents,
  content_type_of, method_not_allowed, response_header, request_header,
}
use uringy.Http.Headers.{IsConsistent, request_header-last}
use uringy.Http.Uri.{
  uri_of, parse_partial_uri, is_path_byte, is_query_byte, parse_partial_uri-reads,
  parse_partial_uri-panics,
}
use uringy.Http.Router.{
  Responder, new_responder, Handler, MethodRouter, Matchit, Router, new_method_router, set_method,
  method_handler, handler_of, refuse, or_else, send_body, route, handle,
}
use uringy.Http.Router.Methods.{set_method_lem, method_index, allowance}
use uringy.Http.Router.Routing.{route-handle, route-shadowed, head-refused}
use uringy.Http.Server.{
  Parsed, complete, partial_head, waiting, answered, serialize, serve_round, handle_connection,
}
use uringy.Http.Server.Wire.{response_parts, serialize-response_parts}
use uringy.Http.Server.Serving.{serve_round-answers, serve_round-overflows, handle_connection-waits}

abbrev twice : Request
twice =
    new_request get (codes "/a") (codes "q=1")
      ((codes "Host", codes "x") ∷ (codes "HOST", codes "y") ∷ []) []

request_header-last_example :
    ((request_header (codes "hOst") twice).0 ≡ some (codes "y"))
    × IsConsistent (request_header (codes "hOst") twice).1
    × ((request_header (codes "hOst") twice).1.headers ≡ twice.headers)
request_header-last_example = request_header-last (codes "hOst") twice (inl refl)

bytes_test : is_path_byte b'/' ≡ true
unfolding is_path_byte
bytes_test = refl

pub path_lem : (is_path_byte b'/' ≡ true) × (is_path_byte b'a' ≡ true)
unfolding is_path_byte
path_lem = (refl, refl)

query_lem : (is_query_byte b'q' ≡ true) × (is_query_byte b'=' ≡ true)
unfolding is_query_byte
query_lem = (refl, refl)

parse_partial_uri-reads_example :
    parse_partial_uri (uri_of (codes "/a") (some (codes "q=")) (some (codes "#é")))
    ≡ returns (codes "/a", codes "q=")
parse_partial_uri-reads_example =
    parse_partial_uri-reads (codes "/a") (some (codes "q=")) (some (codes "#é"))
      ((omega arith, path_lem.0), ((omega arith, path_lem.1), tt))
      ((omega arith, query_lem.0), ((omega arith, query_lem.1), tt))

-- The letter at 319 is two bytes long.
parse_partial_uri-panics_test :
    parse_partial_uri (codes "/" ++ ((256 * suc 0 + b'?') ∷ codes "a")) ≡ panics
parse_partial_uri-panics_test =
    parse_partial_uri-panics (codes "/") (codes "a") 0 ((omega arith, path_lem.0), tt)

abbrev pub hello : Handler ℕ
unfolding send_body contents content_type_of
hello r request state = some (send_body (text (codes "hi")) r)

method_router_test :
    (mr' : MethodRouter ℕ) × (set_method ℕ post hello (new_method_router ℕ) ≡ returns mr')
    × ((m' : Method)
        → method_handler ℕ m' mr' ≡ (
            if method_index m' == 1
            then some hello
            else or_else (handler_of ℕ m' (new_method_router ℕ)) (some (refuse ℕ (codes "POST")))))
    × (mr'.allowed_methods ≡ codes "POST")
    × (mr'.head_derived_from_get ≡ none)
    × ((h' : Handler ℕ) → set_method ℕ post h' mr' ≡ panics)
unfolding new_method_router
method_router_test = set_method_lem ℕ post hello (new_method_router ℕ) refl refl

abbrev pub Paths : Type 0
Paths = List (Text × MethodRouter ℕ)

-- A pattern matches itself, and `/{name}` every path of one segment.
abbrev one_segment : Text → Bool
one_segment (b ∷ c ∷ cs) = (b == b'/') && not (contains (c ∷ cs) b'/')
one_segment _ = false

abbrev matches : Text → Text → Bool
matches pattern_ p = same_text p pattern_ || (same_text pattern_ (codes "/{name}") && one_segment p)

abbrev at_path : Paths → Text → Option (MethodRouter ℕ)
at_path [] p = none
at_path ((q, v) ∷ s) p = if matches q p then some v else at_path s p

abbrev update_path : Paths → Text → MethodRouter ℕ → Paths
update_path [] p w = []
update_path ((q, v) ∷ s) p w =
    let rest = update_path s p w in if matches q p then (q, w) ∷ s else (q, v) ∷ rest

pub at-update_path :
    (s : Paths) (p : Text) (v w : MethodRouter ℕ)
    → at_path s p ≡ some v
    → at_path (update_path s p w) p ≡ some w
at-update_path [] p v w h = absurd (ground arith)
at-update_path ((q, u) ∷ s) p v w h = ground (arith, at-update_path s p v w)

pub at-insert_path :
    (s s' : Paths) (p : Text) (v : MethodRouter ℕ)
    → ◌≡◌ {A = Option Paths} (some ((p, v) ∷ s)) (some s')
    → at_path s' p ≡ some v
at-insert_path s s' p v e = ground (arith, same_text_refl p)

pub at-insert_pattern :
    (s s' : Paths) (pattern_ p : Text) (v : MethodRouter ℕ)
    → matches pattern_ p ≡ true
    → ◌≡◌ {A = Option Paths} (some ((pattern_, v) ∷ s)) (some s')
    → at_path s' p ≡ some v
at-insert_pattern s s' pattern_ p v m e = ground (arith, m)

abbrev pub paths : Matchit ℕ
paths = record {
  Store = Paths;
  empty_matcher = [];
  at = at_path;
  update = update_path;
  insert = λ s p v. some ((p, v) ∷ s);
  IsStatic = λ p. Unit {0};
  Matches = λ pattern_ p. matches pattern_ p ≡ true;
  at-empty = λ p. refl;
  at-update = at-update_path;
  at-insert = λ s s' p v static e. at-insert_path s s' p v e;
  at-insert-matches = λ s s' pattern_ p v m free e. at-insert_pattern s s' pattern_ p v m e;
}

abbrev pub router : Router ℕ paths
router = record { matcher = []; matcher_paths = []; fallback = hello; state = some 0 }

route-handle_example :
    (router' : Router ℕ paths) × (route ℕ paths post (codes "/a") hello router ≡ returns router')
    × ((r : Responder) (request : Request) (s : ℕ)
        → handle ℕ paths r
            (record request { path = codes "/a" })
            (record router' { state = some s })
          ≡ returns (
              if method_index request.method == method_index post
              then hello r (record request { path = codes "/a" }) s
              else refuse ℕ (allowance post) r (record request { path = codes "/a" }) s))
    × (router'.matcher_paths ≡ codes "/a" ∷ [])
route-handle_example =
    route-handle ℕ paths post (codes "/a") hello router tt refl (λ v. ((codes "/a", v) ∷ [], refl))

abbrev pub taken : MethodRouter ℕ
taken = record {
  get = some hello;
  post = none;
  head = none;
  put = none;
  delete = none;
  connect = none;
  options = none;
  trace = none;
  patch = none;
  head_derived_from_get = none;
  allowed_methods = codes "GET, HEAD";
  other_method_allowed = none;
}

-- `/{name}` takes `/a`, which is no route yet.
route-shadowed_example :
    (router' : Router ℕ paths) × (route ℕ paths get (codes "/{name}") hello router
      ≡ returns router')
    × ((h' : Handler ℕ) → route ℕ paths get (codes "/a") h' router' ≡ panics)
    × ((r : Responder) (request : Request) (s : ℕ)
        → handle ℕ paths r
            (record request { path = codes "/a"; method = get })
            (record router' { state = some s })
          ≡ returns (hello r (record request { path = codes "/a"; method = get }) s))
route-shadowed_example =
    route-shadowed ℕ paths get (codes "/{name}") (codes "/a") hello router refl refl refl
      (λ v. ((codes "/{name}", v) ∷ [], refl))

head-refused_test :
    (router' : Router ℕ paths) × (route ℕ paths get (codes "/a") hello router ≡ returns router')
    × ((request : Request) (s : ℕ)
        → (response : Response) × (handle ℕ paths new_responder
              (record request { path = codes "/a"; method = head })
              (record router' { state = some s })
            ≡ returns (some response))
          × (response.status ≡ method_not_allowed)
          × (response_header (codes "allow") response ≡ some (codes "GET, HEAD")))
head-refused_test =
    head-refused ℕ paths (codes "/a") hello router tt refl (λ v. ((codes "/a", v) ∷ [], refl))
