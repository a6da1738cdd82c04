-- ===== src/Http/Router.antt =====
-- src/ecosystem/http/server/route.rs, and the responder of src/ecosystem/http/mod.rs. A handler takes a
-- responder, which it can use once: what it gives is the response, if it sends one.
pub mod Methods
pub mod Routing
use uringy.Common.{
  ℕ, ◌≡◌, refl, Bool, true, false, not, Option, none, some, List, [], ◌∷◌, ◌++◌, Panics, returns,
  panics, ◌>>=◌, ◌>>◌, assert, if◌then◌else◌, is_some,
}
use uringy.Common.Text.{codes}
use uringy.Http.Payload.{
  Text, Method, get, post, head, put, delete, connect, options, trace, patch, StatusCode, ok_status,
  not_found, method_not_allowed, Request, Response, Body, empty, contents, content_type_of,
}

pub record Responder : Type 0 where
  pub status : StatusCode
  pub headers : List (Text × Text)

-- `Responder::new`
abbrev pub new_responder : Responder
new_responder = record { status = ok_status; headers = [] }

-- `Responder::status`
abbrev pub with_status : StatusCode → Responder → Responder
with_status s r = record r { status = s }

-- `Responder::header`
abbrev pub with_header : Text → Text → Responder → Responder
with_header name value r = record r { headers = r.headers ++ ((name, value) ∷ []) }

-- `Responder::send`
unfoldable pub send_body : Body → Responder → Response
unfolding contents content_type_of
send_body body r = record {
  status = r.status;
  headers = r.headers;
  body = contents body;
  content_type = content_type_of body;
}

abbrev pub or_else {ℓ} : {A : Type ℓ} → Option A → Option A → Option A
or_else (some a) o = some a
or_else none o = o

module _ (S : Type 0) where
  abbrev pub Handler : Type 0
  Handler = Responder → Request → S → Option Response

  -- The handler that `append_allowed_method` makes.
  unfoldable pub refuse : Text → Handler
  unfolding send_body
  refuse allowed_methods r request state = some (
      send_body empty
        (with_header (codes "allow") allowed_methods (with_status method_not_allowed r)))

  pub record MethodRouter : Type 0 where
    pub get : Option Handler
    pub post : Option Handler
    pub head : Option Handler
    pub put : Option Handler
    pub delete : Option Handler
    pub connect : Option Handler
    pub options : Option Handler
    pub trace : Option Handler
    pub patch : Option Handler
    pub head_derived_from_get : Option Handler
    pub allowed_methods : Text
    pub other_method_allowed : Option Handler

  -- `MethodRouter::new`
  unfoldable pub new_method_router : MethodRouter
  new_method_router = record {
    get = none;
    post = none;
    head = none;
    put = none;
    delete = none;
    connect = none;
    options = none;
    trace = none;
    patch = none;
    head_derived_from_get = none;
    allowed_methods = [];
    other_method_allowed = none;
  }

  abbrev pub append_text : Text → Text → Text
  append_text [] method = method
  append_text (b ∷ bs) method = (b ∷ bs) ++ (codes ", " ++ method)

  unfoldable pub append_allowed_method : Text → MethodRouter → MethodRouter
  unfolding refuse
  append_allowed_method method mr =
      let allowed : Text = append_text mr.allowed_methods method in
      record mr { allowed_methods = allowed; other_method_allowed = some (refuse allowed) }

  -- `set`, with the setter of each method
  unfoldable pub set_method : Method → Handler → MethodRouter → Panics MethodRouter
  unfolding append_allowed_method
  set_method get h mr = do
    assert (not (is_some mr.get))
    returns (append_allowed_method (codes "GET, HEAD") (record mr { get = some h }))
  set_method post h mr = do
    assert (not (is_some mr.post))
    returns (append_allowed_method (codes "POST") (record mr { post = some h }))
  set_method head h mr = do
    assert (not (is_some mr.head))
    returns (
        append_allowed_method (codes "HEAD")
          (record mr { head = some h; head_derived_from_get = none }))
  set_method put h mr = do
    assert (not (is_some mr.put))
    returns (append_allowed_method (codes "PUT") (record mr { put = some h }))
  set_method delete h mr = do
    assert (not (is_some mr.delete))
    returns (append_allowed_method (codes "DELETE") (record mr { delete = some h }))
  set_method connect h mr = do
    assert (not (is_some mr.connect))
    returns (append_allowed_method (codes "CONNECT") (record mr { connect = some h }))
  set_method options h mr = do
    assert (not (is_some mr.options))
    returns (append_allowed_method (codes "OPTIONS") (record mr { options = some h }))
  set_method trace h mr = do
    assert (not (is_some mr.trace))
    returns (append_allowed_method (codes "TRACE") (record mr { trace = some h }))
  set_method patch h mr = do
    assert (not (is_some mr.patch))
    returns (append_allowed_method (codes "PATCH") (record mr { patch = some h }))

  abbrev pub handler_of : Method → MethodRouter → Option Handler
  handler_of get mr = mr.get
  handler_of post mr = mr.post
  handler_of head mr = or_else mr.head mr.head_derived_from_get
  handler_of put mr = mr.put
  handler_of delete mr = mr.delete
  handler_of connect mr = mr.connect
  handler_of options mr = mr.options
  handler_of trace mr = mr.trace
  handler_of patch mr = mr.patch

  -- `MethodRouter::handle`
  unfoldable pub method_handler : Method → MethodRouter → Option Handler
  method_handler m mr = or_else (handler_of m mr) mr.other_method_allowed

  -- The crate `matchit`, as a parameter: a matcher from paths to values. `at` finds the value that
  -- matches a path, and `update` is an assignment to what `at_mut` finds; `insert` fails on a conflict.
  pub record Matchit : Type 1 where
    pub Store : Type 0
    pub empty_matcher : Store
    pub at : Store → Text → Option MethodRouter
    pub update : Store → Text → MethodRouter → Store
    pub insert : Store → Text → MethodRouter → Option Store
    -- A path without parameters, which matches itself only.
    pub IsStatic : Text → Type 0
    -- A path that a pattern matches.
    pub Matches : Text → Text → Type 0
    pub at-empty : (p : Text) → at empty_matcher p ≡ none
    pub at-update :
        (s : Store) (p : Text) (v w : MethodRouter) → at s p ≡ some v → at (update s p w) p ≡ some w
    pub at-insert :
        (s s' : Store) (p : Text) (v : MethodRouter)
        → IsStatic p
        → insert s p v ≡ some s'
        → at s' p ≡ some v
    -- A pattern takes the paths that it matches, those that were taken before excepted.
    pub at-insert-matches :
        (s s' : Store) (pattern_ p : Text) (v : MethodRouter)
        → Matches pattern_ p
        → at s p ≡ none
        → insert s pattern_ v ≡ some s'
        → at s' p ≡ some v

  module _ (M : Matchit) where
    pub record Router : Type 0 where
      pub matcher : M.Store
      pub matcher_paths : List Text
      pub fallback : Handler
      pub state : Option S

    -- `Router::new`
    unfoldable pub new_router : Router
    unfolding send_body
    new_router = record {
      matcher = M.empty_matcher;
      matcher_paths = [];
      fallback = λ r request state. some (send_body empty (with_status not_found r));
      state = none;
    }

    -- `with_state`
    unfoldable pub with_state : S → Router → Panics Router
    with_state s router = do
      assert (not (is_some router.state))
      returns (record router { state = some s })

    abbrev pub inserted : Option M.Store → Panics M.Store
    inserted (some s) = returns s
    inserted none = panics

    -- `route`
    unfoldable pub route : Method → Text → Handler → Router → Panics Router
    unfolding set_method new_method_router
    route m path h router = elim (M.at router.matcher path) [
      | some found ↦ (do
        mr ← set_method m h found
        returns (record router { matcher = M.update router.matcher path mr }))
      | none ↦ (do
        mr ← set_method m h new_method_router
        matcher ← inserted (M.insert router.matcher path mr)
        returns (record router {
          matcher = matcher;
          matcher_paths = router.matcher_paths ++ (path ∷ []);
        }))
    ]

    -- `fallback`
    unfoldable pub with_fallback : Handler → Router → Router
    with_fallback h router = record router { fallback = h }

    abbrev pub found_handler : Method → Option MethodRouter → Option Handler
    found_handler m none = none
    found_handler m (some mr) = method_handler m mr

    abbrev pub or_fallback : Option Handler → Handler → Handler
    or_fallback (some h) f = h
    or_fallback none f = f

    abbrev pub apply_state : Option S → (S → Option Response) → Panics (Option Response)
    apply_state none f = panics
    apply_state (some s) f = returns (f s)

    -- `Router::handle`
    unfoldable pub handle : Responder → Request → Router → Panics (Option Response)
    unfolding method_handler
    handle r request router =
        let h : Handler =
          or_fallback (found_handler request.method (M.at router.matcher request.path))
            router.fallback in
        apply_state router.state (h r request)
