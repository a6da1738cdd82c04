-- ===== src/Http/Router/Routing.antt =====
-- What the router of src/ecosystem/http/server/route.rs answers to requests.
use uringy.Common.{
  ◌≡◌, refl, ◌∙◌, none, some, [], ◌∷◌, ◌++◌, returns, panics, if◌then◌else◌, ◌==◌, arith,
}
use uringy.Common.Text.{codes}
use uringy.Http.Payload.{
  Text, Method, get, head, empty, Request, Response, method_not_allowed, response_header,
}
use uringy.Http.Router.{
  Responder, new_responder, Handler, MethodRouter, Matchit, Router, refuse, method_handler,
  handler_of, new_method_router, route, handle, or_else, send_body,
}
use uringy.Http.Router.Methods.{set_method_lem, method_index, allowance}

module _ (S : Type 0) (M : Matchit S) where
  -- A route to a static path that matches nothing yet is added. A request for that path is then
  -- answered by the route's handler if it has the route's method, and else by the refusal that lists
  -- what is allowed.
  pub route-handle :
      (m : Method) (p : Text) (h : Handler S) (router : Router S M)
      → M.IsStatic p
      → M.at router.matcher p ≡ none
      → ((v : MethodRouter S) → (s : M.Store) × (M.insert router.matcher p v ≡ some s))
      → (router' : Router S M) × (route S M m p h router ≡ returns router')
        × ((r : Responder) (request : Request) (s : S)
            → handle S M r (record request { path = p }) (record router' { state = some s })
              ≡ returns (
                  if method_index request.method == method_index m
                  then h r (record request { path = p }) s
                  else refuse S (allowance m) r (record request { path = p }) s))
        × (router'.matcher_paths ≡ router.matcher_paths ++ (p ∷ []))
  unfolding route handle new_method_router
  route-handle m p h router static fresh inserts =
      let (mr, set, answers, allowed, underived, again) =
        set_method_lem S m h (new_method_router S) (free m) refl in
      let (st, inserted_) = inserts mr in
      let there : M.at st p ≡ some mr = M.at-insert router.matcher st p mr static inserted_ in
      let answer : (m' : Method)
          → method_handler S m' mr
            ≡ some (if method_index m' == method_index m then h else refuse S (allowance m)) =
        λ m'. answers m' ∙ chosen m' in
      (
        record router { matcher = st; matcher_paths = router.matcher_paths ++ (p ∷ []) },
        ground (arith, fresh, set, inserted_),
        (λ r request s. ground (arith, there, answer request.method)),
        refl,
      )
    where
      free : (m' : Method) → handler_of S m' (new_method_router S) ≡ none
      free m' = ground arith

      chosen :
          (m' : Method)
          → (if method_index m' == method_index m
              then some h
              else or_else (handler_of S m' (new_method_router S)) (some (refuse S (allowance m))))
            ≡ some (if method_index m' == method_index m then h else refuse S (allowance m))
      chosen m' = ground (arith, free m')

  -- `route` looks its path up as the path of a request. So once a new pattern has been routed, a route
  -- with the same method to a path that the pattern matches panics, be it a static path that was not
  -- routed before. Until then a request for that path is answered by the handler of the pattern.
  pub route-shadowed :
      (m : Method) (pattern_ p : Text) (h : Handler S) (router : Router S M)
      → M.Matches pattern_ p
      → M.at router.matcher pattern_ ≡ none
      → M.at router.matcher p ≡ none
      → ((v : MethodRouter S) → (s : M.Store) × (M.insert router.matcher pattern_ v ≡ some s))
      → (router' : Router S M) × (route S M m pattern_ h router ≡ returns router')
        × ((h' : Handler S) → route S M m p h' router' ≡ panics)
        × ((r : Responder) (request : Request) (s : S)
            → handle S M r
                (record request { path = p; method = m })
                (record router' { state = some s })
              ≡ returns (h r (record request { path = p; method = m }) s))
  unfolding route handle
  route-shadowed m pattern_ p h router matches fresh untaken inserts =
      let (mr, set, answers, allowed, underived, again) =
        set_method_lem S m h (new_method_router S) (free m) refl in
      let (st, inserted_) = inserts mr in
      let there : M.at st p ≡ some mr =
        M.at-insert-matches router.matcher st pattern_ p mr matches untaken inserted_ in
      let answer : method_handler S m mr ≡ some h = answers m ∙ itself in
      (
        record router { matcher = st; matcher_paths = router.matcher_paths ++ (pattern_ ∷ []) },
        ground (arith, fresh, set, inserted_),
        (λ h'. ground (arith, there, again h')),
        (λ r request s. ground (arith, there, answer)),
      )
    where
      itself :
          (if method_index m == method_index m
            then some h
            else or_else (handler_of S m (new_method_router S)) (some (refuse S (allowance m))))
          ≡ some h
      itself = ground arith

      free : (m' : Method) → handler_of S m' (new_method_router S) ≡ none
      free m' = ground arith

  -- With a handler for GET only, a HEAD request is refused, by a response that lists HEAD among the
  -- methods that are allowed.
  pub head-refused :
      (p : Text) (h : Handler S) (router : Router S M)
      → M.IsStatic p
      → M.at router.matcher p ≡ none
      → ((v : MethodRouter S) → (s : M.Store) × (M.insert router.matcher p v ≡ some s))
      → (router' : Router S M) × (route S M get p h router ≡ returns router')
        × ((request : Request) (s : S)
            → (response : Response) × (handle S M new_responder
                  (record request { path = p; method = head })
                  (record router' { state = some s })
                ≡ returns (some response))
              × (response.status ≡ method_not_allowed)
              × (response_header (codes "allow") response ≡ some (codes "GET, HEAD")))
  unfolding refuse send_body response_header
  head-refused p h router static fresh inserts =
      let (router', routed, answers, paths) = route-handle get p h router static fresh inserts in
      (
        router',
        routed,
        (λ request s. (
          send_body empty _,
          answers new_responder (record request { method = head }) s ∙ refl,
          refl,
          refl,
        )),
      )
