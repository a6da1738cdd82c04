-- ===== src/Http/Tests/Client.antt =====
-- Runs of src/ecosystem/http/server/fake_client.rs.
use uringy.Common.{ℕ, ◌≡◌, refl, false, Option, some, none, List, [], ◌∷◌, ◌>>=◌}
use uringy.Common.Text.{codes}
use uringy.Http.Payload.{Text, new_request, contents, text}
use uringy.Http.Router.{new_responder, handle}
use uringy.Http.FakeClient.{
  Client, FakeRequestBuilder, get_request, request, with_query, with_field, send_request,
}
use uringy.Http.FakeClient.Sending.{outcome, send_request-handle}
use uringy.Http.Tests.{paths, router}

-- The first pair, as `serde_urlencoded` writes it.
abbrev encoded : List (Text × Text) → Option Text
encoded [] = some []
encoded ((name, value) ∷ pairs) = some name

abbrev client : Client ℕ paths
client = record { router = router; response = none }

abbrev builder : FakeRequestBuilder ℕ paths
builder =
    with_field ℕ paths (codes "foo") (codes "hello")
      (with_query ℕ paths (codes "a") (codes "b") (get_request ℕ paths (codes "/echo") client))

send_request-handle_example : send_request ℕ paths encoded 0 false (text (codes "hi")) builder ≡ (
    handle ℕ paths new_responder
      (new_request builder.method builder.path
        (codes "a")
        builder.headers
        (contents (text (codes "hi"))))
      builder.client.router
    >>= outcome ℕ paths encoded builder.client)
unfolding with_query with_field get_request request
send_request-handle_example =
    send_request-handle ℕ paths encoded 0 false (text (codes "hi")) builder (codes "a") refl
