-- ===== src/Http/FakeClient/Sending.antt =====
-- What the fake client of src/ecosystem/http/server/fake_client.rs gives for a request.
use uringy.Common.{ℕ, ◌≡◌, refl, Bool, Option, none, some, List, Panics, returns, panics, ◌>>=◌}
use uringy.Sync.Channel.{unbounded, send, drop_sender, recv, sender_close}
use uringy.Http.Payload.{Text, new_request, Response, Body, contents}
use uringy.Http.Router.{new_responder, Matchit, handle}
use uringy.Http.FakeClient.{
  Client, FakeRequestBuilder, owned, borrowed, expect_response, respond, answered, send_request,
}

module _ (S : Type 0) (M : Matchit S) (to_string : List (Text × Text) → Option Text) where
  -- What a call of the router comes to for its client: it gives the response and keeps it.
  abbrev pub outcome : Client S M → Option Response → Panics (Response × Client S M)
  outcome client (some response) =
      returns (response, record client { response = some (owned response) })
  outcome client none = panics

  abbrev by_channel : ℕ → Bool → Client S M → Option Response → Panics (Response × Client S M)
  by_channel waker is_cancelled client answer = do
    s ← answered answer unbounded
    response ← expect_response ((recv waker is_cancelled s).0)
    returns (borrowed response, record client { response = some response })

  by_channel-outcome :
      (waker : ℕ) (is_cancelled : Bool) (client : Client S M) (a : Panics (Option Response))
      → (a >>= by_channel waker is_cancelled client) ≡ (a >>= outcome client)
  unfolding answered respond unbounded recv send drop_sender sender_close owned borrowed
  by_channel-outcome waker c client panics = refl
  by_channel-outcome waker c client (returns none) = refl
  by_channel-outcome waker c client (returns (some response)) = refl

  -- The client gives the response that the router gives to the request that was built, and keeps it;
  -- without a response it panics.
  pub send_request-handle :
      (waker : ℕ) (is_cancelled : Bool) (body : Body) (builder : FakeRequestBuilder S M)
      (query : Text)
      → to_string builder.query ≡ some query
      → send_request S M to_string waker is_cancelled body builder ≡ (
          handle S M new_responder
            (new_request builder.method builder.path query builder.headers (contents body))
            builder.client.router
          >>= outcome builder.client)
  unfolding send_request
  send_request-handle waker is_cancelled body builder query e = rw e (
      by_channel-outcome waker is_cancelled builder.client (
        handle S M new_responder
          (new_request builder.method builder.path query builder.headers (contents body))
          builder.client.router))
