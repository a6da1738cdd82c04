-- ===== src/Http/FakeClient.antt =====
-- src/ecosystem/http/server/fake_client.rs: a client that calls a router without a connection. The
-- response comes back through a channel, whose sender the responder has.
pub mod Sending
use uringy.Common.{
  ℕ, ◌≡◌, Bool, true, false, Option, none, some, List, [], ◌∷◌, ◌++◌, Result, ok, err, Panics,
  returns, panics, ◌>>=◌, map,
}
use uringy.Errors.{Error}
use uringy.Sync.Channel.{
  ClosedError, ChannelState, Received, returned, parked, unbounded, send, drop_sender, recv,
}
use uringy.Http.Payload.{
  Text, Method, get, post, head, put, delete, connect, options, trace, patch, StatusCode, Request,
  new_request, Response, Body, contents,
}
use uringy.Http.Router.{Responder, new_responder, Matchit, Router, with_state, handle}

pub record OwnedResponse : Type 0 where
  pub status_code : StatusCode
  pub headers : List (Text × Text)
  pub body : Text
  pub content_type : Option Text

-- `From<Response> for OwnedResponse`
unfoldable pub owned : Response → OwnedResponse
owned response = record {
  status_code = response.status;
  headers = response.headers;
  body = response.body;
  content_type = response.content_type;
}

-- `From<&OwnedResponse> for Response`
unfoldable pub borrowed : OwnedResponse → Response
borrowed response = record {
  status = response.status_code;
  headers = response.headers;
  body = response.body;
  content_type = response.content_type;
}

-- `Result::unwrap`
abbrev pub unwrap_result : {A E : Type 0} → Result A E → Panics A
unwrap_result (ok a) = returns a
unwrap_result (err e) = panics

-- `FakeResponder::respond`, which owns the only sender and drops it. No fiber waits on this channel.
unfoldable pub respond : Response → ChannelState OwnedResponse → Panics (ChannelState OwnedResponse)
unfolding owned send drop_sender
respond response s = do
  let sent : Result (Unit {0}) (Error ClosedError) × List ℕ × ChannelState OwnedResponse =
      send (owned response) s
  u ← unwrap_result sent.0
  let dropped : ℕ × List ℕ × ChannelState OwnedResponse = drop_sender 1 sent.2
  returns dropped.2

-- What the handler did with its responder: it responded, or the responder was dropped, and the sender
-- with it.
unfoldable pub answered :
    Option Response → ChannelState OwnedResponse → Panics (ChannelState OwnedResponse)
unfolding respond drop_sender
answered (some response) s = respond response s
answered none s =
    let dropped : ℕ × List ℕ × ChannelState OwnedResponse = drop_sender 1 s in returns dropped.2

-- `rx.recv().expect(..)`. A fiber that parked here would wait for a sender that is gone.
abbrev pub expect_response : Received OwnedResponse → Panics OwnedResponse
expect_response (returned (ok response)) = returns response
expect_response (returned (err e)) = panics
expect_response parked = panics

module _ (S : Type 0) (M : Matchit S) where
  pub record Client : Type 0 where
    pub router : Router S M
    pub response : Option OwnedResponse

  -- `FakeClient::new`
  unfoldable pub new_client : Router S M → S → Panics Client
  unfolding with_state
  new_client router state = do
    router' ← with_state S M state router
    returns (record { router = router'; response = none })

  pub record FakeRequestBuilder : Type 0 where
    pub client : Client
    pub method : Method
    pub path : Text
    pub query : List (Text × Text)
    pub headers : List (Text × Text)

  -- `FakeClient::request`
  unfoldable pub request : Method → Text → Client → FakeRequestBuilder
  request method path client = record {
    client = client;
    method = method;
    path = path;
    query = [];
    headers = [];
  }

  -- `FakeClient::get` and the like
  unfoldable pub get_request : Text → Client → FakeRequestBuilder
  unfolding request
  get_request path client = request get path client

  unfoldable pub post_request : Text → Client → FakeRequestBuilder
  unfolding request
  post_request path client = request post path client

  unfoldable pub head_request : Text → Client → FakeRequestBuilder
  unfolding request
  head_request path client = request head path client

  unfoldable pub put_request : Text → Client → FakeRequestBuilder
  unfolding request
  put_request path client = request put path client

  unfoldable pub delete_request : Text → Client → FakeRequestBuilder
  unfolding request
  delete_request path client = request delete path client

  unfoldable pub connect_request : Text → Client → FakeRequestBuilder
  unfolding request
  connect_request path client = request connect path client

  unfoldable pub options_request : Text → Client → FakeRequestBuilder
  unfolding request
  options_request path client = request options path client

  unfoldable pub trace_request : Text → Client → FakeRequestBuilder
  unfolding request
  trace_request path client = request trace path client

  unfoldable pub patch_request : Text → Client → FakeRequestBuilder
  unfolding request
  patch_request path client = request patch path client

  -- `FakeRequestBuilder::query` and `header`
  unfoldable pub with_query : Text → Text → FakeRequestBuilder → FakeRequestBuilder
  with_query name value builder = record builder { query = builder.query ++ ((name, value) ∷ []) }

  unfoldable pub with_field : Text → Text → FakeRequestBuilder → FakeRequestBuilder
  with_field name value builder = record builder {
    headers = builder.headers ++ ((name, value) ∷ []);
  }

  abbrev unwrap_query : Option Text → Panics Text
  unwrap_query (some query) = returns query
  unwrap_query none = panics

  -- `serde_urlencoded::to_string` is of another crate.
  module _ (to_string : List (Text × Text) → Option Text) where
    -- `FakeRequestBuilder::send`, in the fiber `waker`, with the client as the call leaves it
    unfoldable pub send_request : ℕ → Bool → Body → FakeRequestBuilder → Panics (Response × Client)
    unfolding answered handle unbounded recv borrowed contents
    send_request waker is_cancelled body builder = do
      query ← unwrap_query (to_string builder.query)
      let made : Request =
          new_request builder.method builder.path query builder.headers (contents body)
      answer ← handle S M new_responder made builder.client.router
      s ← answered answer unbounded
      let received : Received OwnedResponse × ChannelState OwnedResponse = recv waker is_cancelled s
      response ← expect_response received.0
      returns (borrowed response, record builder.client { response = some response })
