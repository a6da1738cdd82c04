-- ===== src/Http.antt =====
-- src/ecosystem/http: the server, its router, requests and responses.
pub mod Payload
pub mod Router
pub mod Uri
pub mod Server
pub mod Headers
pub mod FakeClient
pub mod Reader
pub mod Serve
mod Tests
