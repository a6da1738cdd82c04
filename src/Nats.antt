-- ===== src/Nats.antt =====
-- src/ecosystem/nats: the NATS client protocol.
pub mod Nom
pub mod Proto
pub mod Wire
mod Fields
pub mod Decode
pub mod Encode
mod Tests
