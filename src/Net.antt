-- ===== src/Net.antt =====
-- src/net: socket addresses and TCP.
pub mod Address
pub mod Tcp
mod Tests
