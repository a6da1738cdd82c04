-- ===== src/Net/Tcp/Accepting.antt =====
-- Accepting connections in src/net/tcp.rs, and the descriptors that are left.
use uringy.Common.{ℕ, ◌≤◌, ◌≡◌, false, some, List, ◌++◌, ok, returns, arith}
use uringy.Common.Int.{pos}
use uringy.Runtime.Calls.{classify}
use uringy.Kernel.{accept, Kernel, call}
use uringy.Net.Address.{SocketAddr, sockaddr_to_addr}
use uringy.Net.Address.Layout.{layout, layout_size, IsAddress, sockaddr_to_addr-layout}
use uringy.Net.Tcp.{accepted, accept_stream, next_stream, sock_cloexec}

module _ (K : Kernel) where
  -- If the kernel accepts a connection and lays out its peer's address, `accept` gives a stream on the
  -- new descriptor with that address, and the iterator of incoming connections gives the stream.
  pub accept_stream-peer :
      (peer : K.World → List ℕ × ℕ) (listener fd : ℕ) (w w' : K.World) (address : SocketAddr)
      (rest : List ℕ) (size : ℕ)
      → K.operate (accept listener sock_cloexec) w ≡ (pos fd, w')
      → peer w' ≡ (layout address ++ rest, size)
      → IsAddress address
      → layout_size address ≤ size
      → (accept_stream K peer false listener w ≡ returns (ok (record { fd = fd }, address), w'))
        × (next_stream K peer false listener w ≡ returns (some (record { fd = fd }), w'))
  unfolding accept_stream next_stream accepted call classify
  accept_stream-peer peer listener fd w w' address rest size done laid a s =
      let there : sockaddr_to_addr (layout address ++ rest) size ≡ returns (ok address) =
        sockaddr_to_addr-layout address rest size a s in
      (ground (arith, done, laid, there), ground (arith, done, laid, there))
