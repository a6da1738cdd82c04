-- ===== src/Net/Tests.antt =====
-- Runs of src/net.
use uringy.Common.{ℕ, ◌≡◌, refl, false, some, List, [], ◌∷◌, ◌++◌, ok, err, returns, arith}
use uringy.Errors.{custom}
use uringy.Kernel.{Descriptors, accept}
use uringy.Kernel.Small.{small, standard}
use uringy.Net.Address.{
  SocketAddr, v4, v6, to_socket_addrs_pair, to_socket_addrs, to_socket_addrs_v4, sockaddr_to_addr,
}
use uringy.Net.Address.Layout.{layout, sockaddr_to_addr-layout}
use uringy.Net.Tcp.{accept_stream, next_stream, bind, sock_cloexec}
use uringy.Net.Tcp.Accepting.{accept_stream-peer}

abbrev loopback : SocketAddr
loopback = v4 (127 ∷ 0 ∷ 0 ∷ 1 ∷ []) 8080

abbrev peer : Descriptors → List ℕ × ℕ
peer w = (layout loopback ++ (0 ∷ []), 16)

bind_test :
    bind small (λ a w. (ok 9, w)) (to_socket_addrs_pair (127 ∷ 0 ∷ 0 ∷ 1 ∷ []) 8080) standard
    ≡ returns (ok 9, standard)
unfolding bind to_socket_addrs_pair to_socket_addrs_v4 to_socket_addrs
bind_test = refl

local_test : sockaddr_to_addr (1 ∷ 0 ∷ []) 2 ≡ returns (err custom)
unfolding sockaddr_to_addr
local_test = refl

sockaddr_to_addr-layout_example :
    sockaddr_to_addr
      (layout (v6 (254 ∷ 128 ∷ 0 ∷ 0 ∷ 0 ∷ 0 ∷ 0 ∷ 0 ∷ 0 ∷ 0 ∷ 0 ∷ 0 ∷ 0 ∷ 0 ∷ 0 ∷ 1 ∷ []) 443 0 2)
        ++ (0 ∷ 0 ∷ []))
      28
    ≡ returns
        (ok (v6 (254 ∷ 128 ∷ 0 ∷ 0 ∷ 0 ∷ 0 ∷ 0 ∷ 0 ∷ 0 ∷ 0 ∷ 0 ∷ 0 ∷ 0 ∷ 0 ∷ 0 ∷ 1 ∷ []) 443 0 2))
sockaddr_to_addr-layout_example =
    sockaddr_to_addr-layout
      (v6 (254 ∷ 128 ∷ 0 ∷ 0 ∷ 0 ∷ 0 ∷ 0 ∷ 0 ∷ 0 ∷ 0 ∷ 0 ∷ 0 ∷ 0 ∷ 0 ∷ 0 ∷ 1 ∷ []) 443 0 2)
      (0 ∷ 0 ∷ []) 28 (refl, omega arith, omega arith, omega arith) (omega arith)

accept_stream-peer_test :
    (accept_stream small peer false 7 standard
      ≡ returns
          (ok (record { fd = 9 }, loopback), (small.operate (accept 7 sock_cloexec) standard).1))
    × (next_stream small peer false 7 standard
        ≡ returns (some (record { fd = 9 }), (small.operate (accept 7 sock_cloexec) standard).1))
accept_stream-peer_test =
    accept_stream-peer small peer 7 9 standard ((small.operate (accept 7 sock_cloexec) standard).1)
      loopback (0 ∷ []) 16 refl refl (refl, omega arith) (omega arith)
