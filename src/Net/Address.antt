-- ===== src/Net/Address.antt =====
-- Socket addresses: `ToSocketAddrs` of src/net/mod.rs and `sockaddr_to_addr` of src/net/tcp.rs. A
-- `sockaddr_storage` is its bytes, on a little-endian machine.
pub mod Layout
use uringy.Common.{
  ℕ, ◌+◌, ◌*◌, ◌^◌, ◌≡◌, Bool, true, false, not, Option, none, some, List, [], ◌∷◌, Result, ok, err,
  Panics, returns, panics, ◌>>=◌, ◌>>◌, assert, take, drop, leb, ◌==◌, if◌then◌else◌,
}
use uringy.Errors.{Error, IoError, custom}

pub data SocketAddr : Type 0 where
  -- The octets and the port.
  v4 : List ℕ → ℕ → SocketAddr
  -- The octets, the port, the flow information and the scope.
  v6 : List ℕ → ℕ → ℕ → ℕ → SocketAddr

-- `ToSocketAddrs`, with the addresses that the iterator gives, for a `SocketAddr`,
unfoldable pub to_socket_addrs : SocketAddr → Result (List SocketAddr) (Error IoError)
to_socket_addrs address = ok (address ∷ [])

-- for a `SocketAddrV4`, which is its octets and its port,
unfoldable pub to_socket_addrs_v4 : List ℕ × ℕ → Result (List SocketAddr) (Error IoError)
unfolding to_socket_addrs
to_socket_addrs_v4 (octets, port) = to_socket_addrs (v4 octets port)

-- and for a pair of an `Ipv4Addr` and a port
unfoldable pub to_socket_addrs_pair : List ℕ → ℕ → Result (List SocketAddr) (Error IoError)
unfolding to_socket_addrs_v4
to_socket_addrs_pair ip port = to_socket_addrs_v4 (ip, port)

-- `libc::AF_INET`, `libc::AF_INET6`, and the sizes of `sockaddr_in` and `sockaddr_in6`
abbrev pub af_inet : ℕ
af_inet = 2

abbrev pub af_inet6 : ℕ
af_inet6 = 10

abbrev pub size_of_in : ℕ
size_of_in = 16

abbrev pub size_of_in6 : ℕ
size_of_in6 = 28

-- The numbers that the bytes are, the lowest and the highest byte first.
abbrev pub little_endian : List ℕ → ℕ
little_endian [] = 0
little_endian (b ∷ bs) = b + 256 * little_endian bs

abbrev pub big_endian : ℕ → List ℕ → ℕ
big_endian acc [] = acc
big_endian acc (b ∷ bs) = big_endian (256 * acc + b) bs

-- The field of `count` bytes at `offset`.
abbrev pub field : ℕ → ℕ → List ℕ → List ℕ
field offset count storage = take count (drop offset storage)

-- `sockaddr_to_addr`
unfoldable pub sockaddr_to_addr : List ℕ → ℕ → Panics (Result SocketAddr IoError)
sockaddr_to_addr storage length =
    let family : ℕ = little_endian (field 0 2 storage) in
    if family == af_inet
    then assert (leb size_of_in length)
      >> returns (ok (v4 (field 4 4 storage) (big_endian 0 (field 2 2 storage))))
    else if family == af_inet6
    then assert (leb size_of_in6 length)
      >> returns (
          ok (
            v6 (field 8 16 storage) (big_endian 0 (field 2 2 storage))
              (little_endian (field 4 4 storage)) (little_endian (field 24 4 storage))))
    else returns (err custom)
