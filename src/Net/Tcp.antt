-- ===== src/Net/Tcp.antt =====
-- src/net/tcp.rs: listeners and streams. The two halves of a stream share its descriptor, which nothing
-- closes. The standard library's sockets are parameters.
pub mod Accepting
use uringy.Common.{
  ℕ, ◌^◌, ◌%◌, ◌≡◌, Bool, true, false, Option, none, some, List, [], ◌∷◌, Result, ok, err, Panics,
  returns, panics, ◌>>=◌, length, take,
}
use uringy.Errors.{Error, original, IoError, to_io_error}
use uringy.Runtime.State.{unwrap}
use uringy.Runtime.Calls.{IoResult}
use uringy.Kernel.{Sqe, send, recv, accept, close, Kernel, call, borrowed, to_io_result}
use uringy.Net.Address.{SocketAddr, sockaddr_to_addr}

-- `libc::SOCK_CLOEXEC`
abbrev pub sock_cloexec : ℕ
sock_cloexec = 0x80000

-- `StreamState`
pub record StreamState : Type 0 where
  pub fd : ℕ

abbrev pub first : {A : Type 0} → List A → Option A
first [] = none
first (a ∷ rest) = some a

module _ (K : Kernel) where
  -- `connect`, from the addresses that `to_socket_addrs` gives and `std::net::TcpStream::connect`
  unfoldable pub connect :
      (SocketAddr → K.World → Result ℕ IoError × K.World)
      → Result (List SocketAddr) (Error IoError)
      → K.World
      → Panics (Result StreamState (Error IoError) × K.World)
  connect std_connect (err e) w = returns (err e, w)
  connect std_connect (ok addresses) w = do
    address ← unwrap (first addresses)
    elim ((std_connect address w).0) [
      | ok fd ↦ returns (ok (record { fd = fd }), (std_connect address w).1)
      | err e ↦ panics
    ]

  -- `Write for WriteHalf` and `Read for ReadHalf`
  unfoldable pub write_stream : Bool → List ℕ → StreamState → K.World → Result ℕ IoError × K.World
  unfolding call to_io_error
  write_stream is_cancelled buffer s w =
      let called : IoResult × K.World =
        call K is_cancelled (send s.fd (take (length buffer % 2 ^ 32) buffer)) w in
      (to_io_result called.0, called.1)

  unfoldable pub read_stream : Bool → ℕ → StreamState → K.World → Result ℕ IoError × K.World
  unfolding call to_io_error
  read_stream is_cancelled buffer_len s w =
      let called : IoResult × K.World = call K is_cancelled (recv s.fd (buffer_len % 2 ^ 32)) w in
      (to_io_result called.0, called.1)

  -- `Listener::bind`; the listener of the standard library is forgotten.
  unfoldable pub bind :
      (SocketAddr → K.World → Result ℕ IoError × K.World)
      → Result (List SocketAddr) (Error IoError)
      → K.World
      → Panics (Result ℕ (Error IoError) × K.World)
  bind std_bind (err e) w = returns (err e, w)
  bind std_bind (ok addresses) w = do
    address ← unwrap (first addresses)
    elim ((std_bind address w).0) [
      | ok fd ↦ returns (ok fd, (std_bind address w).1)
      | err e ↦ returns (err (original e), (std_bind address w).1)
    ]

  -- The rest of `accept`, with the storage and the length as the kernel has filled them in.
  unfoldable pub accepted :
      IoResult → List ℕ → ℕ → Panics (Result (StreamState × SocketAddr) (Error IoError))
  unfolding sockaddr_to_addr
  accepted (err e) storage length_ = returns (err e)
  accepted (ok fd) storage length_ = do
    address ← sockaddr_to_addr storage length_
    returns (elim address [ ok a ↦ ok (record { fd = fd }, a) | err e ↦ err (original e) ])

  -- `Listener::accept`. What the kernel writes to the storage and the length is read off the world.
  unfoldable pub accept_stream :
      (K.World → List ℕ × ℕ)
      → Bool
      → ℕ
      → K.World
      → Panics (Result (StreamState × SocketAddr) (Error IoError) × K.World)
  unfolding call accepted
  accept_stream peer is_cancelled listener w = do
    let called : IoResult × K.World = call K is_cancelled (accept listener sock_cloexec) w
    result ← accepted called.0 ((peer called.1).0) ((peer called.1).1)
    returns (result, called.1)

  -- `local_addr`, `set_ttl` and `ttl`, from the operation of the standard library
  unfoldable pub local_addr :
      (ℕ → K.World → Result SocketAddr IoError × K.World)
      → ℕ
      → K.World
      → Result SocketAddr (Error IoError) × K.World
  local_addr std_local_addr fd w = borrowed K fd (std_local_addr fd w)

  unfoldable pub set_ttl :
      (ℕ → ℕ → K.World → Result (Unit {0}) IoError × K.World)
      → ℕ
      → ℕ
      → K.World
      → Result (Unit {0}) (Error IoError) × K.World
  set_ttl std_set_ttl ttl_ fd w = borrowed K fd (std_set_ttl fd ttl_ w)

  unfoldable pub ttl :
      (ℕ → K.World → Result ℕ IoError × K.World) → ℕ → K.World → Result ℕ (Error IoError) × K.World
  ttl std_ttl fd w = borrowed K fd (std_ttl fd w)

  -- `Drop for Listener`
  unfoldable pub drop_listener : Bool → ℕ → K.World → K.World
  unfolding call
  drop_listener is_cancelled fd w = (call K is_cancelled (close fd) w).1

  -- `Iterator::next` for `IntoIncoming`
  unfoldable pub next_stream :
      (K.World → List ℕ × ℕ) → Bool → ℕ → K.World → Panics (Option StreamState × K.World)
  unfolding accept_stream
  next_stream peer is_cancelled listener w = do
    (result, w') ← accept_stream peer is_cancelled listener w
    returns (elim result [ ok (s, a) ↦ some s | err e ↦ none ], w')
