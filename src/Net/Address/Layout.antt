-- ===== src/Net/Address/Layout.antt =====
-- `sockaddr_to_addr` of src/net/tcp.rs reads the addresses that the kernel writes.
use uringy.Common.{
  ℕ, ◌+◌, ◌*◌, ◌/◌, ◌%◌, ◌^◌, ◌<◌, ◌≤◌, ◌≡◌, sym, ap, ◌∙◌, List, [], ◌∷◌, ◌++◌, ok, returns, length,
  take, drop, arith, append_assoc, take-length_append, drop-length_append,
}
use uringy.Net.Address.{
  SocketAddr, v4, v6, little_endian, big_endian, sockaddr_to_addr, size_of_in, size_of_in6,
}

abbrev pub bytes2_be : ℕ → List ℕ
bytes2_be n = n / 256 ∷ n % 256 ∷ []

abbrev pub bytes4_le : ℕ → List ℕ
bytes4_le n = n % 256 ∷ n / 256 % 256 ∷ n / 65536 % 256 ∷ n / 16777216 ∷ []

-- `sockaddr_in` and `sockaddr_in6`, as the C library documents them.
abbrev pub layout : SocketAddr → List ℕ
layout (v4 octets port) = 2 ∷ 0 ∷ bytes2_be port ++ (octets ++ (0 ∷ 0 ∷ 0 ∷ 0 ∷ 0 ∷ 0 ∷ 0 ∷ 0 ∷ []))
layout (v6 octets port flow scope) =
    10 ∷ 0 ∷ bytes2_be port ++ (bytes4_le flow ++ (octets ++ bytes4_le scope))

-- An address of the right sizes.
abbrev pub IsAddress : SocketAddr → Type 0
IsAddress (v4 octets port) = (length octets ≡ 4) × (port < 2 ^ 16)
IsAddress (v6 octets port flow scope) =
    (length octets ≡ 16) × (port < 2 ^ 16) × (flow < 2 ^ 32) × (scope < 2 ^ 32)

abbrev pub layout_size : SocketAddr → ℕ
layout_size (v4 octets port) = size_of_in
layout_size (v6 octets port flow scope) = size_of_in6

bytes4_le-little_endian : (n : ℕ) → little_endian (bytes4_le n) ≡ n
bytes4_le-little_endian n = omega arith

bytes2_be-big_endian : (n : ℕ) → big_endian 0 (bytes2_be n) ≡ n
bytes2_be-big_endian n = omega arith

take_at : (n : ℕ) (xs ys : List ℕ) → length xs ≡ n → take n (xs ++ ys) ≡ xs
take_at n xs ys e = ap (λ k. take k (xs ++ ys)) (sym e) ∙ take-length_append xs ys

drop_at : (n : ℕ) (xs ys : List ℕ) → length xs ≡ n → drop n (xs ++ ys) ≡ ys
drop_at n xs ys e = ap (λ k. drop k (xs ++ ys)) (sym e) ∙ drop-length_append xs ys

-- The address that the kernel lays out in a storage, with any bytes behind it, is read back, if the
-- length that the kernel gives is no less than its size.
pub sockaddr_to_addr-layout :
    (address : SocketAddr) (rest : List ℕ) (size : ℕ)
    → IsAddress address
    → layout_size address ≤ size
    → sockaddr_to_addr (layout address ++ rest) size ≡ returns (ok address)
unfolding sockaddr_to_addr
sockaddr_to_addr-layout (v4 octets port) rest size (l, p) s =
    let zeros : List ℕ = 0 ∷ 0 ∷ 0 ∷ 0 ∷ 0 ∷ 0 ∷ 0 ∷ 0 ∷ [] in
    let octets_at : take 4 ((octets ++ zeros) ++ rest) ≡ octets =
      ap (take 4) (append_assoc octets zeros rest) ∙ take_at 4 octets (zeros ++ rest) l in
    let port_at : 256 * (0 + port / 256) + port % 256 ≡ port = omega arith in
    ground (arith, octets_at, port_at)
sockaddr_to_addr-layout (v6 octets port flow scope) rest size (l, p, f, c) s =
    let tail : List ℕ = bytes4_le scope ++ rest in
    let behind : (octets ++ bytes4_le scope) ++ rest ≡ octets ++ tail =
      append_assoc octets (bytes4_le scope) rest in
    let octets_at : take 16 ((octets ++ bytes4_le scope) ++ rest) ≡ octets =
      ap (take 16) behind ∙ take_at 16 octets tail l in
    let scope_at : little_endian (take 4 (drop 16 ((octets ++ bytes4_le scope) ++ rest))) ≡ scope =
      ap (λ xs. little_endian (take 4 xs)) (ap (drop 16) behind ∙ drop_at 16 octets tail l)
      ∙ bytes4_le-little_endian scope in
    let port_at : big_endian 0 (bytes2_be port) ≡ port = bytes2_be-big_endian port in
    let flow_at : little_endian (bytes4_le flow) ≡ flow = bytes4_le-little_endian flow in
    ground (arith, octets_at, scope_at, port_at, flow_at)
