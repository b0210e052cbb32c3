-- ===== src/InetAddress.antt =====
-- net/InetAddress.h, net/InetAddress.cpp and the functions on addresses of net/SocketsOps.cpp. The
-- two socket addresses share their storage; `inet_ntop` and `std::to_string` are parameters.
pub mod Text
use penduo.Prelude.{
  ℕ, zero, suc, ℤ, pos, negsuc, Bool, true, false, List, [], ◌∷◌, ◌++◌, take, drop, Outcome, ok,
  fail, fatal, ◌>>=◌, ◌>>◌, assert, leb, ◌==◌, if◌then◌else◌,
}
use penduo.Endian.{ByteOrder, host_to_network16, host_to_network32, network_to_host16}
use penduo.Sockets.{af_inet, af_inet6, is_negative}

-- The union of `addr_` and `addr6_`, by offset: the family, the port, the word that is `s_addr` or
-- `sin6_flowinfo`, the 16 bytes of `sin6_addr`, of which the first 8 are `sin_zero`, and
-- `sin6_scope_id`. The port and `s_addr` are in the order of the network.
pub record InetAddress : Type 0 where
  pub family : ℕ
  pub port : ℕ
  pub word : ℕ
  pub ip6 : List ℕ
  pub scope_id : ℕ

abbrev pub zero_bytes : ℕ → List ℕ
zero_bytes zero = []
zero_bytes (suc n) = 0 ∷ zero_bytes n

-- `struct sockaddr_in6 addr{}`
abbrev pub zero_address : InetAddress
zero_address = record { family = 0; port = 0; word = 0; ip6 = zero_bytes 16; scope_id = 0 }

abbrev pub in6addr_any : List ℕ
in6addr_any = zero_bytes 16

abbrev pub in6addr_loopback : List ℕ
in6addr_loopback = zero_bytes 15 ++ 1 ∷ []

abbrev pub inaddr_any : ℕ
inaddr_any = 0

abbrev pub inaddr_loopback : ℕ
inaddr_loopback = 0x7f000001

-- The casts between the types of a pointer to one address.
abbrev pub sockaddr_cast : InetAddress → InetAddress
sockaddr_cast addr = addr

abbrev pub sockaddr_in_cast : InetAddress → InetAddress
sockaddr_in_cast addr = addr

abbrev pub sockaddr_in6_cast : InetAddress → InetAddress
sockaddr_in6_cast addr = addr

abbrev pub get_socket_addr : InetAddress → InetAddress
get_socket_addr a = sockaddr_cast a

-- `InetAddress::family`
abbrev pub address_family : InetAddress → ℕ
address_family a = a.family

abbrev pub set_socket_addr_inet6 : InetAddress → InetAddress → InetAddress
set_socket_addr_inet6 addr a = addr

-- The constructors that take an address.
abbrev pub of_sockaddr_in6 : InetAddress → InetAddress
of_sockaddr_in6 addr6 = addr6

-- Only the 16 bytes of a `sockaddr_in` are written.
abbrev pub of_sockaddr_in : InetAddress → InetAddress → InetAddress
of_sockaddr_in storage addr = record addr {
  ip6 = take 8 addr.ip6 ++ drop 8 storage.ip6;
  scope_id = storage.scope_id;
}

module _ (order : ByteOrder) where
  -- The constructor from a port; `storage` is what was in the union before.
  unfoldable pub new_inet_address :
      InetAddress → (port : ℕ) (loopback_only ipv6 : Bool) → InetAddress
  new_inet_address storage port loopback_only true = record {
    family = af_inet6;
    port = host_to_network16 order port;
    word = 0;
    ip6 = if loopback_only then in6addr_loopback else in6addr_any;
    scope_id = 0;
  }
  new_inet_address storage port loopback_only false = record storage {
    family = af_inet;
    port = host_to_network16 order port;
    word = host_to_network32 order (if loopback_only then inaddr_loopback else inaddr_any);
    ip6 = zero_bytes 8 ++ drop 8 storage.ip6;
  }

  module _ (inet_ntop : (family : ℕ) (bytes : List ℕ) (size : ℕ) → List ℕ)
      (to_string : ℕ → List ℕ) where
    abbrev pub buf_size : ℕ
    buf_size = 64

    abbrev pub inet_addrstrlen : ℕ
    inet_addrstrlen = 16

    abbrev pub inet6_addrstrlen : ℕ
    inet6_addrstrlen = 46

    unfoldable pub to_ip : InetAddress → Outcome (List ℕ)
    to_ip addr =
        if addr.family == af_inet
        then assert (leb inet_addrstrlen buf_size)
          >> ok (inet_ntop af_inet (order.memory 4 (sockaddr_in_cast addr).word) buf_size)
        else if addr.family == af_inet6
        then assert (leb inet6_addrstrlen buf_size)
          >> ok (inet_ntop af_inet6 (sockaddr_in6_cast addr).ip6 buf_size)
        else fail fatal

    abbrev pub with_port : InetAddress → List ℕ → List ℕ
    with_port addr ip = b'[' ∷ ip ++ b']' ∷ b':' ∷ to_string (network_to_host16 order addr.port)

    unfoldable pub to_ip_port : InetAddress → Outcome (List ℕ)
    unfolding to_ip
    to_ip_port addr =
        if addr.family == af_inet
        then to_ip addr >>= (λ ip. ok (with_port (sockaddr_in_cast addr) ip))
        else if addr.family == af_inet6
        then to_ip addr >>= (λ ip. ok (with_port (sockaddr_in6_cast addr) ip))
        else fail fatal

-- The system calls that store an address: they return it as they leave it.
pub record NameCalls (W : Type 0) : Type 0 where
  pub getsockname : (fd : ℤ) → InetAddress → W → ℤ × InetAddress × W
  pub getpeername : (fd : ℤ) → InetAddress → W → ℤ × InetAddress × W
  pub acceptname : (socket_fd : ℤ) → InetAddress → W → InetAddress  -- what `accept` stores

module _ {W : Type 0} (calls : NameCalls W) where
  -- A failure is logged, and the address returned all the same.
  unfoldable pub get_local_addr : ℤ → W → InetAddress × W
  get_local_addr socket_fd w =
      let (ret, local_addr, w') = calls.getsockname socket_fd (sockaddr_cast zero_address) w in
      (local_addr, w')

  unfoldable pub get_peer_addr : ℤ → W → InetAddress × W
  get_peer_addr socket_fd w =
      let (ret, peer_addr, w') = calls.getpeername socket_fd (sockaddr_cast zero_address) w in
      (peer_addr, w')
