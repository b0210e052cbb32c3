-- ===== src/Socket.antt =====
-- net/Socket.h and net/Socket.cpp: the owner of a descriptor. `accept` and the methods of
-- `InetAddress` that call the functions on sockets are clients of net/SocketsOps.h.
use penduo.Prelude.{ℕ, ℤ, pos, pos_part, Bool, List, Outcome, ok, ◌>>=◌, if◌then◌else◌}
use penduo.InetAddress.{InetAddress, zero_address, get_socket_addr, set_socket_addr_inet6}
use penduo.Sockets
use penduo.Sockets.{System, Errno, is_negative, bind_or_die, listen_or_die}
use penduo.Sockets.Ops.{SocketsOps}

pub record Socket : Type 0 where
  pub socket_fd : ℤ

-- `Socket::fd()`, of a descriptor that is not negative.
abbrev pub fd_of : Socket → ℕ
fd_of s = pos_part s.socket_fd

module _ (sys : System) where
  unfoldable pub bind_address : Socket → InetAddress → sys.W → Outcome sys.W
  bind_address s local_addr w = bind_or_die sys s.socket_fd (get_socket_addr local_addr).family w

  -- `~Socket`
  unfoldable pub destroy_socket : Socket → sys.W → sys.W
  destroy_socket s w = Sockets.close sys s.socket_fd w

  -- The result of the call is not looked at.
  unfoldable pub set_reuse_addr : Socket → Bool → sys.W → sys.W
  set_reuse_addr s on w = (sys.set_reuse s.socket_fd (if on then pos 1 else pos 0) w).1

  unfoldable pub listen_socket : Socket → sys.W → Outcome sys.W
  listen_socket s w = listen_or_die sys s.socket_fd w

module _ {W : Type 0} (sockets : SocketsOps W) where
  -- The peer's address is set only if a connection is there.
  unfoldable pub accept_socket :
      Socket → (peer_addr : InetAddress) → W → Outcome (ℤ × InetAddress × W)
  accept_socket s peer_addr w = do
    (connect_fd, addr, w') ← sockets.accept s.socket_fd zero_address w
    let peer = if is_negative connect_fd then peer_addr else set_socket_addr_inet6 addr peer_addr
    ok (connect_fd, peer, w')

  -- `InetAddress::to_ip` and `InetAddress::to_ip_port`
  abbrev pub address_to_ip : InetAddress → Outcome (List ℕ)
  address_to_ip a = sockets.to_ip (get_socket_addr a)

  abbrev pub address_to_ip_port : InetAddress → Outcome (List ℕ)
  address_to_ip_port a = sockets.to_ip_port (get_socket_addr a)
