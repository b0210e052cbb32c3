-- ===== src/Sockets/Ops.antt =====
-- net/SocketsOps.h: what the rest of the program uses of the functions on sockets, and the record
-- that the functions of net/SocketsOps.cpp fill.
use penduo.Prelude.{ℕ, ℤ, List, Outcome, ok, ◌>>=◌, ◌⊎◌}
use penduo.Endian.{ByteOrder}
use penduo.InetAddress
use penduo.InetAddress.{InetAddress, NameCalls, sockaddr_cast, get_local_addr, get_peer_addr}
use penduo.Sockets
use penduo.Sockets.{System, Errno}

pub record SocketsOps (W : Type 0) : Type 0 where
  pub create_nonblocking_or_die : (family : ℕ) → W → Outcome (ℤ × W)
  pub bind_or_die : ℤ → InetAddress → W → Outcome W
  pub accept : ℤ → InetAddress → W → Outcome (ℤ × InetAddress × W)
  pub listen_or_die : ℤ → W → Outcome W
  pub close : ℤ → W → W
  pub to_ip : InetAddress → Outcome (List ℕ)
  pub to_ip_port : InetAddress → Outcome (List ℕ)
  pub get_socket_error : ℤ → W → ℤ ⊎ Errno
  pub get_local_addr : ℤ → W → InetAddress × W
  pub get_peer_addr : ℤ → W → InetAddress × W

module _ (sys : System) (calls : NameCalls sys.W) (order : ByteOrder)
    (inet_ntop : (family : ℕ) (bytes : List ℕ) (size : ℕ) → List ℕ) (to_string : ℕ → List ℕ) where
  -- `sockets::accept` with the address that the system call stores.
  unfoldable pub accept_from : ℤ → InetAddress → sys.W → Outcome (ℤ × InetAddress × sys.W)
  accept_from socket_fd addr w =
      let stored = calls.acceptname socket_fd (sockaddr_cast addr) w in
      Sockets.accept sys socket_fd w >>= λ (connect_fd, w'). ok (connect_fd, stored, w')

  abbrev pub sockets_ops : SocketsOps sys.W
  sockets_ops = record {
    create_nonblocking_or_die = Sockets.create_nonblocking_or_die sys;
    bind_or_die = λ socket_fd addr w. Sockets.bind_or_die sys socket_fd addr.family w;
    accept = accept_from;
    listen_or_die = Sockets.listen_or_die sys;
    close = Sockets.close sys;
    to_ip = InetAddress.to_ip order inet_ntop to_string;
    to_ip_port = InetAddress.to_ip_port order inet_ntop to_string;
    get_socket_error = Sockets.get_socket_error sys;
    get_local_addr = get_local_addr calls;
    get_peer_addr = get_peer_addr calls;
  }

-- The system and the library functions that a server calls. `storage` is what is in an address before
-- its constructor runs.
pub record Network : Type 1 where
  pub sys : System
  pub open sys use {W}
  pub calls : NameCalls sys.W
  pub order : ByteOrder
  pub inet_ntop : (family : ℕ) (bytes : List ℕ) (size : ℕ) → List ℕ
  pub to_string : ℕ → List ℕ
  pub storage : InetAddress

abbrev pub sockets_of : (net : Network) → SocketsOps net.W
sockets_of net = sockets_ops net.sys net.calls net.order net.inet_ntop net.to_string
