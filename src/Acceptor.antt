-- ===== src/Acceptor.antt =====
-- net/Acceptor.h, net/Acceptor.cpp and `TcpServer::start`: the
-- listening socket of a server, over the system calls and the server of the same loop.
pub mod Accepting
pub mod Serve
use penduo.Prelude.{
  ℕ, suc, ℤ, pos, negsuc, pos_part, Bool, true, false, Option, none, some, List, [], Outcome, ok,
  ◌>>=◌, ◌>>◌, if◌then◌else◌,
}
use penduo.Channel.{Channel, new_channel, destroy}
use penduo.Reactor
use penduo.Reactor.{Reactor, set_chan}
use penduo.InetAddress.{InetAddress, address_family, new_inet_address}
use penduo.Tcp.{TcpConnection, TcpServer, assert_in_loop_thread, on_reactor, new_connection}
use penduo.Socket.{
  Socket, fd_of, set_reuse_addr, bind_address, listen_socket, accept_socket, destroy_socket,
}
use penduo.Sockets
use penduo.Sockets.{System, create_nonblocking_or_die, bind_or_die, listen_or_die}
use penduo.Sockets.Ops.{Network, sockets_of}

-- What `new_connection_callback_` may be: a function of the descriptor and the peer's address.
abbrev pub NewConnectionCallback : Type 0 → Type 0
NewConnectionCallback W = ℕ → InetAddress → TcpServer × W → Outcome (TcpServer × W)

-- The callback is `TcpServer::new_connection`, or not set.
pub record Acceptor (W : Type 0) : Type 0 where
  pub socket_fd : ℕ
  pub accept_channel : ℕ
  pub listening : Bool
  pub new_connection_callback : Option (NewConnectionCallback W)

abbrev pub set_new_connection_callback :
    {W : Type 0} → NewConnectionCallback W → Acceptor W → Acceptor W
set_new_connection_callback cb a = record a { new_connection_callback = some cb }

-- A server with its acceptor, in a system.
pub record Serving (net : Network) : Type 0 where
  pub acceptor : Acceptor net.W
  pub server : TcpServer
  pub started : Bool
  pub system : net.W

module _ (net : Network) where
  open net use {sys}

  -- The constructor of `Acceptor`, whose channel is object `c`: the acceptor, its channel and the system.
  unfoldable pub new_acceptor :
      InetAddress
      → (reuse_port : Bool) (loop c : ℕ) → net.W
      → Outcome (Acceptor net.W × Channel × net.W)
  unfolding set_reuse_addr bind_address
  new_acceptor listen_addr reuse_port loop c w = do
    (socket_fd, w₁) ← create_nonblocking_or_die sys (address_family listen_addr) w
    let accept_socket : Socket = record { socket_fd = socket_fd }
    let chan = new_channel loop (fd_of accept_socket)
    let w₂ = set_reuse_addr sys accept_socket reuse_port w₁
    w₃ ← bind_address sys accept_socket listen_addr w₂
    let acceptor : Acceptor net.W = record {
      socket_fd = fd_of accept_socket;
      accept_channel = c;
      listening = false;
      new_connection_callback = none;
    }
    ok (acceptor, record chan { read_callback = some c }, w₃)

  -- The constructor of `TcpServer`, in a loop with this reactor; the acceptor's channel is the next
  -- object of the store.
  unfoldable pub new_server :
      (current : ℕ) (listen_addr : InetAddress) (name : List ℕ) (reactor : Reactor)
      (conns : ℕ → TcpConnection) (next_object : ℕ)
      → net.W
      → Outcome (Serving net)
  unfolding new_acceptor
  new_server current listen_addr name reactor conns next_object w = do
    (acceptor, chan, w') ← new_acceptor listen_addr true reactor.self next_object w
    let server : TcpServer = record {
      reactor = set_chan reactor next_object chan;
      conns = conns;
      name = name;
      connection_callback = none;
      message_callback = none;
      next_connect_id = 0;
      connections = λ n. none;
      pending_functors = [];
      next_object = suc next_object;
      calls = [];
    }
    ok (record {
      acceptor = record acceptor { new_connection_callback = some (new_connection net current) };
      server = server;
      started = false;
      system = w';
    })

  -- `Acceptor::listen`, with `Socket::listen`
  unfoldable pub listen : ℕ → Serving net → Outcome (Serving net)
  unfolding listen_socket
  listen current s = do
    assert_in_loop_thread current s.server
    let a = record s.acceptor { listening = true }
    w ← listen_socket sys (record { socket_fd = pos a.socket_fd }) s.system
    server ← on_reactor (Reactor.enable_reading current a.accept_channel) s.server
    ok (record s { acceptor = a; server = server; system = w })

  -- `TcpServer::start`
  unfoldable pub start : ℕ → Serving net → Outcome (Serving net)
  unfolding listen
  start current s = do
    assert_in_loop_thread current s.server
    listen current (record s { started = true })

  -- `new_connection_callback_(connect_fd, peer_addr)`, or `sockets::close`
  abbrev pub take :
      Option (NewConnectionCallback net.W) → ℕ → InetAddress → Serving net → Outcome (Serving net)
  take none connect_fd peer_addr s =
      ok (record s { system = Sockets.close sys (pos connect_fd) s.system })
  take (some new_connection) connect_fd peer_addr s =
      new_connection connect_fd peer_addr (s.server, s.system) >>= λ (server, w).
      ok (record s { server = server; system = w })

  abbrev pub accepted : ℤ → InetAddress → Serving net → Outcome (Serving net)
  accepted (negsuc n) peer_addr s = ok s
  accepted (pos connect_fd) peer_addr s =
      take s.acceptor.new_connection_callback connect_fd peer_addr s

  -- `Acceptor::handle_read`; its own address is made from no port.
  unfoldable pub handle_read : ℕ → Serving net → Outcome (Serving net)
  unfolding accept_socket
  handle_read current s = do
    assert_in_loop_thread current s.server
    let accept_socket_ : Socket = record { socket_fd = pos s.acceptor.socket_fd }
    let none_yet = new_inet_address net.order net.storage 0 false false
    (connect_fd, peer_addr, w) ← accept_socket (sockets_of net) accept_socket_ none_yet s.system
    accepted connect_fd peer_addr (record s { system = w })

  -- `~TcpServer`: each connection holds itself through its close callback, so that only the acceptor is
  -- destroyed, its channel before its socket.
  unfoldable pub destroy_server : Serving net → Outcome net.W
  unfolding destroy_socket
  destroy_server s = do
    destroy (s.server.reactor.chans s.acceptor.accept_channel)
    ok (destroy_socket sys (record { socket_fd = pos s.acceptor.socket_fd }) s.system)
