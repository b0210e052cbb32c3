-- ===== src/Acceptor/Accepting.antt =====
-- A server that starts to listen and accepts connections.
use penduo.Prelude.{
  ℕ, refl, ◌<◌, ◌≡◌, ◌∙◌, pos, negsuc, true, none, some, ok, fail, fatal, arith, false, ◌==◌,
}
use penduo.Channel.{k_read_event, union}
use penduo.Reactor.{Reactor, enable_reading}
use penduo.Reactor.Interest.{CanUpdate, IsEntered, Asks, enable_reading-Asks}
use penduo.Sockets
use penduo.InetAddress.{InetAddress, sockaddr_cast, zero_address}
use penduo.InetAddress.Text.{HasFamily}
use penduo.Sockets.Ops.{Network, sockets_of, accept_from}
use penduo.Sockets.{listen_or_die, set_nonblocking_and_close_on_exec}
use penduo.Sockets.Accept.{FailsOnBadFd, accept_failure_fatal}
use penduo.Tcp.{TcpServer, new_connection}
use penduo.Tcp.Establish.{ServerInv, Accepted, new_connection-Accepted}
use penduo.Acceptor.{Serving, listen, start, accepted, handle_read}

-- The server listens: it is started, and its acceptor's channel is in the poller and reads.
pub record Listening (net : Network) (s s' : Serving net) : Type 0 where
  pub inv : ServerInv s'.server
  pub is_started : s'.started ≡ true
  pub is_listening : s'.acceptor.listening ≡ true
  pub entered : IsEntered s'.server.reactor s.acceptor.accept_channel
  pub asked :
      (s'.server.reactor.chans s.acceptor.accept_channel).events
      ≡ union (s.server.reactor.chans s.acceptor.accept_channel).events k_read_event
  pub same_channel : s'.acceptor.accept_channel ≡ s.acceptor.accept_channel
  pub same_callback : s'.acceptor.new_connection_callback ≡ s.acceptor.new_connection_callback
  pub same_connections : s'.server.connections ≡ s.server.connections
  pub same_server : s'.server ≡ record s.server { reactor = s'.server.reactor }
  pub other_chans :
      (d : ℕ)
      → (s.acceptor.accept_channel == d) ≡ false
      → s'.server.reactor.chans d ≡ s.server.reactor.chans d
  pub same_connection_callback : s'.server.connection_callback ≡ s.server.connection_callback
  pub same_socket : s'.acceptor.socket_fd ≡ s.acceptor.socket_fd
  pub elsewhere :
      (fd : ℕ)
      → ((s.server.reactor.chans s.acceptor.accept_channel).fd == fd) ≡ false
      → s'.server.reactor.channels fd ≡ s.server.reactor.channels fd
  pub same_thread : s'.server.reactor.thread_id ≡ s.server.reactor.thread_id

module _ (net : Network) (current : ℕ) (s : Serving net) where
  open net use {sys}

  abbrev c : ℕ
  c = s.acceptor.accept_channel

  abbrev heard : Reactor → Serving net
  heard r = record s {
    acceptor = record s.acceptor { listening = true };
    server = record s.server { reactor = r };
    started = true;
    system = (sys.listen (pos s.acceptor.socket_fd) s.system).1;
  }

  start-heard :
      (r : Reactor) (n : ℕ)
      → current ≡ s.server.reactor.thread_id
      → (sys.listen (pos s.acceptor.socket_fd) s.system).0 ≡ pos n
      → enable_reading current c s.server.reactor ≡ ok r
      → start net current s ≡ ok (heard r)
  unfolding start listen listen_or_die
  start-heard r n here l e = ground arith

  heard-fresh :
      (r : Reactor)
      → ServerInv s.server
      → c < s.server.next_object
      → Asks (union (s.server.reactor.chans c).events k_read_event) c s.server.reactor r
      → (fd d : ℕ) → r.channels fd ≡ some d
      → d < s.server.next_object
  heard-fresh r v known a fd d m = ground (arith, a.own, a.same_fd, a.elsewhere fd, v.fresh fd d)

  -- In the loop's thread, where the system call `listen` succeeds, `start` never fails, whether the
  -- acceptor's channel is new or in the poller already, so that a second call is harmless: the server
  -- then listens.
  pub start-Listening :
      (n : ℕ)
      → ServerInv s.server
      → current ≡ s.server.reactor.thread_id
      → c < s.server.next_object
      → CanUpdate s.server.reactor c
      → (sys.listen (pos s.acceptor.socket_fd) s.system).0 ≡ pos n
      → (s' : Serving net) × (start net current s ≡ ok s') × Listening net s s'
  start-Listening n v here known can l =
      let (r, e, a) = enable_reading-Asks current c s.server.reactor v.well_formed here can in
      (
        heard r,
        start-heard r n here l e,
        record {
          inv = record { well_formed = a.inv; fresh = heard-fresh r v known a };
          is_started = refl;
          is_listening = refl;
          entered = a.own;
          asked = a.asked;
          same_channel = refl;
          same_callback = refl;
          same_connections = refl;
          same_server = refl;
          other_chans = a.others;
          same_connection_callback = refl;
          same_socket = refl;
          elsewhere = a.elsewhere;
          same_thread = a.same_thread;
        },
      )

  -- The system after a descriptor is accepted and its flags are set.
  abbrev pub after_accept : ℕ → net.W
  after_accept fd =
      set_nonblocking_and_close_on_exec sys (pos fd)
        (sys.accept (pos s.acceptor.socket_fd) s.system).1

  -- What the system call stores as the peer's address.
  abbrev pub accepted_address : InetAddress
  accepted_address =
      net.calls.acceptname (pos s.acceptor.socket_fd) (sockaddr_cast zero_address) s.system

  accept_returns :
      (fd : ℕ)
      → current ≡ s.server.reactor.thread_id
      → (sys.accept (pos s.acceptor.socket_fd) s.system).0 ≡ pos fd
      → handle_read net current s
        ≡ accepted net (pos fd) accepted_address (record s { system = after_accept fd })
  unfolding handle_read accept_from Sockets.accept
  accept_returns fd here e = ground arith

  accept_fails :
      current ≡ s.server.reactor.thread_id
      → Sockets.accept sys (pos s.acceptor.socket_fd) s.system ≡ fail fatal
      → handle_read net current s ≡ fail fatal
  unfolding handle_read accept_from
  accept_fails here e = ground arith

  -- In the loop's thread, `handle_read` makes a connection of an accepted descriptor that the poller
  -- does not know, where the callback is `new_connection` of a server with a connection callback and
  -- the peer's address has one of the two families: it never fails, the server has accepted the
  -- connection from that address, and the acceptor stays as it is.
  pub handle_read-Accepted :
      (fd k : ℕ)
      → ServerInv s.server
      → current ≡ s.server.reactor.thread_id
      → (sys.accept (pos s.acceptor.socket_fd) s.system).0 ≡ pos fd
      → s.acceptor.new_connection_callback ≡ some (new_connection net current)
      → s.server.reactor.channels fd ≡ none
      → s.server.connection_callback ≡ some k
      → HasFamily accepted_address
      → (server : TcpServer) × (handle_read net current s
          ≡ ok (record s {
            server = server;
            system = ((sockets_of net).get_local_addr (pos fd) (after_accept fd)).1;
          }))
        × Accepted net fd accepted_address (after_accept fd) s.server server
  handle_read-Accepted fd k v here e cb unused k' family =
      let (server, e', a) =
        new_connection-Accepted net current fd k accepted_address s.server (after_accept fd) v here
          unused k' family in
      (server, accept_returns fd here e ∙ rw (cb, e') refl, a)

  -- In the loop's thread, where `fcntl` on a bad descriptor stores EBADF, `handle_read` aborts the
  -- process whenever there is nothing to accept, for whatever reason.
  pub handle_read_aborts :
      (n : ℕ)
      → FailsOnBadFd sys
      → current ≡ s.server.reactor.thread_id
      → (sys.accept (pos s.acceptor.socket_fd) s.system).0 ≡ negsuc n
      → handle_read net current s ≡ fail fatal
  handle_read_aborts n bad here e =
      accept_fails here (accept_failure_fatal sys (pos s.acceptor.socket_fd) n s.system bad e)
