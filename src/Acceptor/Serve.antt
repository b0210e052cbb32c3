-- ===== src/Acceptor/Serve.antt =====
-- A server from its constructor to the first poll.
use penduo.Prelude.{
  fail, assertion, ℕ, suc, ◌<◌, ◌≡◌, ◌∙◌, refl, sym, subst, ◌⊎◌, inl, pos, true, false, none, some,
  List, [], ◌∷◌, ◌++◌, ap, ok, arith, ◌==◌, if◌then◌else◌,
}
use penduo.Channel.{new_channel}
use penduo.Reactor.{Reactor, set_chan}
use penduo.Reactor.Invariant.{Inv}
use penduo.Reactor.Interest.{IsNew, set_chan-Inv}
use penduo.InetAddress.{InetAddress, zero_address}
use penduo.InetAddress.Text.{HasFamily}
use penduo.Sockets.Ops.{Network}
use penduo.Sockets.{
  af_inet, af_inet6, create_nonblocking_or_die, bind_or_die, set_nonblocking_and_close_on_exec,
}
use penduo.Socket.{set_reuse_addr}
use penduo.Tcp.{
  TcpConnection, TcpServer, same_name, next_name, connection_called, connected,
  set_connection_callback, set_message_callback, new_connection,
}
use penduo.Tcp.Establish.{ServerInv, Accepted}
use penduo.Acceptor.{Serving, new_server, start, handle_read, destroy_server}
use penduo.Acceptor.Accepting.{
  Listening, start-Listening, after_accept, accepted_address, handle_read-Accepted,
}

-- What the constructor leaves: a server under its name with no connection, no callback of the user, no
-- functor and no call made, whose acceptor has a new channel on its socket and does not listen.
pub record Fresh (net : Network) (current : ℕ) (name : List ℕ) (reactor : Reactor)
    (conns : ℕ → TcpConnection) (next_object fd : ℕ) (s : Serving net) : Type 0 where
  pub inv : ServerInv s.server
  pub named : s.server.name ≡ name
  pub no_connection : (n : List ℕ) → s.server.connections n ≡ none
  pub same_conns : s.server.conns ≡ conns
  pub first_id : s.server.next_connect_id ≡ 0
  pub no_connection_callback : s.server.connection_callback ≡ none
  pub no_message_callback : s.server.message_callback ≡ none
  pub nothing_queued : s.server.pending_functors ≡ []
  pub no_calls : s.server.calls ≡ []
  pub numbered : s.server.next_object ≡ suc next_object
  pub not_started : s.started ≡ false
  pub not_listening : s.acceptor.listening ≡ false
  pub socket : s.acceptor.socket_fd ≡ fd
  pub callback : s.acceptor.new_connection_callback ≡ some (new_connection net current)
  pub channel : s.acceptor.accept_channel ≡ next_object
  pub is_new : IsNew s.server.reactor next_object
  pub on_socket : (s.server.reactor.chans next_object).fd ≡ fd
  pub reads : (s.server.reactor.chans next_object).read_callback ≡ some next_object
  pub other_chans :
      (d : ℕ) → (next_object == d) ≡ false → s.server.reactor.chans d ≡ reactor.chans d
  pub same_channels : s.server.reactor.channels ≡ reactor.channels
  pub same_thread : s.server.reactor.thread_id ≡ reactor.thread_id

-- A server that listens cannot be destroyed: the channel of its acceptor is in the poller.
Listening-destroy_server :
    (net : Network) (s s' : Serving net)
    → Listening net s s'
    → destroy_server net s' ≡ fail assertion
unfolding destroy_server
Listening-destroy_server net s s' l = ground (
  arith,
  l,
  l.inv.well_formed.mapped (s'.server.reactor.chans s.acceptor.accept_channel).fd
      s.acceptor.accept_channel l.entered,
)

-- The name of the next connection does not depend on the poller.
next_name-same :
    (to_string : ℕ → List ℕ) (s s' : TcpServer)
    → s' ≡ record s { reactor = s'.reactor }
    → next_name to_string s' ≡ next_name to_string s
next_name-same to_string s s' e = ap (next_name to_string) e

-- The user's calls between the constructor and `start`.
abbrev pub registered : {net : Network} → (connection message : ℕ) → Serving net → Serving net
registered connection message s = record s {
  server = set_connection_callback connection (set_message_callback message s.server);
}

-- From the constructor's result `s` to a server with one connection: `start` returns a server that
-- listens, has the two callbacks and cannot be destroyed, and the acceptor's read event one that has
-- accepted `conn_fd`: a connection with the two callbacks, the only one, of which the only call is made.
pub record Serves (net : Network) (current connection message conn_fd : ℕ) (s : Serving net)
    : Type 0 where
  pub listener : Serving net
  pub starts : start net current (registered connection message s) ≡ ok listener
  pub listens : Listening net (registered connection message s) listener
  pub calls_back : listener.server.connection_callback ≡ some connection
  pub messages : listener.server.message_callback ≡ some message
  pub no_end : destroy_server net listener ≡ fail assertion
  pub server : Serving net
  pub accepts : handle_read net current listener ≡ ok server
  pub accepted :
      Accepted net conn_fd
        (accepted_address net current listener)
        (after_accept net current listener conn_fd)
        listener.server
        server.server
  pub conn_calls_back :
      (server.server.conns s.server.next_object).connection_callback ≡ some connection
  pub conn_messages : (server.server.conns s.server.next_object).message_callback ≡ some message
  pub only_one :
      (n : List ℕ)
      → same_name (next_name net.to_string s.server) n ≡ false
      → server.server.connections n ≡ none
  pub one_call :
      server.server.calls ≡ connection_called connection s.server.next_object connected ∷ []

module _ (net : Network) (current : ℕ) (listen_addr : InetAddress) (name : List ℕ)
    (reactor : Reactor) (conns : ℕ → TcpConnection) (next_object fd : ℕ) (w : net.W)
    (v : Inv reactor) (fresh : (g d : ℕ) → reactor.channels g ≡ some d → d < next_object)
    (family : (listen_addr.family ≡ af_inet) ⊎ (listen_addr.family ≡ af_inet6))
    (opens : (net.sys.socket listen_addr.family w).0 ≡ pos fd)
    (binds : (size : ℕ) (w' : net.W)
      → (n : ℕ) × ((net.sys.bind (pos fd) listen_addr.family size w').0 ≡ pos n))
    (unused : reactor.channels fd ≡ none) where
  open net use {sys}

  -- The system after the socket is made and set up.
  abbrev opened : net.W
  opened =
      set_reuse_addr sys (record { socket_fd = pos fd }) true
        (set_nonblocking_and_close_on_exec sys (pos fd) (sys.socket listen_addr.family w).1)

  abbrev bound : net.W
  bound =
      (sys.bind (pos fd) listen_addr.family (if listen_addr.family == af_inet then 16 else 28)
        opened).1

  bind_or_die-bound : bind_or_die sys (pos fd) listen_addr.family opened ≡ ok bound
  unfolding bind_or_die
  bind_or_die-bound = let (m, e) = binds 16 opened in let (n, f) = binds 28 opened in ground arith

  abbrev built : Serving net
  built = record {
    acceptor = record {
      socket_fd = fd;
      accept_channel = next_object;
      listening = false;
      new_connection_callback = some (new_connection net current);
    };
    server = record {
      reactor =
          set_chan reactor next_object
            (record (new_channel reactor.self fd) { read_callback = some next_object });
      conns = conns;
      name = name;
      connection_callback = none;
      message_callback = none;
      next_connect_id = 0;
      connections = λ n. none;
      pending_functors = [];
      next_object = suc next_object;
      calls = [];
    };
    started = false;
    system = bound;
  }

  create-opened :
      create_nonblocking_or_die sys listen_addr.family w
      ≡ ok (
        pos fd,
        set_nonblocking_and_close_on_exec sys (pos fd) (sys.socket listen_addr.family w).1,
      )
  unfolding create_nonblocking_or_die
  create-opened = ground arith

  new_server-built : new_server net current listen_addr name reactor conns next_object w ≡ ok built
  unfolding new_server
  new_server-built = rw (create-opened, bind_or_die-bound) refl

  built-Fresh : Fresh net current name reactor conns next_object fd built
  built-Fresh = record {
    inv = record {
      well_formed =
          set_chan-Inv reactor next_object _ v (λ g e. ground (arith, fresh g next_object e));
      fresh = λ g d e. ground (arith, fresh g d e);
    };
    named = refl;
    no_connection = λ n. refl;
    same_conns = refl;
    first_id = refl;
    no_connection_callback = refl;
    no_message_callback = refl;
    nothing_queued = refl;
    no_calls = refl;
    numbered = refl;
    not_started = refl;
    not_listening = refl;
    socket = refl;
    callback = refl;
    channel = refl;
    is_new = ground arith;
    on_socket = ground arith;
    reads = ground arith;
    other_chans = λ d n. ground arith;
    same_channels = refl;
    same_thread = refl;
  }

  built-IsNew :
      IsNew
        (set_chan reactor next_object
          (record (new_channel reactor.self fd) { read_callback = some next_object }))
        next_object
  built-IsNew = record { unindexed = ground arith; free = ground arith; owner = ground arith }

  registered-Listening :
      (connection message n : ℕ)
      → current ≡ reactor.thread_id
      → (sys.listen (pos fd) bound).0 ≡ pos n
      → (s : Serving net) × (start net current (registered connection message built) ≡ ok s)
        × Listening net (registered connection message built) s
  registered-Listening connection message n here l =
      start-Listening net current (registered connection message built) n
        (record { well_formed = built-Fresh.inv.well_formed; fresh = built-Fresh.inv.fresh }) here
        (omega arith) (inl built-IsNew) l

  -- In the loop's thread, on a well-formed reactor that knows neither descriptor, where the system
  -- makes socket `fd`, binds it, listens on it and has descriptor `conn_fd` to accept, from an address
  -- of one of the two families: the constructor, the two setters, `start` and the acceptor's read event
  -- never fail, and lead to a server with no connection, no callback and no call made, then to one that
  -- listens with the two callbacks, whose destruction would fail an assertion, then to one with that
  -- connection and no other, which has the two callbacks and was announced once.
  pub new_server-Serves :
      (connection message n conn_fd : ℕ)
      → current ≡ reactor.thread_id
      → (sys.listen (pos fd) bound).0 ≡ pos n
      → ((w' : net.W) → (sys.accept (pos fd) w').0 ≡ pos conn_fd)
      → ((w' : net.W) → HasFamily (net.calls.acceptname (pos fd) zero_address w'))
      → (fd == conn_fd) ≡ false
      → reactor.channels conn_fd ≡ none
      → (s : Serving net) × (new_server net current listen_addr name reactor conns next_object w
          ≡ ok s)
        × Fresh net current name reactor conns next_object fd s
        × Serves net current connection message conn_fd s
  new_server-Serves connection message n conn_fd here l accepts families differ free =
      let (s, e, a) = registered-Listening connection message n here l in
      let (server, e', b) =
        handle_read-Accepted net current s conn_fd connection a.inv (here ∙ sym a.same_thread)
          (ground (arith, a.same_socket, accepts s.system)) a.same_callback
          (a.elsewhere conn_fd (ground arith) ∙ free) a.same_connection_callback
          (subst
            (λ listen_fd. HasFamily (net.calls.acceptname (pos listen_fd) zero_address s.system))
            (sym a.same_socket) (families s.system)) in
      let first : s.server.next_object ≡ suc next_object =
        ap (λ (x : TcpServer). x.next_object) a.same_server in
      let message_set : s.server.message_callback ≡ some message =
        ap (λ (x : TcpServer). x.message_callback) a.same_server in
      let same =
        next_name-same net.to_string (registered connection message built).server s.server
          a.same_server in
      (
        built,
        new_server-built,
        built-Fresh,
        record {
          listener = s;
          starts = e;
          listens = a;
          calls_back = a.same_connection_callback;
          messages = message_set;
          no_end = Listening-destroy_server net (registered connection message built) s a;
          server = _;
          accepts = e';
          accepted = b;
          conn_calls_back =
              ap (λ c. (server.conns c).connection_callback) (sym first)
              ∙ b.calls_back
              ∙ a.same_connection_callback;
          conn_messages =
              ap (λ c. (server.conns c).message_callback) (sym first) ∙ b.messages ∙ message_set;
          only_one = λ m other.
              b.other_names m (ap (λ x. same_name x m) same ∙ other)
              ∙ ap (λ connections. connections m) a.same_connections;
          one_call =
              b.announced connection a.same_connection_callback
              ∙ ap
                  (λ (x : TcpServer).
                    x.calls ++ connection_called connection x.next_object connected ∷ [])
                  a.same_server;
        },
      )
