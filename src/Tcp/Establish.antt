-- ===== src/Tcp/Establish.antt =====
-- `TcpServer::new_connection` and `TcpConnection::connect_establish`.
use penduo.Prelude.{
  ℕ, suc, ◌+◌, ◌<◌, ◌≡◌, refl, sym, ◌∙◌, inl, pos, true, false, none, some, List, [], ◌∷◌, ◌++◌, ok,
  arith, ◌==◌, update,
}
use penduo.Channel.{Channel, new_channel, k_read_event, union}
use penduo.Reactor.{Reactor, set_chan, enable_reading}
use penduo.Reactor.Invariant.{Inv}
use penduo.InetAddress.{InetAddress}
use penduo.InetAddress.Text.{HasFamily, to_ip_port_total}
use penduo.Sockets.Ops.{Network, sockets_of}
use penduo.Reactor.Interest.{IsNew, IsEntered, Asks, enable_reading-Asks, set_chan-Inv}
use penduo.Tcp.{
  TcpServer, connected, connection_called, same_name, next_name, made, connect_establish,
  new_connection,
}

-- The poller is well-formed, and the number of the next object is not in use.
pub record ServerInv (s : TcpServer) : Type 0 where
  pub well_formed : Inv s.reactor
  pub fresh : (fd d : ℕ) → s.reactor.channels fd ≡ some d → d < s.next_object

-- A connection in use: connected, in the server's map, with its channel in the poller.
pub record IsOpen (s : TcpServer) (c : ℕ) : Type 0 where
  pub up : (s.conns c).state ≡ connected
  pub own_channel : (s.conns c).channel ≡ c
  pub own_fd : (s.reactor.chans c).fd ≡ (s.conns c).socket_fd
  pub entered : IsEntered s.reactor c
  pub watched : (s.reactor.chans c).events ≡ k_read_event
  pub in_map : s.connections (s.conns c).name ≡ some c
  pub held : (s.conns c).close_callback ≡ some c
  pub callback : ℕ
  pub has_callback : (s.conns c).connection_callback ≡ some callback

pub same_name_refl : (n : List ℕ) → same_name n n ≡ true
same_name_refl [] = refl
same_name_refl (a ∷ n) = ground (arith, same_name_refl n)

-- A channel that calls back object `d` when it can be read, and nothing else.
abbrev pub IsPlain : (d : ℕ) → Channel → Type 0
IsPlain d ch =
    (ch.read_callback ≡ some d)
    × (ch.write_callback ≡ none)
    × (ch.error_callback ≡ none)
    × (ch.close_callback ≡ none)

-- What accepting descriptor `fd` leads to.
pub record Accepted (net : Network) (fd : ℕ) (peer_addr : InetAddress) (w : net.W)
    (s s' : TcpServer) : Type 0 where
  pub server_inv : ServerInv s'
  pub is_open : IsOpen s' s.next_object
  pub named : (s'.conns s.next_object).name ≡ next_name net.to_string s
  pub socket : (s'.conns s.next_object).socket_fd ≡ fd
  pub from_peer : (s'.conns s.next_object).peer_addr ≡ peer_addr
  pub at_address :
      (s'.conns s.next_object).local_addr ≡ ((sockets_of net).get_local_addr (pos fd) w).0
  pub callbacks : IsPlain s.next_object (s'.reactor.chans s.next_object)
  pub on_fd : (s'.reactor.chans s.next_object).fd ≡ fd
  pub calls_back : (s'.conns s.next_object).connection_callback ≡ s.connection_callback
  pub messages : (s'.conns s.next_object).message_callback ≡ s.message_callback
  pub other_conns : (d : ℕ) → (s.next_object == d) ≡ false → s'.conns d ≡ s.conns d
  pub other_names :
      (n : List ℕ)
      → same_name (next_name net.to_string s) n ≡ false
      → s'.connections n ≡ s.connections n
  pub announced :
      (k : ℕ)
      → s.connection_callback ≡ some k
      → s'.calls ≡ s.calls ++ connection_called k s.next_object connected ∷ []
  pub other_chans : (d : ℕ) → (s.next_object == d) ≡ false → s'.reactor.chans d ≡ s.reactor.chans d
  pub other_fds : (g : ℕ) → (fd == g) ≡ false → s'.reactor.channels g ≡ s.reactor.channels g
  pub same_callback : s'.connection_callback ≡ s.connection_callback
  pub nothing_queued : s'.pending_functors ≡ s.pending_functors
  pub same_thread : s'.reactor.thread_id ≡ s.reactor.thread_id
  pub same_rest : s' ≡ record s {
    reactor = s'.reactor;
    conns = s'.conns;
    next_connect_id = s.next_connect_id + 1;
    connections = s'.connections;
    next_object = suc s.next_object;
    calls = s'.calls;
  }

module _ (to_string : ℕ → List ℕ) (current fd : ℕ) (local_addr peer_addr : InetAddress)
    (s : TcpServer) (v : ServerInv s) (here : current ≡ s.reactor.thread_id)
    (unused : s.reactor.channels fd ≡ none) where
  abbrev c : ℕ
  c = s.next_object

  start : Reactor
  start = set_chan s.reactor c (record (new_channel s.reactor.self fd) { read_callback = some c })

  start-Inv : Inv start
  unfolding start
  start-Inv = set_chan-Inv s.reactor c _ v.well_formed (λ fd' e. ground (arith, v.fresh fd' c e))

  start-IsNew : IsNew start c
  unfolding start
  start-IsNew = ground arith

  start_fd : (start.chans c).fd ≡ fd
  unfolding start
  start_fd = ground arith

  start_thread : current ≡ start.thread_id
  unfolding start
  start_thread = here

  opened :
      (r' : Reactor) × (enable_reading current c start ≡ ok r')
      × Asks (union (start.chans c).events k_read_event) c start r'
  opened = enable_reading-Asks current c start start-Inv start_thread (inl start-IsNew)

  start_events : union (start.chans c).events k_read_event ≡ k_read_event
  unfolding start
  start_events = ground arith

  -- The server after the call, from the reactor after `enable_reading`.
  abbrev served : (k : ℕ) → Reactor → TcpServer
  served k r =
      let m = made to_string fd local_addr peer_addr s in
      let s₁ = record m {
        reactor = r;
        conns = update m.conns c (record (m.conns c) { state = connected });
      } in
      record s₁ { calls = s.calls ++ connection_called k c connected ∷ [] }

  connect_establish-served :
      (k : ℕ) (r' : Reactor)
      → s.connection_callback ≡ some k
      → enable_reading current c start ≡ ok r'
      → connect_establish current c (made to_string fd local_addr peer_addr s) ≡ ok (served k r')
  unfolding connect_establish made start
  connect_establish-served k r' cb e = ground arith

  served-IsOpen :
      (k : ℕ) (r' : Reactor)
      → s.connection_callback ≡ some k
      → Asks (union (start.chans c).events k_read_event) c start r'
      → IsOpen (served k r') c
  unfolding made
  served-IsOpen k r' cb a = record {
    up = ground arith;
    own_channel = ground arith;
    own_fd = ground (arith, a.same_fd, start_fd);
    entered = a.own;
    watched = a.asked ∙ start_events;
    in_map = ground (arith, same_name_refl (next_name to_string s));
    held = ground arith;
    callback = k;
    has_callback = ground arith;
  }

  served-ServerInv :
      (k : ℕ) (r' : Reactor)
      → Asks (union (start.chans c).events k_read_event) c start r'
      → ServerInv (served k r')
  unfolding made start
  served-ServerInv k r' a = record {
    well_formed = a.inv;
    fresh = λ fd' d e. ground (arith, a.own, a.same_fd, a.elsewhere fd', v.fresh fd' d);
  }

  new_callbacks :
      (r' : Reactor)
      → Asks (union (start.chans c).events k_read_event) c start r'
      → IsPlain c (r'.chans c)
  unfolding start
  new_callbacks r' a = ground (arith, a.same_callbacks)

  other_chans-start :
      (r' : Reactor)
      → Asks (union (start.chans c).events k_read_event) c start r'
      → (d : ℕ) → (c == d) ≡ false
      → r'.chans d ≡ s.reactor.chans d
  unfolding start
  other_chans-start r' a d n = ground (arith, a.others d)

  other_fds-start :
      (r' : Reactor)
      → Asks (union (start.chans c).events k_read_event) c start r'
      → (g : ℕ) → (fd == g) ≡ false
      → r'.channels g ≡ s.reactor.channels g
  unfolding start
  other_fds-start r' a g n = ground (arith, a.elsewhere g)

-- In the loop's thread, with a connection callback, a descriptor that the poller does not know and a
-- peer whose address has one of the two families, `new_connection` never fails: the connection is
-- connected, watched for reading, in the map under its new name and announced once, with the two
-- addresses stored in it, the poller stays well-formed, and no other connection or name changes.
pub new_connection-Accepted :
    (net : Network) (current fd k : ℕ) (peer_addr : InetAddress) (s : TcpServer) (w : net.W)
    → ServerInv s
    → current ≡ s.reactor.thread_id
    → s.reactor.channels fd ≡ none
    → s.connection_callback ≡ some k
    → HasFamily peer_addr
    → (s' : TcpServer) × (new_connection net current fd peer_addr (s, w)
        ≡ ok (s', ((sockets_of net).get_local_addr (pos fd) w).1))
      × Accepted net fd peer_addr w s s'
unfolding new_connection made
new_connection-Accepted net current fd k peer_addr s w v here unused cb family =
    let local_addr = ((sockets_of net).get_local_addr (pos fd) w).0 in
    let (r', e, a) = opened net.to_string current fd local_addr peer_addr s v here unused in
    let (text, printed) = to_ip_port_total net.order net.inet_ntop net.to_string peer_addr family in
    let connects =
      connect_establish-served net.to_string current fd local_addr peer_addr s v here unused k r' cb
        e in
    (
      served net.to_string current fd local_addr peer_addr s v here unused k r',
      ground (arith, here, printed, connects),
      record {
        server_inv =
            served-ServerInv net.to_string current fd local_addr peer_addr s v here unused k r' a;
        is_open =
            served-IsOpen net.to_string current fd local_addr peer_addr s v here unused k r' cb a;
        named = ground arith;
        socket = ground arith;
        from_peer = ground arith;
        at_address = ground arith;
        callbacks =
            new_callbacks net.to_string current fd local_addr peer_addr s v here unused r' a;
        on_fd = a.same_fd ∙ start_fd net.to_string current fd local_addr peer_addr s v here unused;
        calls_back = ground arith;
        messages = ground arith;
        other_conns = λ d n. ground arith;
        other_names = λ n h. rw h refl;
        announced = λ k' e'. ground arith;
        other_chans =
            other_chans-start net.to_string current fd local_addr peer_addr s v here unused r' a;
        other_fds =
            other_fds-start net.to_string current fd local_addr peer_addr s v here unused r' a;
        same_callback = refl;
        nothing_queued = refl;
        same_thread =
            a.same_thread
            ∙ sym (start_thread net.to_string current fd local_addr peer_addr s v here unused)
            ∙ here;
        same_rest = refl;
      },
    )
