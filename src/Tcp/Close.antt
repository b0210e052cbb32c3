-- ===== src/Tcp/Close.antt =====
-- `TcpConnection::handle_close` and `TcpServer::remove_connection`.
use penduo.Prelude.{ℕ, ◌<◌, ◌≡◌, refl, ◌∙◌, false, none, some, List, [], ◌∷◌, ◌++◌, ok, arith, ◌==◌}
use penduo.Channel.{k_none_event}
use penduo.Reactor.{Reactor, disable_all}
use penduo.Reactor.Interest.{IsEntered, Asks, disable_all-Asks}
use penduo.Tcp.{TcpServer, connected, same_name, update_name, handle_close, remove_connection}
use penduo.Tcp.Establish.{ServerInv, IsOpen, IsPlain, same_name_refl}

-- A connection that is closed but not yet taken down: its descriptor is kept in the poller but not
-- watched.
pub record IsClosing (s : TcpServer) (c : ℕ) : Type 0 where
  pub up : (s.conns c).state ≡ connected
  pub own_channel : (s.conns c).channel ≡ c
  pub own_fd : (s.reactor.chans c).fd ≡ (s.conns c).socket_fd
  pub entered : IsEntered s.reactor c
  pub unwatched : (s.reactor.chans c).events ≡ k_none_event
  pub held : (s.conns c).close_callback ≡ some c
  pub callback : ℕ
  pub has_callback : (s.conns c).connection_callback ≡ some callback

pub record Closed (c : ℕ) (s s' : TcpServer) : Type 0 where
  pub server_inv : ServerInv s'
  pub is_closing : IsClosing s' c
  pub unmapped : s'.connections (s.conns c).name ≡ none
  pub other_closing : (d : ℕ) → (c == d) ≡ false → IsClosing s d → IsClosing s' d
  pub queued : s'.pending_functors ≡ s.pending_functors ++ c ∷ []
  pub same_conns : s'.conns ≡ s.conns
  pub other_chans : (d : ℕ) → (c == d) ≡ false → s'.reactor.chans d ≡ s.reactor.chans d
  pub other_fds :
      (fd : ℕ)
      → ((s.reactor.chans c).fd == fd) ≡ false
      → s'.reactor.channels fd ≡ s.reactor.channels fd
  pub other_names :
      (n : List ℕ) → same_name (s.conns c).name n ≡ false → s'.connections n ≡ s.connections n
  pub same_callbacks : (d : ℕ) → IsPlain d (s.reactor.chans c) → IsPlain d (s'.reactor.chans c)
  pub same_revents : (s'.reactor.chans c).revents ≡ (s.reactor.chans c).revents
  pub same_callback : s'.connection_callback ≡ s.connection_callback
  pub same_calls : s'.calls ≡ s.calls
  pub same_thread : s'.reactor.thread_id ≡ s.reactor.thread_id
  pub same_rest : s' ≡ record s {
    reactor = s'.reactor;
    connections = s'.connections;
    pending_functors = s'.pending_functors;
  }

module _ (current c : ℕ) (s : TcpServer) (v : ServerInv s) (here : current ≡ s.reactor.thread_id)
    (o : IsOpen s c) where
  abbrev shut : Reactor → TcpServer
  shut r = record s {
    reactor = r;
    connections = update_name s.connections (s.conns c).name none;
    pending_functors = s.pending_functors ++ c ∷ [];
  }

  handle_close-shut :
      (r : Reactor)
      → disable_all current c s.reactor ≡ ok r
      → r.thread_id ≡ s.reactor.thread_id
      → handle_close current c s ≡ ok (shut r)
  unfolding handle_close remove_connection
  handle_close-shut r e t = ground (arith, o)

  fresh_after :
      (r : Reactor)
      → Asks k_none_event c s.reactor r
      → (fd d : ℕ) → r.channels fd ≡ some d
      → d < s.next_object
  fresh_after r a fd d m = ground (
    arith,
    a.own,
    a.same_fd,
    a.elsewhere fd,
    o.entered,
    v.fresh fd d,
    v.fresh (s.reactor.chans c).fd c,
  )

  shut-IsClosing :
      (r : Reactor)
      → Asks k_none_event c s.reactor r
      → (d : ℕ) → (c == d) ≡ false
      → IsClosing s d
      → IsClosing (shut r) d
  shut-IsClosing r a d n q = record {
    up = q.up;
    own_channel = q.own_channel;
    own_fd = ground (arith, q, a.others d);
    entered = ground (arith, q, o.entered, a.others d, a.elsewhere (s.reactor.chans d).fd);
    unwatched = ground (arith, q, a.others d);
    held = q.held;
    callback = q.callback;
    has_callback = q.has_callback;
  }

  shut-Closed : (r : Reactor) → Asks k_none_event c s.reactor r → Closed c s (shut r)
  shut-Closed r a = record {
    server_inv = record { well_formed = a.inv; fresh = fresh_after r a };
    is_closing = record {
      up = o.up;
      own_channel = o.own_channel;
      own_fd = a.same_fd ∙ o.own_fd;
      entered = a.own;
      unwatched = a.asked;
      held = o.held;
      callback = o.callback;
      has_callback = o.has_callback;
    };
    unmapped = rw (same_name_refl (s.conns c).name) refl;
    other_closing = shut-IsClosing r a;
    queued = refl;
    same_conns = refl;
    other_chans = a.others;
    same_callbacks = λ d p. ground (arith, p, a.same_callbacks);
    other_fds = a.elsewhere;
    other_names = λ n h. rw h refl;
    same_revents = a.same_revents;
    same_callback = refl;
    same_calls = refl;
    same_thread = a.same_thread;
    same_rest = refl;
  }

-- Closing an open connection in the loop's thread never fails: its name leaves the map, its channel
-- asks for no more events but stays in the poller, and its `connect_destoryed` is queued once. No
-- callback of the user is called, and the connection stays connected.
pub handle_close-Closed :
    (current c : ℕ) (s : TcpServer)
    → ServerInv s
    → current ≡ s.reactor.thread_id
    → IsOpen s c
    → (s' : TcpServer) × (handle_close current c s ≡ ok s') × Closed c s s'
handle_close-Closed current c s v here o =
    let (r, e, a) = disable_all-Asks current c s.reactor v.well_formed here o.entered in
    (
      shut current c s v here o r,
      handle_close-shut current c s v here o r e a.same_thread,
      shut-Closed current c s v here o r a,
    )
