-- ===== src/Tcp/Destroy.antt =====
-- `TcpConnection::connect_destoryed`, which the loop runs from its queue of functors.
use penduo.Prelude.{
  ℕ, ◌≡◌, refl, sym, ◌∙◌, ap, false, none, some, [], ◌∷◌, ◌++◌, ok, arith, ◌==◌, update,
}
use penduo.Channel.{Channel, any, k_none_event}
use penduo.Reactor.{Reactor, disable_all, channel_remove}
use penduo.Reactor.Interest.{Asks, disable_all-Asks}
use penduo.Reactor.Removal.{Removed, channel_remove-Removed}
use penduo.Tcp.{TcpServer, dis_connected, connection_called, connect_destoryed}
use penduo.Tcp.Establish.{ServerInv}
use penduo.Tcp.Close.{IsClosing}

-- Two channels that differ only in their index.
abbrev pub Reindexed : Channel → Channel → Type 0
Reindexed a b = b ≡ record a { pollfds_index = b.pollfds_index }

-- A connection that is taken down. Its close callback still holds the connection itself.
pub record Destroyed (c : ℕ) (s s' : TcpServer) : Type 0 where
  pub server_inv : ServerInv s'
  pub down : (s'.conns c).state ≡ dis_connected
  pub released : s'.reactor.channels (s.conns c).socket_fd ≡ none
  pub announced :
      (k : ℕ)
      → (s.conns c).connection_callback ≡ some k
      → s'.calls ≡ s.calls ++ connection_called k c dis_connected ∷ []
  pub still_held : (s'.conns c).close_callback ≡ some c
  pub others : (d : ℕ) → (c == d) ≡ false → s'.conns d ≡ s.conns d
  pub other_closing : (d : ℕ) → (c == d) ≡ false → IsClosing s d → IsClosing s' d
  pub other_chans : (d : ℕ) → (c == d) ≡ false → Reindexed (s.reactor.chans d) (s'.reactor.chans d)
  pub other_fds :
      (fd : ℕ)
      → ((s.reactor.chans c).fd == fd) ≡ false
      → s'.reactor.channels fd ≡ s.reactor.channels fd
  pub stays_free : (fd : ℕ) → s.reactor.channels fd ≡ none → s'.reactor.channels fd ≡ none
  pub same_pending : s'.pending_functors ≡ s.pending_functors
  pub same_callback : s'.connection_callback ≡ s.connection_callback
  pub same_names : s'.connections ≡ s.connections
  pub same_thread : s'.reactor.thread_id ≡ s.reactor.thread_id
  pub same_rest : s' ≡ record s { reactor = s'.reactor; conns = s'.conns; calls = s'.calls }

module _ (current c : ℕ) (s : TcpServer) (v : ServerInv s) (here : current ≡ s.reactor.thread_id)
    (o : IsClosing s c) where
  abbrev down : ℕ → Reactor → TcpServer
  down k r =
      let conns = update s.conns c (record (s.conns c) { state = dis_connected }) in
      record s {
        reactor = r;
        conns = conns;
        calls = s.calls ++ connection_called k c dis_connected ∷ [];
      }

  connect_destoryed-down :
      (k : ℕ) (r₁ r₂ : Reactor)
      → (s.conns c).connection_callback ≡ some k
      → disable_all current c s.reactor ≡ ok r₁
      → channel_remove current c r₁ ≡ ok r₂
      → connect_destoryed current c s ≡ ok (down k r₂)
  unfolding connect_destoryed
  connect_destoryed-down k r₁ r₂ cb e₁ e₂ = ground (arith, o)

  down-IsClosing :
      (k : ℕ) (r₁ r₂ : Reactor)
      → Asks k_none_event c s.reactor r₁
      → Removed c r₁ r₂
      → (d : ℕ) → (c == d) ≡ false
      → IsClosing s d
      → IsClosing (down k r₂) d
  down-IsClosing k r₁ r₂ a w d n q = record {
    up = ground (arith, q);
    own_channel = ground (arith, q);
    own_fd = ground (arith, q, a.others d, w.others d);
    entered = ground (
      arith,
      q,
      o.entered,
      a.own,
      a.same_fd,
      a.others d,
      w.others d,
      w.elsewhere (s.reactor.chans d).fd,
      a.elsewhere (s.reactor.chans d).fd,
    );
    unwatched = ground (arith, q, a.others d, w.others d);
    held = ground (arith, q);
    callback = q.callback;
    has_callback = ground (arith, q);
  }

  down-Destroyed :
      (k : ℕ) (r₁ r₂ : Reactor)
      → (s.conns c).connection_callback ≡ some k
      → Asks k_none_event c s.reactor r₁
      → Removed c r₁ r₂
      → Destroyed c s (down k r₂)
  down-Destroyed k r₁ r₂ cb a w = record {
    server_inv = record {
      well_formed = w.inv;
      fresh = λ fd d m. ground (
        arith,
        o.entered,
        a.own,
        a.same_fd,
        w.gone,
        w.elsewhere fd,
        a.elsewhere fd,
        v.fresh fd d,
      );
    };
    down = ground arith;
    released = ground (arith, o, a.same_fd, w.gone);
    announced = λ k' e. ground arith;
    still_held = ground (arith, o);
    others = λ d n. ground arith;
    other_closing = down-IsClosing k r₁ r₂ a w;
    other_chans = λ d n. ground (arith, a.others d, w.others d);
    other_fds = λ fd n. ground (arith, a.same_fd, w.elsewhere fd, a.elsewhere fd);
    stays_free = λ fd e. ground (arith, w.gone, w.elsewhere fd, a.elsewhere fd, a.same_fd);
    same_pending = refl;
    same_callback = refl;
    same_names = refl;
    same_thread = w.same_thread ∙ a.same_thread;
    same_rest = refl;
  }

-- When the functor of a closed connection runs in the loop's thread it never fails: the poller
-- forgets the descriptor, the connection is disconnected and announced once, and its close callback
-- still holds it; the poller stays well-formed, and other connections are left alone.
pub connect_destoryed-Destroyed :
    (current c : ℕ) (s : TcpServer)
    → ServerInv s
    → current ≡ s.reactor.thread_id
    → IsClosing s c
    → (s' : TcpServer) × (connect_destoryed current c s ≡ ok s') × Destroyed c s s'
connect_destoryed-Destroyed current c s v here o =
    let (r₁, e₁, a) = disable_all-Asks current c s.reactor v.well_formed here o.entered in
    let (r₂, e₂, w) =
      channel_remove-Removed current c r₁ a.inv (here ∙ sym a.same_thread) a.own (ap any a.asked) in
    (
      down current c s v here o o.callback r₂,
      connect_destoryed-down current c s v here o o.callback r₁ r₂ o.has_callback e₁ e₂,
      down-Destroyed current c s v here o o.callback r₁ r₂ o.has_callback a w,
    )
