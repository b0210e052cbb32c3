-- ===== src/Loop/HangUp.antt =====
-- A round in which one peer hangs up.
use penduo.Prelude.{
  ℕ, ◌≡◌, refl, sym, subst, ap, ◌∙◌, true, false, ◌||◌, Option, none, some, [], ◌∷◌, ◌++◌, Outcome,
  ok, ◌==◌, arith, All,
}
use penduo.Timestamp.{Timestamp}
use penduo.Poll.Fill.{ready_channels}
use penduo.Poll.Sound.{IsPoll, polled, poll_lem}
use penduo.Dispatch.{handle_event, set_handling, stage, on_close, on_error, on_read, on_write}
use penduo.Buffer.{received}
use penduo.Sockets.Ops.{Network}
use penduo.Tcp.{TcpServer, dis_connected, set_buffer, handle_read, do_pending_functors}
use penduo.Tcp.Establish.{ServerInv, IsOpen}
use penduo.Tcp.Close.{IsClosing, Closed}
use penduo.Tcp.Marks.{
  SameServer-IsOpen, SameServer-IsClosing, marked, with_reactor, marked-SameServer,
  marked-ServerInv,
}
use penduo.Tcp.Read.{handle_read_closes}
use penduo.Tcp.Drain.{Distinct, Differs, IsDown, do_pending_functors-Drained}
use penduo.Loop.Marks.{polled-SameServer}
use penduo.Loop.{
  Loop, Round, world, reactor_of, put_reactor, put_server, run_callback, handle_events, run_pending,
  run_round,
}

-- What a hang-up leads to: the connection is disconnected, its name is not in the map, the poller has
-- forgotten its descriptor, no functor waits, and no other connection is touched.
pub record HungUp (c : ℕ) (s s' : TcpServer) : Type 0 where
  pub server_inv : ServerInv s'
  pub down : (s'.conns c).state ≡ dis_connected
  pub released : s'.reactor.channels (s.conns c).socket_fd ≡ none
  pub unmapped : s'.connections (s.conns c).name ≡ none
  pub others : (d : ℕ) → (c == d) ≡ false → s'.conns d ≡ s.conns d
  pub nothing_queued : s'.pending_functors ≡ []

-- The functors after the connection is closed and its channel is unmarked.
do_pending_functors-HungUp :
    (current c : ℕ) (s s₁ : TcpServer)
    → current ≡ s.reactor.thread_id
    → s.pending_functors ≡ []
    → Closed c s s₁
    → (s' : TcpServer) × (do_pending_functors current (with_reactor (marked c false s₁.reactor) s₁)
        ≡ ok s')
      × HungUp c s s'
do_pending_functors-HungUp current c s s₁ here none_queued w =
    let s₂ : TcpServer = with_reactor (marked c false s₁.reactor) s₁ in
    let one : s₂.pending_functors ≡ c ∷ [] = w.queued ∙ ap (λ cs. cs ++ c ∷ []) none_queued in
    let (s', e, d) =
      do_pending_functors-Drained current s₂ (marked-ServerInv c false s₁ w.server_inv)
        (here ∙ sym w.same_thread)
        (subst (All (IsClosing s₂)) (sym one)
          (SameServer-IsClosing s₁ s₂ c (marked-SameServer c false s₁) w.is_closing, tt))
        (subst Distinct (sym one) (tt, tt)) in
    let down = subst (All (IsDown (record s₂ { pending_functors = [] }) s')) one d.all_down in
    (
      s',
      e,
      record {
        server_inv = d.server_inv;
        down = down.0.0;
        released =
            ap (λ conns. s'.reactor.channels (conns c).socket_fd) (sym w.same_conns) ∙ down.0.1;
        unmapped = ap (λ m. m (s.conns c).name) d.same_names ∙ w.unmapped;
        others = λ x n.
            d.others x (subst (All (Differs x)) (sym one) (n, tt))
            ∙ ap (λ conns. conns x) w.same_conns;
        nothing_queued = d.same_pending;
      },
    )

-- The events of one connection with a peer that has hung up, and the callbacks of its channel.
pub record HangsUp (net : Network) (round : Round) (c : ℕ) (w : Loop net) : Type 0 where
  pub is_open : IsOpen w.serving.server c
  pub reads : ((reactor_of w).chans c).read_callback ≡ some c
  pub no_error_callback : ((reactor_of w).chans c).error_callback ≡ none
  pub nothing_queued : w.serving.server.pending_functors ≡ []
  pub not_timer : (c == w.timer_channel) ≡ false
  pub not_wakeup : (c == w.wakeup_channel) ≡ false
  pub not_acceptor : (c == w.serving.acceptor.accept_channel) ≡ false
  pub end_of_stream : round.readv c ≡ received []

module _ (net : Network) (round : Round) (current c : ℕ) (w : Loop net)
    (v : ServerInv w.serving.server) (here : current ≡ (reactor_of w).thread_id)
    (h : HangsUp net round c w) (readable : ((reactor_of w).chans c).revents.pollin ≡ true)
    (not_writable : ((reactor_of w).chans c).revents.pollout ≡ false) where
  abbrev run : ℕ → Option Timestamp → Loop net → Outcome (Loop net)
  run = run_callback round current

  abbrev w₀ : Loop net
  w₀ = set_handling world run c round.receive_time true w

  abbrev s₀ : TcpServer
  s₀ = w₀.serving.server

  abbrev buffered : TcpServer
  buffered = set_buffer c ((s₀.conns c).input_buffer ++ []) s₀

  quiet_close : stage world run c round.receive_time on_close w₀ ≡ ok w₀
  quiet_close = ground (arith, readable)

  quiet_error : stage world run c round.receive_time on_error w₀ ≡ ok w₀
  quiet_error = ground (arith, h.no_error_callback)

  read_called : stage world run c round.receive_time on_read w₀ ≡ run c (some round.receive_time) w₀
  read_called = ground (arith, h.reads, readable)

  read_closes :
      (s₁ : TcpServer)
      → handle_read round.leaves (received []) current c s₀ ≡ ok s₁
      → run c (some round.receive_time) w₀ ≡ ok (put_server s₁ w₀)
  unfolding run_callback
  read_closes s₁ e = rw (h.not_timer, h.not_wakeup, h.not_acceptor, h.end_of_stream, e) refl

  quiet_write :
      (s₁ : TcpServer)
      → Closed c buffered s₁
      → stage world run c round.receive_time on_write (put_server s₁ w₀) ≡ ok (put_server s₁ w₀)
  quiet_write s₁ k = ground (arith, not_writable, k.same_revents)

  handled :
      (s₁ : TcpServer) × (handle_event world run c round.receive_time w
        ≡ ok (put_server (with_reactor (marked c false s₁.reactor) s₁) w₀))
      × Closed c buffered s₁
  unfolding handle_event
  handled =
      let (s₁, e, k) =
        handle_read_closes round.leaves current c s₀ (marked-ServerInv c true w.serving.server v)
          here
          (SameServer-IsOpen w.serving.server s₀ c (marked-SameServer c true w.serving.server)
            h.is_open) in
      (s₁, rw (quiet_close, quiet_error, read_called, read_closes s₁ e, quiet_write s₁ k) refl, k)

-- A hang-up is dealt with in one round: in the loop's thread, where `poll` behaves as documented and
-- reports only an open connection, as readable, and the read returns 0, the round never fails, with
-- no functor waiting before it. After it the connection is disconnected, its name is not in the map,
-- the poller has forgotten its descriptor, no functor waits, and no other connection is touched.
pub run_round-HungUp :
    (net : Network) (round : Round) (current c : ℕ) (w : Loop net) (v : ServerInv w.serving.server)
    (k : IsPoll round.kernel (reactor_of w).pollfds)
    → current ≡ (reactor_of w).thread_id
    → HangsUp net round c w
    → ready_channels (reactor_of w).channels (round.kernel (reactor_of w).pollfds).1 ≡ c ∷ []
    → ((polled round.kernel (reactor_of w) v.well_formed k).chans c).revents.pollin ≡ true
    → ((polled round.kernel (reactor_of w) v.well_formed k).chans c).revents.pollout ≡ false
    → (w' : Loop net) × (run_round round current w ≡ ok w')
      × HungUp c w.serving.server w'.serving.server
unfolding run_round handle_events run_pending
run_round-HungUp net round current c w v k here h only readable not_writable =
    let r = polled round.kernel (reactor_of w) v.well_formed k in
    let s : TcpServer = w.serving.server in
    let (polls, well_formed) = poll_lem round.kernel (reactor_of w) v.well_formed k [] in
    let same = polled-SameServer round.kernel s v.well_formed k in
    let rest = same.chans c in
    let w₁ : Loop net = put_reactor r w in
    let v₁ : ServerInv (with_reactor r s) = record { well_formed = well_formed; fresh = v.fresh } in
    let h₁ : HangsUp net round c w₁ = record {
      is_open = SameServer-IsOpen s (with_reactor r s) c same h.is_open;
      reads = ground (arith, h.reads, rest);
      no_error_callback = ground (arith, h.no_error_callback, rest);
      nothing_queued = h.nothing_queued;
      not_timer = h.not_timer;
      not_wakeup = h.not_wakeup;
      not_acceptor = h.not_acceptor;
      end_of_stream = h.end_of_stream;
    } in
    let (s₁, e₁, closed) = handled net round current c w₁ v₁ here h₁ readable not_writable in
    let (s', e', done) =
      do_pending_functors-HungUp current c
        (buffered net round current c w₁ v₁ here h₁ readable not_writable) s₁ here h.nothing_queued
        closed in
    (
      record (put_server s' w) { calling_pending_functors = false; quit = w.quit || round.quits },
      rw (polls, only, e₁, e') refl,
      record {
        server_inv = done.server_inv;
        down = done.down;
        released = ground (arith, done.released);
        unmapped = ground (arith, done.unmapped);
        others = λ d n. ground (arith, done.others d n);
        nothing_queued = done.nothing_queued;
      },
    )
