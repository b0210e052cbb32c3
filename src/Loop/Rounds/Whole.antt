-- ===== src/Loop/Rounds/Whole.antt =====
-- A whole round never fails.
use penduo.Prelude.{ℕ, ◌≡◌, refl, sym, ap, ◌∙◌, false, ◌||◌, [], ok}
use penduo.Sockets.Ops.{Network}
use penduo.Reactor.{Reactor}
use penduo.Poll.Sound.{polled, poll_lem}
use penduo.Tcp.{TcpServer}
use penduo.Tcp.Drain.{Drained, do_pending_functors-Drained}
use penduo.Tcp.Marks.{with_reactor}
use penduo.Tcp.Settled.{IsServed, SameServer-IsServed}
use penduo.Tcp.Settled.Drain.{Drained-IsServed, Drained-Settled}
use penduo.Loop.{Loop, Round, reactor_of, put_reactor, put_server, run_pending, run_round}
use penduo.Loop.Marks.{polled-SameServer}
use penduo.Loop.Invariant.{is_special, Running, CanAccept, put_server-Running, put_same-Running}
use penduo.Loop.Sweep.Whole.{handle_events-Swept}
use penduo.Loop.Ready.{active_served, active_once}
use penduo.Loop.Rounds.{active, IsFit, RoundDone}
use penduo.Loop.Rounds.After.{All-map_in, All-RoundEffect, polled-Joined, all_others}

module _ (net : Network) (injective : (i j : ℕ) → net.to_string i ≡ net.to_string j → i ≡ j)
    (round : Round) (current : ℕ) where
  -- The functors of a running loop.
  run_pending-Running :
      (w : Loop net)
      → Running w
      → current ≡ (reactor_of w).thread_id
      → (s' : TcpServer) × (run_pending current w
          ≡ ok (put_server s' (record w { calling_pending_functors = false })))
        × Running (put_server s' w)
        × Drained w.serving.server.pending_functors
            (record w.serving.server { pending_functors = [] })
            s'
  unfolding run_pending
  run_pending-Running w v here =
      let s : TcpServer = w.serving.server in
      let (s', e, d) =
        do_pending_functors-Drained current s v.settled.well.server_inv here v.settled.well.closing
          v.settled.well.once in
      (
        s',
        rw e refl,
        put_server-Running w s' v (Drained-Settled (is_special w) net.to_string s s' v.settled d)
            (λ k p h. Drained-IsServed (is_special w) net.to_string s s' v.settled d k p)
            d.same_thread,
        d,
      )

  -- In the loop's thread a round that meets what it may meet never fails: the loop runs on after it with
  -- no functor waiting; each active connection that can be read is down if its stream ended, and served
  -- on, with its message callback called, otherwise; an acceptor that can be read has brought a
  -- connection, which is served and announced; a timer descriptor that can be read has run the timers
  -- that are due, and no event of it leaves them alone; and what else was served is served still, its
  -- connection as it was.
  pub run_round-RoundDone :
      (w : Loop net)
      → Running w
      → current ≡ (reactor_of w).thread_id
      → IsFit round w
      → (w' : Loop net) × (run_round round current w ≡ ok w') × RoundDone round w w'
  unfolding run_round
  run_round-RoundDone w v here fit =
      let s : TcpServer = w.serving.server in
      let inv = v.settled.well.server_inv in
      let r = polled round.kernel s.reactor inv.well_formed fit.polls in
      let (polls, well_formed) = poll_lem round.kernel s.reactor inv.well_formed fit.polls [] in
      let m = polled-SameServer round.kernel s inv.well_formed fit.polls in
      let v₁ =
        put_same-Running w (with_reactor r s) v m
          (record { well_formed = well_formed; fresh = inv.fresh }) in
      let (w₂, e, swept) =
        handle_events-Swept net injective round current fit.reads (active round w) (put_reactor r w)
          v₁ here
          (All-map_in (IsServed (is_special w) s) (IsServed (is_special w) (with_reactor r s))
            (active round w) (SameServer-IsServed (is_special w) s (with_reactor r s) m)
            (active_served (is_special w) net.to_string round.kernel s v.settled fit.polls))
          (active_once (is_special w) net.to_string round.kernel s v.settled fit.polls)
          (λ h. polled_can w r (fit.accepts h) refl) in
      let (s', e', running, d) =
        run_pending-Running w₂ swept.running (here ∙ sym swept.same_thread) in
      (
        record (put_server s' w₂) {
          calling_pending_functors = false;
          quit = w₂.quit || round.quits;
        },
        rw (polls, e, e') refl,
        record {
          running = record {
            settled = running.settled;
            apart = running.apart;
            own = running.own;
            timers = running.timers;
            timers_here = running.timers_here;
            accepts = running.accepts;
          };
          nothing_queued = d.same_pending;
          effects = All-RoundEffect round w w₂ r s' m swept d;
          others = all_others round w w₂ r s' m swept d v;
          joined = polled-Joined round w w₂ r s' m swept d;
          timed = swept.timed;
          same_timers = swept.same_timers;
          quits = ap (λ b. b || round.quits) swept.same_quit;
          same_thread = d.same_thread ∙ swept.same_thread;
        },
      )
    where
      polled_can :
          (w : Loop net) (r : Reactor)
          → CanAccept w
          → r.channels ≡ (reactor_of w).channels
          → CanAccept (put_reactor r w)
      polled_can w r can same = record {
        fd = can.fd;
        is_there = can.is_there;
        unknown = rw same can.unknown;
        from_family = can.from_family;
      }
