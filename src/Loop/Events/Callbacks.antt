-- ===== src/Loop/Events/Callbacks.antt =====
-- The read callbacks of the objects that a running loop serves.
use penduo.Prelude.{
  ℕ, ◌-◌, ◌≡◌, refl, sym, ap, ◌∙◌, inl, inr, true, false, Option, pos, [], ok, arith, ◌==◌,
  Bool-cases,
}
use mathlib.Core.List.{append-nil}
use penduo.Sockets.Ops.{Network, sockets_of}
use penduo.Timestamp.{Timestamp}
use penduo.TimerQueue.Expire
use penduo.Acceptor.{Serving}
use penduo.Acceptor.Accepting.{after_accept, handle_read-Accepted}
use penduo.Tcp.{TcpServer}
use penduo.Tcp.Settled.{IsServed}
use penduo.Tcp.Settled.Accept.{new-IsServed, Accepted-IsServed, Accepted-Settled}
use penduo.Tcp.Settled.Read.{IsText, handle_read-ReadOn}
use penduo.Loop.{Loop, Round, reactor_of, put_server, run_callback}
use penduo.Loop.Invariant.{is_special, Running, CanAccept, put_server-Running}
use penduo.Loop.Events.{Timed, Spared, CalledBack}

module _ (net : Network) (injective : (i j : ℕ) → net.to_string i ≡ net.to_string j → i ≡ j)
    (round : Round) (current c : ℕ) (t : Option Timestamp) (w : Loop net) (v : Running w)
    (here : current ≡ (reactor_of w).thread_id)
    (p : IsServed (is_special w) w.serving.server c) where
  -- A callback that leaves the server alone.
  quiet-CalledBack :
      (w' : Loop net)
      → is_special w c ≡ true
      → Running w'
      → w'.serving ≡ w.serving
      → is_special w' ≡ is_special w
      → w'.quit ≡ w.quit
      → (c == w.serving.acceptor.accept_channel) ≡ false
      → ((c == w.timer_channel) ≡ true → Timed round w.timers w'.timers)
      → ((c == w.timer_channel) ≡ false → w'.timers ≡ w.timers)
      → (w'.timer_channel ≡ w.timer_channel) × (w'.wakeup_channel ≡ w.wakeup_channel)
      → CalledBack true round c w w'
  quiet-CalledBack w' special running e marks quits other timed same channels = record {
    running = running;
    plain = rw e p.plain;
    still = λ d n q. rw e q;
    other_conns = λ d n q. rw e refl;
    other_revents = λ d n q. rw e refl;
    grown_objects = ground (arith, ap (λ (s : Serving net). s.server.next_object) e);
    still_waits = λ d h. rw e h;
    grown = ([], rw e (sym (append-nil w.serving.server.calls)));
    effect = λ yes_called common. absurd (ground arith);
    joined = λ yes_called acceptor. absurd (ground arith);
    timed = λ yes_called. timed;
    same_timers = same;
    same_channels = channels;
    same_special = marks;
    same_acceptor = ap (λ (s : Serving net). s.acceptor) e;
    same_thread = ap (λ (s : Serving net). s.server.reactor.thread_id) e;
    same_quit = quits;
    accepts_only = λ n. (
      ap (λ (s : Serving net). s.system) e,
      ap (λ (s : Serving net). s.server.next_object) e,
      λ fd. ap (λ (s : Serving net). s.server.reactor.channels fd) e,
    );
  }

  timer_runs :
      (c == w.timer_channel) ≡ true
      → (w' : Loop net) × (run_callback round current c t w ≡ ok w') × CalledBack true round c w w'
  unfolding run_callback
  timer_runs timer =
      let (ran, q, e, h) =
        Expire.handle_read-Handled round.adds current round.now w.timers (here ∙ sym v.timers_here)
          v.timers in
      (
        record w { timers = q },
        rw (timer, e) refl,
        quiet-CalledBack (record w { timers = q }) (rw timer refl)
            (record {
              settled = v.settled;
              apart = v.apart;
              own = v.own;
              timers = h.inv;
              timers_here = h.same_thread ∙ v.timers_here;
              accepts = v.accepts;
            })
            refl refl refl (ground (arith, v.apart)) (λ h'. (ran, h)) (λ n. absurd (ground arith))
            (refl, refl),
      )

  wakeup_runs :
      (c == w.timer_channel) ≡ false
      → (c == w.wakeup_channel) ≡ true
      → (w' : Loop net) × (run_callback round current c t w ≡ ok w') × CalledBack true round c w w'
  unfolding run_callback
  wakeup_runs timer wakeup = (
    record w { wakeups = w.wakeups - 1 },
    rw (timer, wakeup) refl,
    quiet-CalledBack (record w { wakeups = w.wakeups - 1 }) (rw (timer, wakeup) refl)
        (record {
          settled = v.settled;
          apart = v.apart;
          own = v.own;
          timers = v.timers;
          timers_here = v.timers_here;
          accepts = v.accepts;
        })
        refl refl refl (ground (arith, v.apart)) (λ h'. absurd (ground arith)) (λ n. refl)
        (refl, refl),
  )

  accept_runs :
      (c == w.timer_channel) ≡ false
      → (c == w.wakeup_channel) ≡ false
      → (c == w.serving.acceptor.accept_channel) ≡ true
      → CanAccept w
      → (w' : Loop net) × (run_callback round current c t w ≡ ok w') × CalledBack true round c w w'
  unfolding run_callback
  accept_runs timer wakeup acceptor can =
      let s : TcpServer = w.serving.server in
      let (server, e, a) =
        handle_read-Accepted net current w.serving can.fd v.settled.well.callback
          v.settled.well.server_inv here can.is_there (rw here v.accepts) can.unknown
          v.settled.well.has_callback can.from_family in
      let system =
        ((sockets_of net).get_local_addr (pos can.fd)
          (after_accept net current w.serving can.fd)).1 in
      let w' : Loop net = record w {
        serving = record w.serving { server = server; system = system };
      } in
      let still =
        Accepted-IsServed (is_special w) net injective can.fd _ _ s server v.settled can.unknown
          a in
      (
        w',
        rw (timer, wakeup, acceptor, e) refl,
        record {
          running = record {
            settled =
                Accepted-Settled (is_special w) net injective can.fd _ _ s server v.settled
                  can.unknown a;
            apart = v.apart;
            own = λ k h. still k (v.own k h);
            timers = v.timers;
            timers_here = v.timers_here ∙ sym a.same_thread;
            accepts = rw a.same_thread v.accepts;
          };
          plain = (still c p).plain;
          still = λ d n q. still d q;
          other_conns = λ d n q. a.other_conns d (ground arith);
          other_revents = λ d n q. ground (arith, a.other_chans d);
          grown_objects = ground (arith, a.same_rest);
          still_waits = λ d h. rw a.nothing_queued h;
          grown = (_, a.announced v.settled.well.callback v.settled.well.has_callback);
          effect = λ yes_called common. absurd (ground arith);
          joined = λ yes_called acceptor'. record {
            fd = can.fd;
            is_there = can.is_there;
            is_served =
                new-IsServed (is_special w) net injective can.fd _ _ s server v.settled can.unknown
                  a;
            on_fd = a.socket;
            callback = v.settled.well.callback;
            has_callback = a.calls_back ∙ v.settled.well.has_callback;
            announced = (
              [],
              [],
              a.announced v.settled.well.callback v.settled.well.has_callback
                  ∙ rw (append-nil s.calls) refl,
            );
          };
          timed = λ yes_called h. absurd (ground arith);
          same_timers = λ n. refl;
          same_channels = (refl, refl);
          same_special = refl;
          same_acceptor = refl;
          same_thread = a.same_thread;
          same_quit = refl;
          accepts_only = λ n. absurd (ground arith);
        },
      )

  read_runs :
      is_special w c ≡ false
      → IsText (round.readv c)
      → (w' : Loop net) × (run_callback round current c t w ≡ ok w') × CalledBack true round c w w'
  unfolding run_callback
  read_runs common text =
      let s : TcpServer = w.serving.server in
      let (s', e, r) =
        handle_read-ReadOn (is_special w) net.to_string round.leaves current c s v.settled here p
          common (round.readv c) text in
      (
        put_server s' w,
        rw (timer, wakeup, acceptor, e) refl,
        record {
          running =
              put_server-Running w s' v r.settled (λ k q h. r.others k (spared k (inr h)) q)
                r.same_thread;
          plain = r.plain;
          still = λ d n q. r.others d (spared d n) q;
          other_conns = λ d n q. r.other_conns d (spared d n);
          other_revents = λ d n q. r.other_revents d (spared d n);
          grown_objects = ground (arith, r.same_next);
          still_waits = r.still_waits;
          grown = r.grown;
          effect = λ yes_called own. r.effect;
          joined = λ yes_called h. absurd (ground arith);
          timed = λ yes_called h. absurd (ground arith);
          same_timers = λ n. refl;
          same_channels = (refl, refl);
          same_special = refl;
          same_acceptor = refl;
          same_thread = r.same_thread;
          same_quit = refl;
          accepts_only = λ n. (refl, r.same_next, r.same_channels);
        },
      )
    where
      timer : (c == w.timer_channel) ≡ false
      timer = ground arith

      wakeup : (c == w.wakeup_channel) ≡ false
      wakeup = ground arith

      acceptor : (c == w.serving.acceptor.accept_channel) ≡ false
      acceptor = ground arith

      spared : (d : ℕ) → Spared w c d → (c == d) ≡ false
      spared d (inl n) = n
      spared d (inr special) = ground arith

  -- The callback never fails, where a connection is there for the acceptor and a text for a connection.
  pub run_callback-CalledBack :
      ((c == w.serving.acceptor.accept_channel) ≡ true → CanAccept w)
      → IsText (round.readv c)
      → (w' : Loop net) × (run_callback round current c t w ≡ ok w') × CalledBack true round c w w'
  run_callback-CalledBack can text = elim (Bool-cases (c == w.timer_channel)) [
    | inl timer ↦ timer_runs timer
    | inr timer ↦ elim (Bool-cases (c == w.wakeup_channel)) [
      | inl wakeup ↦ wakeup_runs timer wakeup
      | inr wakeup ↦ elim (Bool-cases (c == w.serving.acceptor.accept_channel)) [
        | inl acceptor ↦ accept_runs timer wakeup acceptor (can acceptor)
        | inr acceptor ↦ read_runs (rw (timer, wakeup, acceptor) refl) text
      ]
    ]
  ]
