-- ===== src/Loop/Active.antt =====
-- `Channel::handle_event` of one channel that a running loop serves, and of all the active channels.
use penduo.Prelude.{
  ℕ, ◌≡◌, refl, sym, subst, ◌∙◌, inl, inr, Bool, true, false, Option, some, ok, arith, ◌==◌,
  Bool-cases, Outcome,
}
use penduo.Sockets.Ops.{Network}
use penduo.Timestamp.{Timestamp}
use penduo.Dispatch.{handle_event, stage, happens, on_close, on_error, on_read, on_write}
use penduo.Tcp.Establish.{IsPlain}
use penduo.Tcp.Marks.{marked, with_reactor, marked-SameServer, marked-ServerInv}
use penduo.Tcp.Settled.{IsServed, Grown-refl, SameServer-IsServed}
use penduo.Tcp.Settled.Effects.{Effect-before, Effect-after}
use penduo.Tcp.Settled.Read.{IsText}
use penduo.Loop.{Loop, Round, world, reactor_of, put_server, run_callback}
use penduo.Loop.Invariant.{is_special, Running, CanAccept, put_same-Running}
use penduo.Loop.Events.{CalledBack}
use penduo.Loop.Events.Callbacks.{run_callback-CalledBack}

-- The mark of `handle_event` in a loop.
abbrev mark : {net : Network} → ℕ → Bool → Loop net → Loop net
mark c b w = put_server (with_reactor (marked c b (reactor_of w)) w.serving.server) w

mark-Running : {net : Network} (c : ℕ) (b : Bool) (w : Loop net) → Running w → Running (mark c b w)
mark-Running c b w v =
    put_same-Running w _ v (marked-SameServer c b w.serving.server)
      (marked-ServerInv c b w.serving.server v.settled.well.server_inv)

mark-IsServed :
    {net : Network} (c : ℕ) (b : Bool) (w : Loop net) (d : ℕ)
    → IsServed (is_special w) w.serving.server d
    → IsServed (is_special w) (mark c b w).serving.server d
mark-IsServed c b w d =
    SameServer-IsServed (is_special w) w.serving.server _ (marked-SameServer c b w.serving.server) d

-- Nothing is called.
uncalled-CalledBack :
    {net : Network} (round : Round) (c : ℕ) (w : Loop net)
    → Running w
    → IsPlain c ((reactor_of w).chans c)
    → CalledBack false round c w w
uncalled-CalledBack round c w v p = record {
  running = v;
  plain = p;
  still = λ d n q. q;
  other_conns = λ d n q. refl;
  other_revents = λ d n q. refl;
  grown_objects = omega arith;
  still_waits = λ d h. h;
  grown = Grown-refl w.serving.server.calls;
  effect = λ called. absurd (ground arith);
  joined = λ called. absurd (ground arith);
  timed = λ called. absurd (ground arith);
  same_timers = λ n. refl;
  same_channels = (refl, refl);
  same_special = refl;
  same_acceptor = refl;
  same_thread = refl;
  same_quit = refl;
  accepts_only = λ n. (refl, refl, λ fd. refl);
}

-- The marks before and after do not matter.
marked-CalledBack :
    {net : Network} (called : Bool) (round : Round) (c : ℕ) (w w' : Loop net)
    → CalledBack called round c (mark c true w) w'
    → CalledBack called round c w (mark c false w')
marked-CalledBack called round c w w' k = record {
  running = mark-Running c false w' k.running;
  plain = ground (arith, k.plain);
  still = λ d n q.
      SameServer-IsServed (is_special w) w'.serving.server _
        (marked-SameServer c false w'.serving.server) d (k.still d n (mark-IsServed c true w d q));
  other_conns = k.other_conns;
  other_revents = λ d n q. ground (arith, k.other_revents d n q);
  grown_objects = k.grown_objects;
  still_waits = k.still_waits;
  grown = k.grown;
  effect = λ yes_called common.
      Effect-before (is_special w) round.leaves c w.serving.server (mark c true w).serving.server
        (mark c false w').serving.server (round.readv c) refl (Grown-refl _)
        (Effect-after (is_special w) round.leaves c (mark c true w).serving.server w'.serving.server
          (mark c false w').serving.server (round.readv c) refl (Grown-refl _)
          (SameServer-IsServed (is_special w) w'.serving.server _
            (marked-SameServer c false w'.serving.server) c)
          (λ h. h) (k.effect yes_called common));
  joined = λ yes_called h.
      let j = k.joined yes_called h in
      record {
        fd = j.fd;
        is_there = j.is_there;
        is_served =
            SameServer-IsServed (is_special w) w'.serving.server _
              (marked-SameServer c false w'.serving.server) w.serving.server.next_object
              j.is_served;
        on_fd = j.on_fd;
        callback = j.callback;
        has_callback = j.has_callback;
        announced = j.announced;
      };
  timed = k.timed;
  same_timers = k.same_timers;
  same_channels = k.same_channels;
  same_special = k.same_special;
  same_acceptor = k.same_acceptor;
  same_thread = k.same_thread;
  same_quit = k.same_quit;
  accepts_only = k.accepts_only;
}

-- The events of the channel lead to its read callback.
abbrev pub is_readable : {net : Network} → Loop net → ℕ → Bool
is_readable w c = happens on_read ((reactor_of w).chans c)

module _ (net : Network) (injective : (i j : ℕ) → net.to_string i ≡ net.to_string j → i ≡ j)
    (round : Round) (current c : ℕ) (t : Timestamp) where
  abbrev run : ℕ → Option Timestamp → Loop net → Outcome (Loop net)
  run = run_callback round current

  -- The callbacks that a channel of a loop does not have.
  quiet_close :
      (w : Loop net) → IsPlain c ((reactor_of w).chans c) → stage world run c t on_close w ≡ ok w
  quiet_close w p = ground arith

  quiet_error :
      (w : Loop net) → IsPlain c ((reactor_of w).chans c) → stage world run c t on_error w ≡ ok w
  quiet_error w p = ground arith

  quiet_write :
      (w : Loop net) → IsPlain c ((reactor_of w).chans c) → stage world run c t on_write w ≡ ok w
  quiet_write w p = ground arith

  -- The read callback, if the events ask for it.
  read_stage :
      (w : Loop net)
      → Running w
      → current ≡ (reactor_of w).thread_id
      → IsServed (is_special w) w.serving.server c
      → ((c == w.serving.acceptor.accept_channel) ≡ true → CanAccept w)
      → IsText (round.readv c)
      → (w' : Loop net) × (stage world run c t on_read w ≡ ok w')
        × CalledBack (is_readable w c) round c w w'
  read_stage w v here p can text = elim (Bool-cases (is_readable w c)) [
    | inl asked ↦
        let (w', e, k) =
          run_callback-CalledBack net injective round current c (some t) w v here p can text in
        (w', called w asked (p.plain.0) ∙ e, subst (λ b. CalledBack b round c w w') (sym asked) k)
    | inr silent ↦ (
      w,
      rw silent refl,
      subst (λ b. CalledBack b round c w w) (sym silent) (uncalled-CalledBack round c w v p.plain),
    )
  ]
    where
      called :
          (w : Loop net)
          → happens on_read ((reactor_of w).chans c) ≡ true
          → ((reactor_of w).chans c).read_callback ≡ some c
          → stage world run c t on_read w ≡ run c (some t) w
      called w asked reads = rw (asked, reads) refl

  pub handle_event-CalledBack :
      (w : Loop net)
      → Running w
      → current ≡ (reactor_of w).thread_id
      → IsServed (is_special w) w.serving.server c
      → ((c == w.serving.acceptor.accept_channel) ≡ true → CanAccept w)
      → IsText (round.readv c)
      → (w' : Loop net) × (handle_event world run c t w ≡ ok w')
        × CalledBack (is_readable w c) round c w w'
  unfolding handle_event
  handle_event-CalledBack w v here p can text =
      let w₀ = mark c true w in
      let p₀ = mark-IsServed c true w c p in
      let (w', e, k) =
        read_stage w₀ (mark-Running c true w v) here p₀ (λ h. marked_can w (can h)) text in
      (
        mark c false w',
        rw (quiet_close w₀ p₀.plain, quiet_error w₀ p₀.plain, e, quiet_write w' k.plain) refl,
        subst (λ b. CalledBack b round c w (mark c false w')) (marked_readable w)
            (marked-CalledBack (is_readable w₀ c) round c w w' k),
      )
    where
      marked_can : (w : Loop net) → CanAccept w → CanAccept (mark c true w)
      marked_can w can = record {
        fd = can.fd;
        is_there = can.is_there;
        unknown = can.unknown;
        from_family = can.from_family;
      }

      marked_readable : (w : Loop net) → is_readable (mark c true w) c ≡ is_readable w c
      marked_readable w = ground arith
