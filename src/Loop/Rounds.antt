-- ===== src/Loop/Rounds.antt =====
-- The rounds of a running loop: what one may meet, and what it comes to.
pub mod After
pub mod Whole
use penduo.Prelude.{
  ℕ, ◌≡◌, refl, sym, subst, ap, ◌∙◌, Bool, true, false, ◌||◌, List, [], ◌∷◌, ok, All,
}
use penduo.Sockets.Ops.{Network}
use penduo.Dispatch.{happens, on_read}
use penduo.Reactor.{Reactor}
use penduo.Poll.Fill.{ready_channels, with_revents}
use penduo.Poll.Sound.{IsPoll, polled, poll_lem}
use penduo.Buffer.{ReadResult, received, failed}
use penduo.Tcp.{TcpServer, TcpConnection}
use penduo.Tcp.Drain.{IsDown, Drained, do_pending_functors-Drained}
use penduo.Tcp.Marks.{SameServer, with_reactor}
use penduo.Tcp.Settled.{IsServed, Settled, SameServer-IsServed, Grown-refl, waits, All-waits}
use penduo.Tcp.Settled.Drain.{Drained-IsServed, Drained-conns, Drained-Settled}
use penduo.Tcp.Settled.Effects.{Effect, Effect-before, Since-after, Told-after}
use penduo.Tcp.Settled.Read.{IsText}
use penduo.Loop.{Loop, Round, reactor_of, put_reactor, put_server, run_pending, run_round}
use penduo.Loop.Marks.{polled-SameServer}
use penduo.Loop.Invariant.{is_special, Running, CanAccept, put_server-Running, put_same-Running}
use penduo.Loop.Events.{Joined, Timed}
use penduo.Loop.Active.{is_readable}
use penduo.Loop.Sweep.{Outside, Swept}
use penduo.Loop.Ready.{active_served, active_once}

module _ {net : Network} (round : Round) (w : Loop net) where
  -- The channels with events, and whether the events that `poll` stores in one lead to its read callback.
  abbrev pub active : List ℕ
  active = ready_channels (reactor_of w).channels (round.kernel (reactor_of w).pollfds).1

  abbrev pub asks_read : ℕ → Bool
  asks_read c = happens on_read (
      with_revents (reactor_of w).channels (round.kernel (reactor_of w).pollfds).1
        (reactor_of w).chans c)

  -- What a round meets, in any order: `poll` does what its manual says, reads bring texts or fail, and
  -- where `poll` reports the acceptor's socket a connection is there.
  pub record IsFit : Type 0 where
    pub polls : IsPoll round.kernel (reactor_of w).pollfds
    pub reads : (k : ℕ) → IsText (round.readv k)
    pub accepts : waits w.serving.acceptor.accept_channel active ≡ true → CanAccept w

-- A connection is down after a round in which its stream ended; after a round with a text or an error
-- it is served on, and its message callback has been called.
abbrev pub RoundEffect :
    (special : ℕ → Bool) (leaves : List ℕ → List ℕ)
    → ReadResult
    → (c : ℕ) (s s' : TcpServer) → Type 0
RoundEffect special leaves (received []) c s s' = IsDown s s' c
RoundEffect special leaves (received (b ∷ bytes)) c s s' =
    Effect special leaves (received (b ∷ bytes)) c s s'
RoundEffect special leaves failed c s s' = Effect special leaves failed c s s'

-- The loop runs on after the round, with no functor waiting; each active connection that can be read is
-- down or told; what else was served is served still, and its connection is as it was; the acceptor's
-- event has brought a new connection; and the timer's event has run the timers that are due.
pub record RoundDone {net : Network} (round : Round) (w w' : Loop net) : Type 0 where
  pub running : Running w'
  pub nothing_queued : w'.serving.server.pending_functors ≡ []
  pub effects :
      All
        (λ c.
          is_special w c ≡ false
          → asks_read round w c ≡ true
          → RoundEffect
              (is_special w)
              round.leaves
              (round.readv c)
              c
              w.serving.server
              w'.serving.server)
        (active round w)
  pub others :
      (d : ℕ)
      → Outside w (active round w) d
      → IsServed (is_special w) w.serving.server d
      → IsServed (is_special w) w'.serving.server d
        × (w'.serving.server.conns d ≡ w.serving.server.conns d)
  pub joined :
      waits w.serving.acceptor.accept_channel (active round w) ≡ true
      → asks_read round w w.serving.acceptor.accept_channel ≡ true
      → Joined w w'.serving.server
  pub timed :
      waits w.timer_channel (active round w) ≡ true
      → asks_read round w w.timer_channel ≡ true
      → Timed round w.timers w'.timers
  pub same_timers : waits w.timer_channel (active round w) ≡ false → w'.timers ≡ w.timers
  pub quits : w'.quit ≡ (w.quit || round.quits)
  pub same_thread : (reactor_of w').thread_id ≡ (reactor_of w).thread_id
