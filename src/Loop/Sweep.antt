-- ===== src/Loop/Sweep.antt =====
-- The loop of `EventLoop::loop` over the active channels, where each of them is served: what it comes to.
pub mod Next
pub mod Own
pub mod Whole
use penduo.Prelude.{
  ℕ, ◌<◌, ◌≡◌, refl, sym, subst, ap, ◌∙◌, ◌⊎◌, inl, inr, true, false, List, [], ◌∷◌, ok, arith,
  ◌==◌, ==_iff, Bool-cases, All,
}
use penduo.Sockets.Ops.{Network}
use penduo.Acceptor.{Acceptor}
use penduo.Tcp.Drain.{Distinct}
use penduo.Tcp.Settled.{IsServed, Grown, Grown-refl, Grown-trans, waits}
use penduo.Tcp.Settled.Effects.{
  Since, Since-before, Since-after, Effect, Effect-before, Effect-after,
}
use penduo.Tcp.Settled.Read.{IsText}
use penduo.Loop.{Loop, Round, reactor_of, handle_events}
use penduo.Loop.Invariant.{is_special, Running, CanAccept}
use penduo.Tcp.{TcpServer, TcpConnection, connected, connection_called}
use penduo.Loop.Events.{Joined, Timed, Spared, CalledBack}
use penduo.Loop.Active.{is_readable, handle_event-CalledBack}

-- Object `d` is not among the active ones, or is left alone anyway.
abbrev pub Outside : {net : Network} → Loop net → List ℕ → ℕ → Type 0
Outside w cs d = (waits d cs ≡ false) ⊎ (is_special w d ≡ true)

-- After the events of the channels `cs` the loop runs on and serves what else it served; every
-- connection among them that can be read has been.
pub record Swept {net : Network} (round : Round) (cs : List ℕ) (w w' : Loop net) : Type 0 where
  pub running : Running w'
  pub still :
      (d : ℕ)
      → Outside w cs d
      → IsServed (is_special w) w.serving.server d
      → IsServed (is_special w) w'.serving.server d
  pub other_conns :
      (d : ℕ)
      → Outside w cs d
      → d < w.serving.server.next_object
      → w'.serving.server.conns d ≡ w.serving.server.conns d
  pub still_waits :
      (d : ℕ)
      → waits d w.serving.server.pending_functors ≡ true
      → waits d w'.serving.server.pending_functors ≡ true
  pub grown : Grown w.serving.server.calls w'.serving.server.calls
  pub effects :
      All
        (λ c.
          is_special w c ≡ false
          → is_readable w c ≡ true
          → Effect (is_special w) round.leaves (round.readv c) c w.serving.server w'.serving.server)
        cs
  pub joined :
      waits w.serving.acceptor.accept_channel cs ≡ true
      → is_readable w w.serving.acceptor.accept_channel ≡ true
      → Joined w w'.serving.server
  pub timed :
      waits w.timer_channel cs ≡ true
      → is_readable w w.timer_channel ≡ true
      → Timed round w.timers w'.timers
  pub same_timers : waits w.timer_channel cs ≡ false → w'.timers ≡ w.timers
  pub same_special : is_special w' ≡ is_special w
  pub same_thread : (reactor_of w').thread_id ≡ (reactor_of w).thread_id
  pub same_quit : w'.quit ≡ w.quit
