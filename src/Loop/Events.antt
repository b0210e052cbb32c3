-- ===== src/Loop/Events.antt =====
-- One event of a running loop: what it comes to.
pub mod Callbacks
use penduo.Prelude.{
  ℕ, ◌-◌, ◌<◌, ◌≤◌, ◌≡◌, refl, sym, ap, ◌∙◌, ◌⊎◌, inl, inr, Bool, true, false, Option, pos, [], ok,
  arith, ◌==◌, Bool-cases, some, none, List, ◌∷◌, ◌++◌,
}
use mathlib.Core.List.{append-nil}
use penduo.Sockets.Ops.{Network, sockets_of}
use penduo.Timestamp.{Timestamp}
use penduo.TimerQueue.Expire
use penduo.Acceptor.{Serving}
use penduo.Acceptor.Accepting.{after_accept, handle_read-Accepted}
use penduo.TimerQueue.{Timer, TimerQueue}
use penduo.Tcp.{TcpServer, connected, connection_called}
use penduo.Tcp.Establish.{IsPlain}
use penduo.Tcp.Settled.{IsServed, Grown, waits}
use penduo.Tcp.Settled.Accept.{new-IsServed, Accepted-IsServed, Accepted-Settled}
use penduo.Tcp.Settled.Read.{IsText, handle_read-ReadOn}
use penduo.Tcp.Settled.Effects.{Since, Effect}
use penduo.Loop.{Loop, Round, reactor_of, put_server, run_callback}
use penduo.Loop.Invariant.{is_special, Running, CanAccept, put_server-Running}

-- Connection `d` of a server is another object than `c`, or is left alone anyway.
abbrev pub Spared : {net : Network} → Loop net → (c d : ℕ) → Type 0
Spared w c d = ((c == d) ≡ false) ⊎ (is_special w d ≡ true)

-- A connection of the descriptor that `accept` returned is served, under the next number, and has been
-- announced.
pub record Joined {net : Network} (w : Loop net) (s' : TcpServer) : Type 0 where
  pub fd : ℕ
  pub is_there : (net.sys.accept (pos w.serving.acceptor.socket_fd) w.serving.system).0 ≡ pos fd
  pub is_served : IsServed (is_special w) s' w.serving.server.next_object
  pub on_fd : (s'.conns w.serving.server.next_object).socket_fd ≡ fd
  pub callback : ℕ
  pub has_callback : (s'.conns w.serving.server.next_object).connection_callback ≡ some callback
  pub announced :
      Since w.serving.server.calls
        (connection_called callback w.serving.server.next_object connected)
        s'.calls

-- What `TimerQueue::handle_read` does in the round.
abbrev pub Timed : Round → TimerQueue → TimerQueue → Type 0
Timed round q q' = (ran : List Timer) × Expire.Handled round.adds round.now q ran q'

-- After an event of object `c`, whose callback was called or not, the loop runs on, and serves what
-- else it served.
pub record CalledBack {net : Network} (called : Bool) (round : Round) (c : ℕ) (w w' : Loop net)
    : Type 0 where
  pub running : Running w'
  pub plain : IsPlain c ((reactor_of w').chans c)
  pub still :
      (d : ℕ)
      → Spared w c d
      → IsServed (is_special w) w.serving.server d
      → IsServed (is_special w) w'.serving.server d
  pub other_conns :
      (d : ℕ)
      → Spared w c d
      → d < w.serving.server.next_object
      → w'.serving.server.conns d ≡ w.serving.server.conns d
  pub other_revents :
      (d : ℕ)
      → Spared w c d
      → d < w.serving.server.next_object
      → ((reactor_of w').chans d).revents ≡ ((reactor_of w).chans d).revents
  pub grown_objects : w.serving.server.next_object ≤ w'.serving.server.next_object
  pub still_waits :
      (d : ℕ)
      → waits d w.serving.server.pending_functors ≡ true
      → waits d w'.serving.server.pending_functors ≡ true
  pub grown : Grown w.serving.server.calls w'.serving.server.calls
  pub effect :
      called ≡ true
      → is_special w c ≡ false
      → Effect (is_special w) round.leaves (round.readv c) c w.serving.server w'.serving.server
  pub joined :
      called ≡ true → (c == w.serving.acceptor.accept_channel) ≡ true → Joined w w'.serving.server
  pub timed : called ≡ true → (c == w.timer_channel) ≡ true → Timed round w.timers w'.timers
  pub same_timers : (c == w.timer_channel) ≡ false → w'.timers ≡ w.timers
  pub same_channels : (w'.timer_channel ≡ w.timer_channel) × (w'.wakeup_channel ≡ w.wakeup_channel)
  pub same_special : is_special w' ≡ is_special w
  pub same_acceptor : w'.serving.acceptor ≡ w.serving.acceptor
  pub same_thread : (reactor_of w').thread_id ≡ (reactor_of w).thread_id
  pub same_quit : w'.quit ≡ w.quit
  pub accepts_only :
      (c == w.serving.acceptor.accept_channel) ≡ false
      → (w'.serving.system ≡ w.serving.system)
        × (w'.serving.server.next_object ≡ w.serving.server.next_object)
        × ((fd : ℕ) → (reactor_of w').channels fd ≡ (reactor_of w).channels fd)
