-- ===== src/Loop.antt =====
-- net/EventLoop.cpp: the rounds of `EventLoop::loop`, composed of `Poller::poll`, `handle_event` of the
-- active channels and `do_pending_functors`, in a loop with its timer queue, its pipe and one server.
-- The callbacks of the channels are what the constructors bind to them: an object under a number.
pub mod Marks
pub mod Invariant
pub mod Events
pub mod Active
pub mod Sweep
pub mod Ready
pub mod Rounds
pub mod Runs
pub mod HangUp
use penduo.Prelude.{
  ℕ, ◌-◌, Bool, true, false, not, ◌||◌, Option, none, some, List, [], ◌∷◌, Outcome, ok, ◌>>=◌, ◌>>◌,
  assert, ◌==◌, if◌then◌else◌, refl,
}
use penduo.Reactor
use penduo.Reactor.{Reactor}
use penduo.Timestamp.{Timestamp}
use penduo.Poll.{Kernel, poll}
use penduo.Dispatch.{World, handle_event}
use penduo.TimerQueue
use penduo.TimerQueue.{Timer, TimerQueue}
use penduo.Buffer.{ReadResult}
use penduo.Sockets.Ops.{Network}
use penduo.Tcp
use penduo.Tcp.{TcpServer, do_pending_functors}
use penduo.Acceptor
use penduo.Acceptor.{Serving}

pub record Loop (net : Network) : Type 0 where
  pub serving : Serving net
  pub timers : TimerQueue
  pub timer_channel : ℕ
  pub wakeup_channel : ℕ
  pub wakeups : ℕ  -- 8-byte messages in the pipe
  pub looping : Bool
  pub quit : Bool
  pub calling_pending_functors : Bool

-- What a round meets: the system call `poll`, the time after it, the time that the timer queue sees,
-- what a read of each connection brings, and what the user's callbacks do and the
-- other threads ask for.
pub record Round : Type 0 where
  pub kernel : Kernel
  pub receive_time : Timestamp
  pub now : Timestamp
  pub readv : ℕ → ReadResult
  pub adds : ℕ → List Timer
  pub leaves : List ℕ → List ℕ
  pub quits : Bool  -- whether `quit` is called

-- How far `loop` is: it waits for a further round, or it has returned, and has not run the `unmet`
-- rounds that come later.
pub data Progress (net : Network) : Type 0 where
  still_looping : Loop net → Progress net
  returned : (unmet : List Round) → Loop net → Progress net

module _ {net : Network} where
  abbrev pub reactor_of : Loop net → Reactor
  reactor_of w = w.serving.server.reactor

  abbrev pub put_server : TcpServer → Loop net → Loop net
  put_server s w = record w { serving = record w.serving { server = s } }

  abbrev pub put_reactor : Reactor → Loop net → Loop net
  put_reactor r w = put_server (record w.serving.server { reactor = r }) w

  abbrev pub world : World (Loop net)
  world = record { reactor = reactor_of; put = put_reactor; reactor-put = λ r w. refl }

  -- `EventLoop::wakeupfd_handle_read`
  abbrev pub wakeupfd_handle_read : Loop net → Loop net
  wakeupfd_handle_read w = record w { wakeups = w.wakeups - 1 }

  -- The read callback of object `k`: the timer queue, the loop's pipe, the acceptor or a connection.
  unfoldable pub run_callback :
      Round → (current k : ℕ) → Option Timestamp → Loop net → Outcome (Loop net)
  run_callback round current k t w =
      if k == w.timer_channel
      then TimerQueue.handle_read round.adds current round.now w.timers
        >>= (λ (ran, q). ok (record w { timers = q }))
      else if k == w.wakeup_channel
      then ok (wakeupfd_handle_read w)
      else if k == w.serving.acceptor.accept_channel
      then Acceptor.handle_read net current w.serving >>= (λ s. ok (record w { serving = s }))
      else Tcp.handle_read round.leaves (round.readv k) current k w.serving.server
        >>= (λ s. ok (put_server s w))

  -- The loop over the active channels.
  unfoldable pub handle_events : Round → (current : ℕ) → List ℕ → Loop net → Outcome (Loop net)
  unfolding run_callback
  handle_events round current [] w = ok w
  handle_events round current (c ∷ cs) w =
      handle_event world (run_callback round current) c round.receive_time w
      >>= handle_events round current cs

  -- The functors of the loop, between the marks of `calling_pending_functors_`.
  unfoldable pub run_pending : (current : ℕ) → Loop net → Outcome (Loop net)
  run_pending current w =
      let w₁ = record w { calling_pending_functors = true } in
      do_pending_functors current w₁.serving.server
      >>= (λ s. ok (put_server s (record w₁ { calling_pending_functors = false })))

  -- The body of the `while`.
  unfoldable pub run_round : Round → (current : ℕ) → Loop net → Outcome (Loop net)
  unfolding handle_events run_pending
  run_round round current w = do
    (reactor, active) ← poll round.kernel (reactor_of w) []
    w₁ ← handle_events round current active (put_reactor reactor w)
    w₂ ← run_pending current w₁
    ok (record w₂ { quit = w₂.quit || round.quits })

  -- The `while` over the rounds that come.
  unfoldable pub run_rounds : List Round → (current : ℕ) → Loop net → Outcome (Progress net)
  unfolding run_round
  run_rounds [] current w = ok (if w.quit then returned [] w else still_looping w)
  run_rounds (round ∷ rounds) current w = elim w.quit [
    | true ↦ ok (returned (round ∷ rounds) w)
    | false ↦ run_round round current w >>= run_rounds rounds current
  ]

  -- After the `while`.
  abbrev pub after_while : Progress net → Progress net
  after_while (still_looping w) = still_looping w
  after_while (returned unmet w) = returned unmet (record w { looping = false })

  -- `loop`, while these rounds come.
  unfoldable pub loop : List Round → (current : ℕ) → Loop net → Outcome (Progress net)
  unfolding run_rounds
  loop rounds current w = do
    assert (not w.looping)
    Reactor.assert_in_loop_thread current (reactor_of w)
    p ← run_rounds rounds current (record w { looping = true; quit = false })
    ok (after_while p)
