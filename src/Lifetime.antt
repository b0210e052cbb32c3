-- ===== src/Lifetime.antt =====
-- net/EventLoop.cpp and net/TimerQueue.cpp: an event loop from its constructor to its destructor,
-- with the two channels that it owns and the loop that each thread remembers.
pub mod End
pub mod Current
use penduo.Prelude.{
  ℕ, ℤ, pos, eqb_ℤ, Bool, true, false, not, Option, none, some, Outcome, ok, fail, fatal, ◌>>=◌,
  ◌>>◌, assert, ◌==◌, if◌then◌else◌,
}
use penduo.Channel.{destroy}
use penduo.Reactor.{Reactor, enable_reading}

-- The constructor's two calls of `enable_reading`, and nothing else of it: `timer_queue_`, built first,
-- reads from its timer descriptor, then the loop reads from its pipe. Channels `timer` and `wakeup` are
-- those two.
unfoldable pub construct : (current timer wakeup : ℕ) → Reactor → Outcome Reactor
construct current timer wakeup r = do
  r₁ ← enable_reading current timer r
  enable_reading current wakeup r₁

-- The destructor: its body, then the members in reverse order of declaration, up to the poller.
unfoldable pub destroy_loop : (looping : Bool) (timer wakeup : ℕ) → Reactor → Outcome Reactor
destroy_loop looping timer wakeup r = do
  assert (not looping)
  destroy (r.chans wakeup)
  destroy (r.chans timer)
  ok r

-- `t_loop_in_this_thread` of each thread: null or a loop.
abbrev pub CurrentLoops : Type 0
CurrentLoops = ℕ → Option ℕ

abbrev pub set_current : ℕ → Option ℕ → CurrentLoops → CurrentLoops
set_current current loop t thread = if current == thread then loop else t thread

-- The test of `t_loop_in_this_thread` in the constructor.
abbrev pub claim : Option ℕ → (current self : ℕ) → CurrentLoops → Outcome CurrentLoops
claim none current self t = ok (set_current current (some self) t)
claim (some other) current self t = fail fatal

-- The whole constructor, in the order of the source: the timer queue reads from its descriptor, the
-- thread gets its loop, the pipe is made (`ret` is what `pipe` returns) and the loop reads from it.
unfoldable pub construct_loop :
    (current timer wakeup : ℕ) (ret : ℤ) → Reactor × CurrentLoops → Outcome (Reactor × CurrentLoops)
construct_loop current timer wakeup ret (r, t) = do
  r₁ ← enable_reading current timer r
  t₁ ← claim (t current) current r.self t
  assert (eqb_ℤ ret (pos 0))
  r₂ ← enable_reading current wakeup r₁
  ok (r₂, t₁)

-- The destructor, with the body's reset of the thread's loop.
unfoldable pub end_loop :
    (current : ℕ) (looping : Bool) (timer wakeup : ℕ)
    → Reactor × CurrentLoops
    → Outcome (Reactor × CurrentLoops)
unfolding destroy_loop
end_loop current looping timer wakeup (r, t) = do
  r' ← destroy_loop looping timer wakeup r
  ok (r', set_current current none t)

abbrev pub get_event_loop_of_current_thread : ℕ → CurrentLoops → Option ℕ
get_event_loop_of_current_thread current t = t current
