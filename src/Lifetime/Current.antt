-- ===== src/Lifetime/Current.antt =====
-- One event loop for each thread.
use penduo.Prelude.{ℕ, ◌≡◌, inl, ℤ, pos, false, none, some, ok, fail, fatal, ◌==◌, arith}
use penduo.Reactor.{Reactor, enable_reading}
use penduo.Reactor.Invariant.{Inv}
use penduo.Reactor.Interest.{IsNew, enable_reading-Asks}
use penduo.Lifetime.{
  CurrentLoops, construct, construct_loop, set_current, get_event_loop_of_current_thread,
}
use penduo.Lifetime.End.{Built, construct-Built}

-- A thread with a loop: the loop is known in it, the other threads are as they were, and no second
-- loop is built in it.
pub record OneLoop (current self : ℕ) (t t' : CurrentLoops) : Type 0 where
  pub own : get_event_loop_of_current_thread current t' ≡ some self
  pub others :
      (thread : ℕ)
      → (current == thread) ≡ false
      → get_event_loop_of_current_thread thread t' ≡ t thread
  pub no_second :
      (r r₁ : Reactor) (timer wakeup : ℕ) (ret : ℤ)
      → enable_reading current timer r ≡ ok r₁
      → construct_loop current timer wakeup ret (r, t') ≡ fail fatal

abbrev claimed : (current self : ℕ) → CurrentLoops → CurrentLoops
claimed current self t = set_current current (some self) t

claimed-OneLoop :
    (current self : ℕ) (t : CurrentLoops) → OneLoop current self t (claimed current self t)
unfolding construct_loop
claimed-OneLoop current self t = record {
  own = ground arith;
  others = λ thread n. ground arith;
  no_second = λ r r₁ timer wakeup ret e. ground arith;
}

-- In a thread with no loop, where `pipe` succeeds, the whole constructor never fails: both channels
-- are entered, the loop becomes that of its thread and of no other, and a second loop cannot be built
-- in the thread.
pub construct_loop-OneLoop :
    (current timer wakeup : ℕ) (r : Reactor) (t : CurrentLoops)
    → Inv r
    → current ≡ r.thread_id
    → t current ≡ none
    → IsNew r timer
    → IsNew r wakeup
    → ((r.chans timer).fd == (r.chans wakeup).fd) ≡ false
    → (timer == wakeup) ≡ false
    → (r' : Reactor) × (t' : CurrentLoops) × (construct_loop current timer wakeup (pos 0) (r, t)
        ≡ ok (r', t'))
      × Built timer wakeup r'
      × OneLoop current r.self t t'
unfolding construct construct_loop
construct_loop-OneLoop current timer wakeup r t v here free new_timer new_wakeup fds names =
    let (r₁, e₁, a₁) = enable_reading-Asks current timer r v here (inl new_timer) in
    let (r', e, b) = construct-Built current timer wakeup r v here new_timer new_wakeup fds names in
    (r', claimed current r.self t, ground arith, b, claimed-OneLoop current r.self t)
