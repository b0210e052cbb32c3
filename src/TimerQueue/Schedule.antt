-- ===== src/TimerQueue/Schedule.antt =====
-- net/TimerQueue.cpp, net/TimerHandle.h and net/EventLoop.cpp: timers from any thread. The functors of
-- the loop are calls of `add_timer_in_loop`, each with its timer.
use penduo.Prelude.{
  ℕ, ◌+◌, ℤ, pos, pos_part, Bool, false, not, ◌||◌, some, none, List, [], ◌∷◌, ◌++◌, Outcome, ok,
  ◌>>=◌, ◌>>◌, ◌==◌, if◌then◌else◌,
}
use penduo.Channel.{new_channel}
use penduo.Reactor.{Reactor, set_chan, enable_reading}
use penduo.Timerfd.Naive.{Timerfd, TimerfdCreator}
use penduo.Timestamp
use penduo.Timestamp.{Timestamp, milliseconds}
use penduo.TimerQueue.{
  Timer, new_timer, TimerQueue, add_timer_in_loop, add_each, assert_in_loop_thread,
}

-- The constructor, in a loop with this reactor: the queue, with its timer descriptor and its channel
-- `c` on it.
unfoldable pub new_timer_queue :
    {W : Type 0} (creator : TimerfdCreator W) (current c : ℕ)
    → Reactor × W
    → Outcome (Timerfd W × TimerQueue × Reactor × W)
new_timer_queue creator current c (r, w) = do
  (timerfd, w') ← creator.new_default w
  let chan = record (new_channel r.self (pos_part timerfd.get_fd)) { read_callback = some c }
  r' ← enable_reading current c (set_chan r c chan)
  let q : TimerQueue = record { thread_id = r.thread_id; timer_list = []; armed = none }
  ok (timerfd, q, r', w')

-- A weak pointer to a timer, by its address.
pub record TimerHandle : Type 0 where
  pub weak_timer : ℕ

pub record Scheduler : Type 0 where
  pub queue : TimerQueue
  pub pending_functors : List Timer
  pub calling_pending_functors : Bool
  pub wakeups : ℕ

abbrev pub is_in_loop_thread : ℕ → Scheduler → Bool
is_in_loop_thread current s = current == s.queue.thread_id

-- `queue_in_loop(std::bind(&TimerQueue::add_timer_in_loop, this, timer))`
unfoldable pub queue_timer : ℕ → Timer → Scheduler → Scheduler
queue_timer current timer s =
    let s' = record s { pending_functors = s.pending_functors ++ timer ∷ [] } in
    if not (is_in_loop_thread current s) || s.calling_pending_functors
    then record s' { wakeups = s.wakeups + 1 }
    else s'

-- `run_in_loop`, of the same functor
unfoldable pub run_in_loop : ℕ → Timer → Scheduler → Outcome Scheduler
unfolding queue_timer
run_in_loop current timer s =
    if is_in_loop_thread current s
    then add_timer_in_loop current timer s.queue >>= (λ q. ok (record s { queue = q }))
    else ok (queue_timer current timer s)

-- `TimerQueue::add_timer`; the new object is at `address`.
unfoldable pub add_timer :
    (current address callback : ℕ) → Timestamp → ℤ → Scheduler → Outcome (TimerHandle × Scheduler)
unfolding run_in_loop
add_timer current address callback when interval_ms s = do
  s' ← run_in_loop current (new_timer address callback when interval_ms) s
  ok (record { weak_timer = address }, s')

unfoldable pub run_at :
    (current address callback : ℕ) → Timestamp → Scheduler → Outcome (TimerHandle × Scheduler)
unfolding add_timer
run_at current address callback timestamp s = add_timer current address callback timestamp (pos 0) s

unfoldable pub run_after :
    (current address callback : ℕ)
    → (now : Timestamp) → (delay_ms : ℤ) → Scheduler
    → Outcome (TimerHandle × Scheduler)
unfolding add_timer
run_after current address callback now delay_ms s =
    add_timer current address callback (Timestamp.add milliseconds now delay_ms) (pos 0) s

-- The functors add their timers in turn.
unfoldable pub do_pending_functors : ℕ → Scheduler → Outcome Scheduler
do_pending_functors current s = do
  assert_in_loop_thread current s.queue
  q ← add_each current s.pending_functors s.queue
  ok (record s { queue = q; pending_functors = []; calling_pending_functors = false })

-- A call of `add_timer`, by its thread.
pub record Request : Type 0 where
  pub thread : ℕ
  pub address : ℕ
  pub callback : ℕ
  pub when : Timestamp
  pub interval_ms : ℤ

abbrev pub timer_of : Request → Timer
timer_of r = new_timer r.address r.callback r.when r.interval_ms

unfoldable pub add_timers : List Request → Scheduler → Outcome Scheduler
unfolding add_timer
add_timers [] s = ok s
add_timers (r ∷ rs) s =
    add_timer r.thread r.address r.callback r.when r.interval_ms s >>= λ (handle, s').
    add_timers rs s'
