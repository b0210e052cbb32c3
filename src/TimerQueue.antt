-- ===== src/TimerQueue.antt =====
-- net/Timer.h, net/Timer.cpp, net/TimerQueue.h and net/TimerQueue.cpp. `std::set` is its ordered
-- list of elements; `armed` is the expiration last given to the timer descriptor, until it is read.
-- `adds` gives the timers that a callback adds, in order, when it runs in the loop's thread.
pub mod Order
pub mod Add
pub mod Expire
pub mod Schedule
pub mod Scheduled
use penduo.Prelude.{
  ℕ, ℤ, pos, Bool, true, false, not, ◌&&◌, ◌||◌, Option, none, some, List, [], ◌∷◌, ◌++◌, Outcome,
  ok, ◌>>=◌, ◌>>◌, require, ltb, ltb_ℤ, ◌==◌, if◌then◌else◌,
}
use penduo.Timestamp.{Timestamp, lt, le}

-- A timer object, with its address.
pub record Timer : Type 0 where
  pub address : ℕ
  pub callback : ℕ
  pub expiration_ts : Timestamp
  pub repeat : Bool
  pub interval_ms : ℤ

abbrev pub new_timer : (address callback : ℕ) → Timestamp → ℤ → Timer
new_timer address callback when interval_ms = record {
  address = address;
  callback = callback;
  expiration_ts = when;
  repeat = ltb_ℤ (pos 0) interval_ms;
  interval_ms = interval_ms;
}

-- `std::pair<Timestamp, Timer::SharedPtr>`
pub record Entry : Type 0 where
  pub first : Timestamp
  pub second : Timer

-- `operator<` of the pair
abbrev pub before : Entry → Entry → Bool
before a b =
    lt a.first b.first || (not (lt b.first a.first) && ltb a.second.address b.second.address)

-- `std::set::insert`: an equivalent element stays.
unfoldable pub set_insert : Entry → List Entry → List Entry
set_insert e [] = e ∷ []
set_insert e (x ∷ xs) =
    if before e x then e ∷ x ∷ xs else if before x e then x ∷ set_insert e xs else x ∷ xs

pub record TimerQueue : Type 0 where
  pub thread_id : ℕ
  pub timer_list : List Entry
  pub armed : Option Timestamp

abbrev pub assert_in_loop_thread : ℕ → TimerQueue → Outcome (Unit {0})
assert_in_loop_thread current q = require (current == q.thread_id)

-- `timer_list_.empty() || when < timer_list_.begin()->first`
abbrev pub is_earliest : Timestamp → List Entry → Bool
is_earliest when [] = true
is_earliest when (x ∷ xs) = lt when x.first

unfoldable pub insert : ℕ → Timer → TimerQueue → Outcome (Bool × TimerQueue)
unfolding set_insert
insert current timer q = do
  assert_in_loop_thread current q
  let when = timer.expiration_ts
  let entry : Entry = record { first = when; second = timer }
  ok (is_earliest when q.timer_list, record q { timer_list = set_insert entry q.timer_list })

-- `timerfd_->reset(expiration)`
abbrev pub arm : Timestamp → TimerQueue → TimerQueue
arm expiration q = record q { armed = some expiration }

unfoldable pub add_timer_in_loop : ℕ → Timer → TimerQueue → Outcome TimerQueue
unfolding insert
add_timer_in_loop current timer q = do
  assert_in_loop_thread current q
  (earliest_changed, q') ← insert current timer q
  ok (if earliest_changed then arm timer.expiration_ts q' else q')

-- The loop of `get_expired`: the timers taken, and what is left of the set.
unfoldable pub take_expired : Timestamp → List Entry → List Timer × List Entry
take_expired now [] = ([], [])
take_expired now (e ∷ es) =
    let (expired, left) = take_expired now es in
    if le e.first now then (e.second ∷ expired, left) else ([], e ∷ es)

unfoldable pub get_expired : ℕ → Timestamp → TimerQueue → Outcome (List Timer × TimerQueue)
unfolding take_expired
get_expired current now q = do
  assert_in_loop_thread current q
  let (expired, left) = take_expired now q.timer_list
  ok (expired, record q { timer_list = left })

unfoldable pub add_each : ℕ → List Timer → TimerQueue → Outcome TimerQueue
unfolding add_timer_in_loop
add_each current [] q = ok q
add_each current (t ∷ ts) q = add_timer_in_loop current t q >>= add_each current ts

-- `Timer::run`: the callback is called, which may add timers. The first result is the timers whose
-- callbacks were called, in order.
unfoldable pub run :
    (ℕ → List Timer) → ℕ → Timer → List Timer × TimerQueue → Outcome (List Timer × TimerQueue)
unfolding add_each
run adds current timer (ran, q) = do
  q' ← add_each current (adds timer.callback) q
  ok (ran ++ timer ∷ [], q')

-- `for (it : expired) it->run()`
unfoldable pub run_each :
    (ℕ → List Timer) → ℕ → List Timer → List Timer × TimerQueue → Outcome (List Timer × TimerQueue)
unfolding run
run_each adds current [] s = ok s
run_each adds current (t ∷ ts) s = run adds current t s >>= run_each adds current ts

-- The first expiration in the set.
abbrev pub first_of_list : List Entry → Option Timestamp
first_of_list [] = none
first_of_list (e ∷ es) = some e.first

abbrev rearm : Option Timestamp → TimerQueue → TimerQueue
rearm none q = q
rearm (some t) q = arm t q

unfoldable pub reset : ℕ → TimerQueue → Outcome TimerQueue
reset current q = do assert_in_loop_thread current q; ok (rearm (first_of_list q.timer_list) q)

-- The read of the descriptor takes its expiration away. The first result is the timers that have run.
unfoldable pub handle_read :
    (ℕ → List Timer) → ℕ → (now : Timestamp) → TimerQueue → Outcome (List Timer × TimerQueue)
unfolding get_expired run_each reset
handle_read adds current now q = do
  assert_in_loop_thread current q
  let read = record q { armed = none }
  (expired, q₁) ← get_expired current now read
  (ran, q₂) ← run_each adds current expired ([], q₁)
  q₃ ← reset current q₂
  ok (ran, q₃)
