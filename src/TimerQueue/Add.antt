-- ===== src/TimerQueue/Add.antt =====
-- `TimerQueue::add_timer_in_loop`: the descriptor is armed for the first expiration.
use penduo.Prelude.{ℕ, ◌≡◌, refl, ◌⊎◌, none, some, List, [], ◌∷◌, ◌++◌, ok, arith, if◌then◌else◌}
use penduo.TimerQueue.{
  Timer, Entry, TimerQueue, set_insert, is_earliest, first_of_list, add_timer_in_loop, add_each,
}
use penduo.TimerQueue.Order.{IsSorted, set_insert-IsSorted, first-set_insert}

-- Between two calls: the timers are in order, and the descriptor is armed for the first of them, or
-- not at all if there is none.
pub record Inv (q : TimerQueue) : Type 0 where
  pub sorted : IsSorted q.timer_list
  pub armed_first : q.armed ≡ first_of_list q.timer_list

-- While callbacks run, the descriptor may also be disarmed.
pub record Running (q : TimerQueue) : Type 0 where
  pub sorted : IsSorted q.timer_list
  pub armed_or_not : (q.armed ≡ none) ⊎ (q.armed ≡ first_of_list q.timer_list)

abbrev pub entry_of : Timer → Entry
entry_of t = record { first = t.expiration_ts; second = t }

abbrev pub added : Timer → TimerQueue → TimerQueue
added t q = record q {
  timer_list = set_insert (entry_of t) q.timer_list;
  armed = if is_earliest t.expiration_ts q.timer_list then some t.expiration_ts else q.armed;
}

-- The set after the timers are inserted in turn.
unfoldable pub inserted : List Timer → List Entry → List Entry
inserted [] es = es
inserted (t ∷ ts) es = inserted ts (set_insert (entry_of t) es)

-- A run of calls in the loop's thread.
pub record Adds (ts : List Timer) (q q' : TimerQueue) : Type 0 where
  pub running : Running q'
  pub same_thread : q'.thread_id ≡ q.thread_id
  pub contents : q'.timer_list ≡ inserted ts q.timer_list

pub inserted-append :
    (xs ys : List Timer) (es : List Entry) → inserted (xs ++ ys) es ≡ inserted ys (inserted xs es)
unfolding inserted
inserted-append [] ys es = refl
inserted-append (x ∷ xs) ys es = inserted-append xs ys (set_insert (entry_of x) es)

module _ (current : ℕ) where
  add_timer_in_loop-added :
      (t : Timer) (q : TimerQueue)
      → current ≡ q.thread_id
      → add_timer_in_loop current t q ≡ ok (added t q)
  unfolding add_timer_in_loop
  add_timer_in_loop-added t q here = ground arith

  added-Running : (t : Timer) (q : TimerQueue) → Running q → Running (added t q)
  added-Running t q v = record {
    sorted = set_insert-IsSorted (entry_of t) q.timer_list v.sorted;
    armed_or_not = ground (arith, v.armed_or_not, first-set_insert (entry_of t) q.timer_list);
  }

  -- Adding a timer in the loop's thread never fails. The timer goes to its place in the order, and
  -- the descriptor is armed anew exactly if the timer is now the earliest.
  pub add_timer_in_loop-Inv :
      (t : Timer) (q : TimerQueue)
      → current ≡ q.thread_id
      → Inv q
      → (add_timer_in_loop current t q ≡ ok (added t q)) × Inv (added t q)
  add_timer_in_loop-Inv t q here v = (
    add_timer_in_loop-added t q here,
    record {
      sorted = set_insert-IsSorted (entry_of t) q.timer_list v.sorted;
      armed_first = ground (arith, v.armed_first, first-set_insert (entry_of t) q.timer_list);
    },
  )

  pub add_each-Adds :
      (ts : List Timer) (q : TimerQueue)
      → current ≡ q.thread_id
      → Running q
      → (q' : TimerQueue) × (add_each current ts q ≡ ok q') × Adds ts q q'
  unfolding add_each inserted
  add_each-Adds [] q here v = (q, refl, record { running = v; same_thread = refl; contents = refl })
  add_each-Adds (t ∷ ts) q here v =
      let (q', e, a) = add_each-Adds ts (added t q) here (added-Running t q v) in
      (
        q',
        rw (add_timer_in_loop-added t q here) e,
        record { running = a.running; same_thread = a.same_thread; contents = a.contents },
      )
