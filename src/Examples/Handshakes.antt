-- ===== src/Examples/Handshakes.antt =====
-- A thread with a loop, and the calls that wait for it.
use penduo.Prelude.{◌≤◌, ◌≡◌, ◌⊎◌, refl, true}
use penduo.EventLoopThread.{
  EventLoopThread, new_event_loop_thread, publishing, finished, looping, Step, Reach, initial, next,
  call_start_loop, find_null, build, publish, publish_loop,
}
use penduo.EventLoopThread.Handshake.{
  Run, spurious_wakeups, single_call_returns, second_call_blocked,
}

-- One call waits, and the loop is stored.
abbrev stored : EventLoopThread
stored = record new_event_loop_thread { thread = looping; loop_is_set = true; testing = 1 }

stored-Reach : Reach stored
unfolding publish_loop
stored-Reach =
    next (next (next (next initial call_start_loop) (find_null 0 refl refl)) (build refl))
      (publish refl)

single_call_returns_example :
    (stored.returned ≡ 1) ⊎ ((t : EventLoopThread) × Step stored t × (t.returned ≡ 1))
single_call_returns_example = single_call_returns stored-Reach refl refl

-- Two calls wait, and the loop is built.
abbrev two_blocked : EventLoopThread
two_blocked = record new_event_loop_thread { thread = publishing; blocked = 2 }

two_blocked-Reach : Reach two_blocked
two_blocked-Reach =
    next
      (next (next (next (next initial call_start_loop) (find_null 0 refl refl)) call_start_loop)
        (find_null 0 refl refl))
      (build refl)

second_call_blocked_example :
    ((t : EventLoopThread) × Step two_blocked t × (t.loop_is_set ≡ true) × (t.blocked ≡ 1))
    × ((u : EventLoopThread) (r : Run two_blocked u) → spurious_wakeups r ≡ 0 → 1 ≤ u.blocked)
second_call_blocked_example = second_call_blocked 0 two_blocked-Reach refl refl

-- The loop has ended.
abbrev ended : EventLoopThread
ended = record new_event_loop_thread { thread = finished; loop_is_set = true }
