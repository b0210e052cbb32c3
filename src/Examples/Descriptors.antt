-- ===== src/Examples/Descriptors.antt =====
-- Timer descriptors: the timer thread with descriptor 4, and a kernel with one timer.
use penduo.Prelude.{
  ℕ, ◌+◌, ◌*◌, ◌≤◌, ◌≡◌, ◌⊎◌, refl, inl, pos, negsuc, ◌+ℤ◌, ◌-ℤ◌, ◌≤ℤ◌, ltb_ℤ, true, false, Option,
  none, some, [], ◌∷◌, update, if◌then◌else◌, ◌==◌, arith,
}
use penduo.Timestamp.{Timestamp}
use penduo.Timerfd.Laws.{total}
use penduo.Timerfd.Naive.{TimerSystem, naive_reset}
use penduo.Timerfd.Naive.Expires.{IsTimerfd, naive_reset_expires}
use penduo.Timerfd.Simulation.{
  TimerEntry, new_timer_thread, insert, take_expirations, write_each, reset, round, to_int, wait_ms,
  polling, head, Process, Reach, initial, next, start, wait, other_reset, poll_readable,
  poll_timeout,
}
use penduo.Timerfd.Simulation.Sets.{contains}
use penduo.Timerfd.Simulation.Armed.{Armed}
use penduo.Timerfd.Simulation.Traces.{armed_by, Reach-Armed}
use penduo.Timerfd.Simulation.Waits.{timeout_bounds, timeout_overflows}
use penduo.Timerfd.Simulation.Stops.{Run, done, further, own_steps, GoesOn, join_returns}

abbrev ns : ℕ → Timestamp
ns n = record { time_point = pos n }

abbrev disarmed : ℕ → Option Timestamp
disarmed fd = none

new_timer_thread-Armed : Armed disarmed new_timer_thread
unfolding contains
new_timer_thread-Armed = record {
  ordered = tt;
  agrees = λ fd at. refl;
  remembered = λ fd. inl refl;
}

-- The thread has read the eight bytes that a reset wrote, and polls again, at 1 millisecond.
abbrev entry : ℕ → TimerEntry
entry n = record { first = ns n; second = 4 }

abbrev waiting : ℕ → Process
waiting n = record {
  pc = polling (ns 1000000) (to_int (wait_ms (ns 1000000) (entry n ∷ [])));
  thread = record {
    timer_set = entry n ∷ [];
    weakup_bytes = 0;
    thread_running = true;
    expiration_ts = update (λ fd. ns 0) 4 (ns n);
    pipe_bytes = λ fd. 0;
  };
}

waiting-Reach_near : Reach (waiting 5000000)
unfolding reset round insert take_expirations write_each
waiting-Reach_near =
    next
      (next
        (next
          (next
            (next (next (next initial (other_reset 4 (ns 5000000))) (start refl))
              (wait (ns 1) refl refl))
            (poll_readable (ns 1) (ns 2) _ 7 refl refl))
          (wait (ns 3) refl refl))
        (poll_readable (ns 3) (ns 4) _ 3 refl refl))
      (wait (ns 1000000) refl refl)

waiting-Reach_far : Reach (waiting 3000000000000000)
unfolding reset round insert take_expirations write_each
waiting-Reach_far =
    next
      (next
        (next
          (next
            (next (next (next initial (other_reset 4 (ns 3000000000000000))) (start refl))
              (wait (ns 1) refl refl))
            (poll_readable (ns 1) (ns 2) _ 7 refl refl))
          (wait (ns 3) refl refl))
        (poll_readable (ns 3) (ns 4) _ 3 refl refl))
      (wait (ns 1000000) refl refl)

timeout_bounds_example :
    (w : ℕ) × (to_int (wait_ms (ns 1000000) (entry 5000000 ∷ [])) ≡ pos w)
    × (1 ≤ w)
    × ((w ≡ 1) ⊎ (w * 1000000 ≤ 4000000))
unfolding ◌-ℤ◌
timeout_bounds_example =
    timeout_bounds (entry 5000000) [] 4000000 waiting-Reach_near refl refl refl refl (omega arith)

timeout_overflows_example :
    (n : ℕ) × (to_int (wait_ms (ns 1000000) (entry 3000000000000000 ∷ [])) ≡ negsuc n)
unfolding ◌-ℤ◌
timeout_overflows_example =
    timeout_overflows (entry 3000000000000000) [] 2999999999000000 waiting-Reach_far refl refl refl
      refl (omega arith) (omega arith)

-- The thread is told to stop while it polls, and the wait times out.
abbrev told : Process
told = record {
  pc = polling (ns 1) (pos 10000);
  thread = record new_timer_thread { thread_running = false };
}

abbrev timed_out : Process
timed_out = record { pc = head; thread = round (pos 0) (ns 2) told.thread }

one_step : Run told timed_out
one_step = further done (poll_timeout (ns 1) (ns 2) 10000 refl)

join_returns_example : (own_steps one_step ≤ 2) × GoesOn timed_out
join_returns_example = join_returns one_step refl refl

-- The clock, which moves by 7 nanoseconds when a line is logged, and when the descriptor expires.
abbrev small_timers : TimerSystem
small_timers = record {
  W = ℕ × Option Timestamp;
  clock = λ w. (ns w.0, w);
  log = λ m w. (w.0 + 7, w.1);
  timerfd_create = λ w. (pos 9, w);
  timerfd_settime = λ fd value w. (
    pos 0,
    (
      w.0,
      if total value == 0
          then none
          else some (record { time_point = (ns w.0).time_point +ℤ pos (total value) }),
    ),
  );
  read = λ fd w. (pos 8, (w.0, none));
  close = λ fd w. (pos 0, w);
  pipe = λ w. (pos 0, 10, 11, w);
}

abbrev small_timers-IsTimerfd : IsTimerfd small_timers (pos 9)
small_timers-IsTimerfd = record {
  time = λ w. ns w.0;
  expires = λ w. w.1;
  succeeds = λ value w h. refl;
  arms = λ value w h h'. ground arith;
  disarms = λ value w h. ground arith;
}

naive_reset_expires_example :
    (t : Timestamp) × (small_timers-IsTimerfd.expires
        (naive_reset small_timers (pos 9) (ns 2500000001) (1, none))
      ≡ some t)
    × (t.time_point ≤ℤ (pos 2500000001 +ℤ pos 7))
    × (ltb_ℤ (pos 2500000001 +ℤ pos 7) (t.time_point +ℤ pos 1000) ≡ true)
unfolding ◌-ℤ◌ ◌+ℤ◌
naive_reset_expires_example =
    naive_reset_expires small_timers (pos 9) small_timers-IsTimerfd (ns 2500000001) (1, none)
      2500000000 7 refl (omega arith) refl

-- A reset, and the thread's first wait.
abbrev first_wait : Process
first_wait = record {
  pc = polling (ns 1) (to_int (wait_ms (ns 1) (reset 4 (ns 5) new_timer_thread).timer_set));
  thread = record (reset 4 (ns 5) new_timer_thread) { thread_running = true };
}

abbrev first_steps : Reach first_wait
first_steps = next (next (next initial (other_reset 4 (ns 5))) (start refl)) (wait (ns 1) refl refl)

Reach-Armed_example : Armed (armed_by first_steps) first_wait.thread
Reach-Armed_example = Reach-Armed first_steps (((tt, refl), tt), tt)
