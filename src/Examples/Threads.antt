-- ===== src/Examples/Threads.antt =====
-- Runs of a loop with other threads, and a system whose only descriptor is 3.
use penduo.Prelude.{
  ℕ, ◌+◌, ◌<◌, ◌≡◌, ◌≢◌, ◌≤◌, refl, pos, negsuc, pos_part, true, false, [], ◌∷◌, ◌++◌, fail, fatal,
  arith,
}
use penduo.EventLoop.{
  EventLoop, new_loop, push, wakeup, enter, test, polling, handling, Step, Reach, initial, next,
  start, poll, other_push, other_wakeup, other_quit, other_quit_wakeup, early_quit, poll_wakeup,
  read_wakeup, drain, swap, run, finish,
}
use penduo.EventLoop.Invariant.{remaining}
use penduo.EventLoop.Safety.{functors_fifo, no_lost_wakeup, early_quit_lost}
use penduo.EventLoop.Rounds.{
  Run, done, further, IsPrefix, round_runs_queue, is_start, is_poll, is_control, steps_that, left,
  Leaves, quit_ends_loop,
}
use penduo.Sockets.{System, Errno, eagain, ebadf, accept}
use penduo.Sockets.Accept.{FailsOnBadFd, accept_failure_fatal}

-- The loop polls, and another thread queues functor 5.
abbrev in_poll : EventLoop
in_poll = record (enter new_loop) { pc = polling }

abbrev pushed : EventLoop
pushed = record (push 5 in_poll) { pushers = 1 }

abbrev woken : EventLoop
woken = record (wakeup pushed) { pushers = 0 }

pushed-Reach : Reach pushed
pushed-Reach = next (next (next initial (start refl refl)) (poll refl refl)) (other_push 5)

woken-Reach : Reach woken
woken-Reach = next pushed-Reach (other_wakeup 0 refl refl)

functors_fifo_example :
    pushed.ran ++ (remaining pushed.pc ++ pushed.pending_functors) ≡ pushed.queued
functors_fifo_example = functors_fifo pushed-Reach

one_pending : pushed.pending_functors ≢ []
one_pending e = ground arith

no_lost_wakeup_example : 0 < pushed.wakeups + pushed.pushers
no_lost_wakeup_example = no_lost_wakeup pushed-Reach refl refl one_pending

-- The round that the message begins.
abbrev after_round : EventLoop
after_round = record woken { pc = test; pending_functors = []; wakeups = 0; ran = 5 ∷ [] }

one_round : Run woken after_round
one_round =
    further
      (further
        (further
          (further (further (further done (poll_wakeup 0 refl refl)) (read_wakeup 0 refl refl))
            (drain refl))
          (swap refl))
        (run 5 [] refl))
      (finish refl)

round_runs_queue_example : IsPrefix woken.queued after_round.ran
round_runs_queue_example = round_runs_queue woken-Reach refl one_round refl

-- Another thread calls `quit` while the loop polls, which then wakes.
abbrev quit_in_poll : EventLoop
quit_in_poll = record in_poll { quit = true; quitters = 1 }

quit_in_poll-Reach : Reach quit_in_poll
quit_in_poll-Reach = next (next (next initial (start refl refl)) (poll refl refl)) other_quit

abbrev woken_to_quit : EventLoop
woken_to_quit = record quit_in_poll { pc = handling true; wakeups = 1; quitters = 0 }

abbrev wakes : Run quit_in_poll woken_to_quit
wakes = further (further done (other_quit_wakeup 0 refl)) (poll_wakeup 0 refl refl)

no_start : steps_that is_start wakes ≡ 0
unfolding steps_that
no_start = refl

quit_ends_loop_example :
    (woken_to_quit.quit ≡ true)
    × (steps_that is_poll wakes ≡ 0)
    × (steps_that is_control wakes + left woken_to_quit.pc ≤ left quit_in_poll.pc)
    × Leaves woken_to_quit
quit_ends_loop_example = quit_ends_loop quit_in_poll-Reach refl wakes no_start

abbrev asked_to_quit : EventLoop
asked_to_quit = record new_loop { quit = true }

early_quit_lost_example :
    (t u : EventLoop) × Step asked_to_quit t × Step t u × (u.pc ≡ polling) × (u.quit ≡ false)
early_quit_lost_example =
    early_quit_lost {s = asked_to_quit} (next initial (early_quit refl)) refl refl

-- The status flags of the descriptor, and `errno`. Nothing is there to be accepted.
abbrev pub small_system : System
small_system = record {
  W = ℕ × Errno;
  errno = λ w. w.1;
  set_errno = λ e w. (w.0, e);
  accept = λ fd w. (negsuc 0, (w.0, eagain));
  get_fl = λ fd w. (pos w.0, w);
  set_fl = λ fd flags w. (pos 0, (pos_part flags, w.1));
  get_fd = λ fd w. (pos 0, w);
  set_fd = λ fd flags w. elim fd [ pos n ↦ (pos 0, w) | negsuc n ↦ (negsuc 0, (w.0, ebadf)) ];
  listen = λ fd w. (pos 0, w);
  socket = λ family w. (pos 3, w);
  bind = λ fd family size w. (pos 0, w);
  close = λ fd w. (pos 0, w);
  set_reuse = λ fd option_val w. (pos 0, w);
  get_error = λ fd w. (pos 0, pos 0, w);
}

pub small_system-FailsOnBadFd : FailsOnBadFd small_system
small_system-FailsOnBadFd n flags w = refl

accept_failure_fatal_example : accept small_system (pos 3) (2, eagain) ≡ fail fatal
accept_failure_fatal_example =
    accept_failure_fatal small_system (pos 3) 0 (2, eagain) small_system-FailsOnBadFd refl
