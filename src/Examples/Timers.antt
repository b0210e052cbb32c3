-- ===== src/Examples/Timers.antt =====
-- A queue with the expirations 5 and 9, and times.
use penduo.Prelude.{All, ℕ, ◌==◌, ◌≡◌, refl, pos, false, some, List, [], ◌∷◌, ok, if◌then◌else◌}
use penduo.Timestamp.{Timestamp}
use penduo.TimerQueue.{Timer, new_timer, Entry, TimerQueue, handle_read}
use penduo.TimerQueue.Order.{IsSorted}
use penduo.TimerQueue.Schedule.{Scheduler, Request, timer_of, add_timers, do_pending_functors}
use penduo.TimerQueue.Scheduled.{Holds, add_timers-Scheduled}
use penduo.TimerQueue.Add.{Inv, entry_of}
use penduo.TimerQueue.Expire.{Handled, handle_read-Handled}

abbrev at : ℕ → Timestamp
at n = record { time_point = pos n }

abbrev timer : ℕ → ℕ → Timer
timer address when = new_timer address address (at when) (pos 0)

abbrev due_at : ℕ → ℕ → Entry
due_at address when = record { first = at when; second = timer address when }

abbrev entries : List Entry
entries = due_at 1 5 ∷ due_at 2 9 ∷ []

abbrev queue : TimerQueue
queue = record { thread_id = 7; timer_list = entries; armed = some (at 5) }

-- Timer 1 adds a timer when it runs.
abbrev adds : ℕ → List Timer
adds k = if k == 1 then timer 3 8 ∷ [] else []

entries-IsSorted : IsSorted entries
entries-IsSorted = (refl, (tt, tt))

queue-Inv : Inv queue
queue-Inv = record { sorted = entries-IsSorted; armed_first = refl }

handle_read-Handled_example :
    (ran : List Timer) × (q' : TimerQueue) × (handle_read adds 7 (at 6) queue ≡ ok (ran, q'))
    × Handled adds (at 6) queue ran q'
handle_read-Handled_example = handle_read-Handled adds 7 (at 6) queue refl queue-Inv

-- Timers that the loop's thread and another one add.
abbrev requests : List Request
requests =
    record { thread = 7; address = 4; callback = 4; when = at 3; interval_ms = pos 0 }
    ∷ record { thread = 8; address = 5; callback = 5; when = at 1; interval_ms = pos 0 }
    ∷ []

abbrev scheduler : Scheduler
scheduler = record {
  queue = queue;
  pending_functors = [];
  calling_pending_functors = false;
  wakeups = 0;
}

add_timers-Scheduled_example :
    (s₁ s₂ : Scheduler) × (add_timers requests scheduler ≡ ok s₁)
    × (do_pending_functors 7 s₁ ≡ ok s₂)
    × Inv s₂.queue
    × (s₂.pending_functors ≡ [])
    × All (λ r. Holds (entry_of (timer_of r)) s₂.queue.timer_list) requests
add_timers-Scheduled_example = add_timers-Scheduled 7 requests scheduler queue-Inv refl
