-- ===== src/Timerfd/Simulation/Traces.antt =====
-- The timer thread from its start, against the timer descriptors that the resets and the rounds so far
-- would have left armed.
use penduo.Prelude.{ℕ, ◌≡◌, refl, inl, true, Option, none, some, update}
use penduo.Timestamp.{Timestamp, valid}
use penduo.Timerfd.Simulation.{
  TimerThread, Process, Step, Reach, initial, next, other_reset, other_read, other_stop, start,
  stop, wait, poll_readable, poll_timeout, poll_fails, read, round,
}
use penduo.Timerfd.Simulation.Sets.{contains}
use penduo.Timerfd.Simulation.Armed.{Armed, clear_due, reset-Armed, round-Armed}

-- What the descriptors are armed for after a step: a reset arms one, a round disarms those that are due.
unfoldable pub armed_after :
    {s t : Process} → Step s t → (ℕ → Option Timestamp) → ℕ → Option Timestamp
armed_after (other_reset write_fd expiration) armed = update armed write_fd (some expiration)
armed_after (poll_readable since now timeout_ms k p e) armed = λ fd. clear_due now (armed fd)
armed_after (poll_timeout since now timeout_ms p) armed = λ fd. clear_due now (armed fd)
armed_after _ armed = armed

unfoldable pub armed_by : {s : Process} → Reach s → ℕ → Option Timestamp
armed_by initial = λ fd. none
armed_by (next r st) = armed_after st (armed_by r)

-- No reset has the expiration that stands for none.
abbrev pub IsMeant : {s t : Process} → Step s t → Type 0
IsMeant (other_reset write_fd expiration) = valid expiration ≡ true
IsMeant _ = Unit {0}

abbrev pub AllMeant : {s : Process} → Reach s → Type 0
AllMeant initial = Unit {0}
AllMeant (next r st) = AllMeant r × IsMeant st

same-Armed :
    (armed : ℕ → Option Timestamp) (t t' : TimerThread)
    → t'.timer_set ≡ t.timer_set
    → t'.expiration_ts ≡ t.expiration_ts
    → Armed armed t
    → Armed armed t'
same-Armed armed t t' e f v = record {
  ordered = rw e v.ordered;
  agrees = λ fd at. rw e (v.agrees fd at);
  remembered = λ fd. rw f (v.remembered fd);
}

Step-Armed :
    {s t : Process} (armed : ℕ → Option Timestamp) (st : Step s t)
    → IsMeant st
    → Armed armed s.thread
    → Armed (armed_after st armed) t.thread
unfolding armed_after read round
Step-Armed {s} armed (other_reset write_fd expiration) m v =
    reset-Armed armed s.thread v write_fd expiration m
Step-Armed armed (other_read write_fd k e) m v = same-Armed armed _ _ refl refl v
Step-Armed armed other_stop m v = same-Armed armed _ _ refl refl v
Step-Armed armed (start p) m v = same-Armed armed _ _ refl refl v
Step-Armed armed (stop p n) m v = v
Step-Armed armed (wait now p r) m v = v
Step-Armed {s} armed (poll_readable since now timeout_ms k p e) m v =
    (round-Armed armed s.thread 1 now v).0
Step-Armed {s} armed (poll_timeout since now timeout_ms p) m v =
    (round-Armed armed s.thread 0 now v).0
Step-Armed armed (poll_fails since now timeout_ms n p) m v = v

-- In every reachable state of the timer thread, where no reset has the expiration that stands for
-- none, the set holds exactly the expirations that the descriptors are armed for by the steps so far:
-- each the last that it was reset to, until a round in which that is due.
pub Reach-Armed : {s : Process} (r : Reach s) → AllMeant r → Armed (armed_by r) s.thread
unfolding armed_by contains
Reach-Armed initial m = record { ordered = tt; agrees = λ fd at. refl; remembered = λ fd. inl refl }
Reach-Armed (next r st) m = Step-Armed (armed_by r) st m.1 (Reach-Armed r m.0)
