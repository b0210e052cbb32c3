-- ===== src/Timerfd/Laws.antt =====
-- The time that a timer is armed for.
use penduo.Prelude.{ℕ, ◌+◌, ◌*◌, ◌<◌, ◌≤◌, ◌≡◌, pos, ◌-ℤ◌, arith}
use penduo.Timestamp.{Timestamp, microseconds}
use penduo.Timestamp.Laws.{differ_bounds}
use penduo.Timerfd.{Timespec, how_much_time_from_now}

-- A `timespec` in nanoseconds.
abbrev pub total : Timespec → ℕ
total ts = ts.tv_sec * 1000000000 + ts.tv_nsec

-- Whatever the two times are, the result is a valid `timespec` of at least 100 microseconds: never
-- zero, which would disarm the timer.
pub how_much_time_from_now_valid :
    (now when : Timestamp)
    → ((how_much_time_from_now now when).tv_nsec < 1000000000)
      × (100000 ≤ total (how_much_time_from_now now when))
unfolding how_much_time_from_now
how_much_time_from_now_valid now when = ground arith

-- An expiration at least 100 microseconds ahead is met up to a microsecond, and never overshot.
pub how_much_time_from_now_exact :
    (now when : Timestamp) (d : ℕ)
    → when.time_point -ℤ now.time_point ≡ pos d
    → 100000 ≤ d
    → (total (how_much_time_from_now now when) ≤ d)
      × (d < total (how_much_time_from_now now when) + 1000)
unfolding how_much_time_from_now
how_much_time_from_now_exact now when d h lt =
    let (m, e, below, above) = differ_bounds microseconds now when d h in ground arith
