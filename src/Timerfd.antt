-- ===== src/Timerfd.antt =====
-- base/timerfd/Timerfd.cpp: what `TimerfdNaive::reset` hands to `timerfd_settime`.
pub mod Laws
pub mod Simulation
pub mod Naive
use penduo.Prelude.{ℕ, ◌*◌, ◌/◌, ◌%◌, ℤ, pos, negsuc, ltb_ℤ, if◌then◌else◌, pos_part}
use penduo.Timestamp.{Timestamp, microseconds, differ}

pub record Timespec : Type 0 where
  pub tv_sec : ℕ
  pub tv_nsec : ℕ

abbrev pub micro_seconds_per_second : ℕ
micro_seconds_per_second = 1000000

-- `std::max(microseconds, 100)`; the result is positive, so a number serves from here on.
abbrev at_least_100 : ℤ → ℕ
at_least_100 m = pos_part (if ltb_ℤ m (pos 100) then pos 100 else m)

unfoldable pub how_much_time_from_now : (now when : Timestamp) → Timespec
how_much_time_from_now now when =
    let m = at_least_100 (differ microseconds now when) in
    record { tv_sec = m / micro_seconds_per_second; tv_nsec = m % micro_seconds_per_second * 1000 }
