-- ===== src/Timerfd/Naive/Expires.antt =====
-- When a descriptor of the kernel expires.
use penduo.Prelude.{
  ℕ, ◌+◌, ◌≤◌, ◌<◌, ◌≡◌, ℤ, pos, ◌+ℤ◌, ◌-ℤ◌, ◌≤ℤ◌, true, Option, none, some, arith, ltb_ℤ, lt→ltb,
  ◌∙◌, ap, pos_part, neg_part, -ℤ_parts, +ℤ_parts,
}
use penduo.Timestamp.{Timestamp}
use penduo.Timerfd.{Timespec, how_much_time_from_now}
use penduo.Timerfd.Laws.{total, how_much_time_from_now_valid, how_much_time_from_now_exact}
use penduo.Logger.{log_trace}
use penduo.Timerfd.Naive.{TimerSystem, naive_reset}

-- timerfd_settime(2) with a relative time, on the clock of `time`: a valid `timespec` that is not zero
-- arms the descriptor for that many nanoseconds after the time of the call, and zero disarms it; both
-- succeed.
pub record IsTimerfd (sys : TimerSystem) (fd : ℤ) : Type 0 where
  pub time : sys.W → Timestamp
  pub expires : sys.W → Option Timestamp
  pub succeeds :
      (value : Timespec) (w : sys.W)
      → value.tv_nsec < 1000000000
      → (sys.timerfd_settime fd value w).0 ≡ pos 0
  pub arms :
      (value : Timespec) (w : sys.W)
      → value.tv_nsec < 1000000000
      → 0 < total value
      → expires (sys.timerfd_settime fd value w).1
        ≡ some (record { time_point = (time w).time_point +ℤ pos (total value) })
  pub disarms :
      (value : Timespec) (w : sys.W)
      → total value ≡ 0
      → expires (sys.timerfd_settime fd value w).1 ≡ none

-- The state in which the descriptor is set.
abbrev pub at_settime : (sys : TimerSystem) → sys.W → sys.W
at_settime sys w = sys.log log_trace (sys.clock w).1

not_after :
    (e c : ℤ) (t d late : ℕ)
    → e -ℤ c ≡ pos d
    → t ≤ d
    → ((c +ℤ pos late) +ℤ pos t) ≤ℤ (e +ℤ pos late)
not_after e c t d late h le = omega (
  arith,
  -ℤ_parts e c,
  +ℤ_parts c (pos late),
  +ℤ_parts (c +ℤ pos late) (pos t),
  +ℤ_parts e (pos late),
  ap pos_part h,
  ap neg_part h,
)

close_to :
    (e c : ℤ) (t d late : ℕ)
    → e -ℤ c ≡ pos d
    → d < t + 1000
    → ltb_ℤ (e +ℤ pos late) (((c +ℤ pos late) +ℤ pos t) +ℤ pos 1000) ≡ true
close_to e c t d late h lt = lt→ltb _ _ (
    omega (
      arith,
      -ℤ_parts e c,
      +ℤ_parts e (pos late),
      +ℤ_parts c (pos late),
      +ℤ_parts (c +ℤ pos late) (pos t),
      +ℤ_parts ((c +ℤ pos late) +ℤ pos t) (pos 1000),
      ap pos_part h,
      ap neg_part h,
    ))

-- Over such a descriptor `reset` with an expiration at least 100 microseconds ahead of the clock as
-- `reset` reads it, where `late` nanoseconds pass between that and the system call, arms it for a time
-- that is later than the expiration by `late` nanoseconds, or by up to a microsecond less.
pub naive_reset_expires :
    (sys : TimerSystem) (fd : ℤ) (k : IsTimerfd sys fd) (expiration : Timestamp) (w : sys.W)
    (d late : ℕ)
    → expiration.time_point -ℤ ((sys.clock w).0).time_point ≡ pos d
    → 100000 ≤ d
    → (k.time (at_settime sys w)).time_point ≡ ((sys.clock w).0).time_point +ℤ pos late
    → (t : Timestamp) × (k.expires (naive_reset sys fd expiration w) ≡ some t)
      × (t.time_point ≤ℤ (expiration.time_point +ℤ pos late))
      × (ltb_ℤ (expiration.time_point +ℤ pos late) (t.time_point +ℤ pos 1000) ≡ true)
unfolding naive_reset
naive_reset_expires sys fd k expiration w d late h above passed =
    let now = (sys.clock w).0 in
    let value = how_much_time_from_now now expiration in
    let (valid, least) = how_much_time_from_now_valid now expiration in
    let (below, near) = how_much_time_from_now_exact now expiration d h above in
    (
      record { time_point = (now.time_point +ℤ pos late) +ℤ pos (total value) },
      rw (k.succeeds value (at_settime sys w) valid) (
          k.arms value (at_settime sys w) valid (omega arith)
          ∙ ap (λ (x : ℤ). some (record { time_point = x +ℤ pos (total value) })) passed),
      not_after expiration.time_point now.time_point (total value) d late h below,
      close_to expiration.time_point now.time_point (total value) d late h near,
    )
