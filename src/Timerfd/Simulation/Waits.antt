-- ===== src/Timerfd/Simulation/Waits.antt =====
-- How long the timer thread waits, while other threads reset their descriptors.
use penduo.Prelude.{
  ℕ, ◌*◌, ◌-◌, ◌≤◌, ◌<◌, ◌≡◌, ◌∙◌, ◌⊎◌, ap, ltb, if◌then◌else◌, ℤ, pos, negsuc, ◌-ℤ◌, List, ◌∷◌,
  arith,
}
use penduo.Timestamp.{Timestamp, milliseconds}
use penduo.Timestamp.Laws.{differ_bounds}
use penduo.Timerfd.Simulation.{
  TimerEntry, polling, Process, Step, Reach, initial, next, other_reset, other_read, other_stop,
  start, stop, wait, poll_readable, poll_timeout, poll_fails, to_int, wait_ms, reset, read,
}

-- The time that the thread polls for was found from the set as it is, or its pipe has bytes.
abbrev Fresh : Process → Type 0
Fresh s =
    (since : Timestamp) (timeout_ms : ℤ)
    → s.pc ≡ polling since timeout_ms
    → s.thread.weakup_bytes ≡ 0
    → timeout_ms ≡ to_int (wait_ms since s.thread.timer_set)

Step-Fresh : {s t : Process} → Step s t → Fresh s → Fresh t
unfolding reset read
Step-Fresh {s} (other_reset fd expiration) f since ms p z = absurd (omega arith)
Step-Fresh {s} (other_read fd k h) f since ms p z = f since ms p z
Step-Fresh {s} other_stop f since ms p z = f since ms p z
Step-Fresh {s} (start h) f since ms p z = cc
Step-Fresh {s} (stop h r) f since ms p z = cc
Step-Fresh {s} (wait now h r) f since ms p z = cc
Step-Fresh {s} (poll_readable since' now ms' k h b) f since ms p z = cc
Step-Fresh {s} (poll_timeout since' now ms' h) f since ms p z = cc
Step-Fresh {s} (poll_fails since' now ms' n h) f since ms p z = cc

Reach-Fresh : {s : Process} → Reach s → Fresh s
Reach-Fresh initial since ms p z = cc
Reach-Fresh (next r st) since ms p z = Step-Fresh st (Reach-Fresh r) since ms p z

-- While the thread polls and its pipe is empty, the timeout is at least a millisecond and does not
-- pass the first expiration, unless it is that one millisecond; the expiration is one that is not
-- past when the wait starts, and less than 2 ^ 31 milliseconds ahead.
pub timeout_bounds :
    {s : Process} {since : Timestamp} {timeout_ms : ℤ} (e : TimerEntry) (es : List TimerEntry)
    (d : ℕ)
    → Reach s
    → s.pc ≡ polling since timeout_ms
    → s.thread.weakup_bytes ≡ 0
    → s.thread.timer_set ≡ e ∷ es
    → e.first.time_point -ℤ since.time_point ≡ pos d
    → d < 2147483648000000
    → (w : ℕ) × (timeout_ms ≡ pos w) × (1 ≤ w) × ((w ≡ 1) ⊎ (w * 1000000 ≤ d))
unfolding wait_ms
timeout_bounds {s} {since} {timeout_ms} e es d r p z q h below =
    let (m, eq, lower, upper) = differ_bounds milliseconds since e.first d h in
    let fresh : timeout_ms ≡ to_int (wait_ms since (e ∷ es)) =
      Reach-Fresh r since timeout_ms p z ∙ ap (λ set. to_int (wait_ms since set)) q in
    (if ltb m 1 then 1 else m, ground arith, ground arith, ground arith)

-- An expiration that is between 2 ^ 31 and 2 ^ 32 - 1 milliseconds ahead makes the timeout negative, with
-- which `poll` waits without end.
pub timeout_overflows :
    {s : Process} {since : Timestamp} {timeout_ms : ℤ} (e : TimerEntry) (es : List TimerEntry)
    (d : ℕ)
    → Reach s
    → s.pc ≡ polling since timeout_ms
    → s.thread.weakup_bytes ≡ 0
    → s.thread.timer_set ≡ e ∷ es
    → e.first.time_point -ℤ since.time_point ≡ pos d
    → 2147483648000000 ≤ d
    → d < 4294967296000000
    → (n : ℕ) × (timeout_ms ≡ negsuc n)
unfolding wait_ms
timeout_overflows {s} {since} {timeout_ms} e es d r p z q h above below =
    let (m, eq, lower, upper) = differ_bounds milliseconds since e.first d h in
    let fresh : timeout_ms ≡ to_int (wait_ms since (e ∷ es)) =
      Reach-Fresh r since timeout_ms p z ∙ ap (λ set. to_int (wait_ms since set)) q in
    (4294967295 - m, ground arith)
