-- ===== src/Timerfd/Simulation/Stops.antt =====
-- The end of the timer thread, for which `~TimerThread` waits.
use penduo.Prelude.{
  ℕ, zero, suc, ◌+◌, ◌≤◌, ◌≡◌, refl, ◌⊎◌, inl, inr, pos, negsuc, Bool, true, false, if◌then◌else◌,
  arith,
}
use penduo.Timestamp.{Timestamp, zero_timestamp}
use penduo.Timerfd.Simulation.{
  Pc, starting, head, polling, stopped, Process, Step, other_reset, other_read, other_stop, start,
  stop, wait, poll_readable, poll_timeout, poll_fails, reset, read, round,
}

-- The steps of the thread itself, and those of them that are not failures of `poll`.
abbrev pub is_own : {s t : Process} → Step s t → Bool
is_own (other_reset _ _) = false
is_own (other_read _ _ _) = false
is_own other_stop = false
is_own _ = true

abbrev pub is_failure : {s t : Process} → Step s t → Bool
is_failure (poll_fails _ _ _ _ _) = true
is_failure _ = false

-- Some steps from a state.
pub data Run (s : Process) : Process → Type 0 where
  done : Run s s
  further : {t u : Process} → Run s t → Step t u → Run s u

unfoldable pub own_steps : {s t : Process} → Run s t → ℕ
own_steps done = 0
own_steps (further r st) = if is_own st then suc (own_steps r) else own_steps r

-- How many steps the thread has left where it is told to stop.
abbrev pub left : Pc → ℕ
left starting = 3
left (polling _ _) = 2
left head = 1
left stopped = 0

abbrev pub is_started : Pc → Bool
is_started starting = false
is_started _ = true

record Ending (s t : Process) (k : ℕ) : Type 0 where
  told : t.thread.thread_running ≡ false
  started : is_started t.pc ≡ true
  few : k + left t.pc ≤ left s.pc

Step-Ending :
    {s t u : Process} (k : ℕ) (st : Step t u)
    → Ending s t k
    → Ending s u (if is_own st then suc k else k)
unfolding reset read round
Step-Ending k (other_reset write_fd expiration) v = record {
  told = v.told;
  started = v.started;
  few = v.few;
}
Step-Ending k (other_read write_fd n e) v = record {
  told = v.told;
  started = v.started;
  few = v.few;
}
Step-Ending k other_stop v = record { told = refl; started = v.started; few = v.few }
Step-Ending k (start p) v = absurd (ground (arith, p, v.started))
Step-Ending k (stop p n) v = record { told = v.told; started = refl; few = ground (arith, v.few) }
Step-Ending k (wait now p r) v = absurd (ground (arith, r, v.told))
Step-Ending k (poll_readable since now timeout_ms n p e) v = record {
  told = v.told;
  started = refl;
  few = ground (arith, v.few);
}
Step-Ending k (poll_timeout since now timeout_ms p) v = record {
  told = v.told;
  started = refl;
  few = ground (arith, v.few);
}
Step-Ending k (poll_fails since now timeout_ms n p) v = record {
  told = v.told;
  started = refl;
  few = ground (arith, v.few);
}

Run-Ending :
    {s t : Process} (r : Run s t)
    → s.thread.thread_running ≡ false
    → is_started s.pc ≡ true
    → Ending s t (own_steps r)
unfolding own_steps
Run-Ending done n h = record { told = n; started = h; few = omega arith }
Run-Ending (further r st) n h = Step-Ending (own_steps r) st (Run-Ending r n h)

-- The thread has ended, a step of its own other than a failure is possible, or it polls with a
-- negative timeout.
abbrev pub GoesOn : Process → Type 0
GoesOn t =
    (t.pc ≡ stopped)
    ⊎ ((u : Process) × (st : Step t u) × (is_own st ≡ true) × (is_failure st ≡ false))
    ⊎ ((since : Timestamp) × (n : ℕ) × (t.pc ≡ polling since (negsuc n)))

goes_on : (t : Process) → t.thread.thread_running ≡ false → is_started t.pc ≡ true → GoesOn t
goes_on t told started = go t.pc refl
  where
    polls :
        (since : Timestamp) (timeout_ms bytes : ℕ)
        → t.pc ≡ polling since (pos timeout_ms)
        → t.thread.weakup_bytes ≡ bytes
        → GoesOn t
    polls since timeout_ms zero p e =
        inr (inl (_, poll_timeout since zero_timestamp timeout_ms p, refl, refl))
    polls since timeout_ms (suc k) p e =
        inr (inl (_, poll_readable since zero_timestamp (pos timeout_ms) k p e, refl, refl))

    go : (pc : Pc) → t.pc ≡ pc → GoesOn t
    go stopped p = inl p
    go head p = inr (inl (_, stop p told, refl, refl))
    go starting p = absurd (ground (arith, p, started))
    go (polling since (pos timeout_ms)) p = polls since timeout_ms t.thread.weakup_bytes p refl
    go (polling since (negsuc n)) p = inr (inr (since, n, p))

-- Once the timer thread, after its start, is told to stop, it takes two steps of its own at most,
-- whatever the loops do in between; until it has ended a step of its own is possible, one that does
-- not wait for a failure of `poll`, unless it polls with a negative timeout, which is a wait without
-- end. The destructor does not write to the pipe.
pub join_returns :
    {s t : Process} (r : Run s t)
    → s.thread.thread_running ≡ false
    → is_started s.pc ≡ true
    → (own_steps r ≤ 2) × GoesOn t
join_returns {s} {t} r told started =
    let v = Run-Ending r told started in
    (omega (arith, v.few, left_bound s.pc started), goes_on t v.told v.started)
  where
    left_bound : (pc : Pc) → is_started pc ≡ true → left pc ≤ 2
    left_bound starting h = absurd (ground (arith, h))
    left_bound head h = omega arith
    left_bound (polling since ms) h = omega arith
    left_bound stopped h = omega arith
