-- ===== src/Timerfd/Simulation.antt =====
-- base/timerfd/TimerfdThreadSimulation.cpp: a timer descriptor as a pipe that one thread for all of
-- them writes to. An object is known by the write end of its pipe; what is under the mutex is one step.
pub mod Sets
pub mod Armed
pub mod Waits
pub mod Stops
pub mod Traces
use penduo.Prelude.{
  ℕ, suc, ◌≡◌, ◌+◌, ◌-◌, ◌%◌, ◌^◌, ℤ, pos, negsuc, pos_part, ltb_ℤ, Bool, true, false, not, ◌&&◌,
  ◌||◌, List, [], ◌∷◌, ltb, ◌==◌, if◌then◌else◌, update,
}
use penduo.Timestamp.{Timestamp, milliseconds, lt, ge, eq, valid, zero_timestamp, differ}

-- `std::pair<Timestamp, int>`
pub record TimerEntry : Type 0 where
  pub first : Timestamp
  pub second : ℕ

abbrev pub precedes : TimerEntry → TimerEntry → Bool
precedes a b = lt a.first b.first || (not (lt b.first a.first) && ltb a.second b.second)

abbrev pub equivalent : TimerEntry → TimerEntry → Bool
equivalent a b = eq a.first b.first && a.second == b.second

-- `std::set::insert` and `std::set::erase`, on the ordered list of the elements.
unfoldable pub insert : TimerEntry → List TimerEntry → List TimerEntry
insert e [] = e ∷ []
insert e (x ∷ xs) =
    if precedes e x then e ∷ x ∷ xs else if precedes x e then x ∷ insert e xs else x ∷ xs

unfoldable pub erase : TimerEntry → List TimerEntry → List TimerEntry
erase e [] = []
erase e (x ∷ xs) = if equivalent e x then xs else x ∷ erase e xs

-- The timer thread with the objects that use it: the set, the bytes in its own pipe, and of each
-- object its `expiration_ts_` and the bytes in its pipe.
pub record TimerThread : Type 0 where
  pub timer_set : List TimerEntry
  pub weakup_bytes : ℕ
  pub thread_running : Bool
  pub expiration_ts : ℕ → Timestamp
  pub pipe_bytes : ℕ → ℕ

abbrev pub new_timer_thread : TimerThread
new_timer_thread = record {
  timer_set = [];
  weakup_bytes = 0;
  thread_running = false;
  expiration_ts = λ fd. zero_timestamp;
  pipe_bytes = λ fd. 0;
}

-- `TimerThread::reset`
unfoldable pub thread_reset : ℕ → Timestamp → Timestamp → TimerThread → TimerThread
thread_reset write_fd new_timestamp old_timestamp t =
    let old : TimerEntry = record { first = old_timestamp; second = write_fd } in
    let new : TimerEntry = record { first = new_timestamp; second = write_fd } in
    record t {
      timer_set = insert new (if valid old_timestamp then erase old t.timer_set else t.timer_set);
      weakup_bytes = t.weakup_bytes + 8;
    }

-- `TimerfdThreadSimulation::reset`
unfoldable pub reset : ℕ → Timestamp → TimerThread → TimerThread
unfolding thread_reset
reset write_fd expiration t =
    let t' = thread_reset write_fd expiration (t.expiration_ts write_fd) t in
    record t' { expiration_ts = update t'.expiration_ts write_fd expiration }

-- `TimerfdThreadSimulation::read`, of a pipe that has bytes.
unfoldable pub read : ℕ → TimerThread → TimerThread
read write_fd t = record t { pipe_bytes = update t.pipe_bytes write_fd (t.pipe_bytes write_fd - 8) }

-- How long a round waits, from the set under the mutex.
unfoldable pub wait_ms : Timestamp → List TimerEntry → ℤ
wait_ms now [] = pos 10000
wait_ms now (e ∷ es) =
    let ms = differ milliseconds now e.first in if ltb_ℤ ms (pos 1) then pos 1 else ms

-- `static_cast<int>`
abbrev pub to_int : ℤ → ℤ
to_int (pos n) =
    let low = n % 2 ^ 32 in if ltb low (2 ^ 31) then pos low else negsuc (2 ^ 32 - 1 - low)
to_int (negsuc n) =
    let low = n % 2 ^ 32 in if ltb low (2 ^ 31) then negsuc low else pos (2 ^ 32 - 1 - low)

-- The loop that takes what has expired: the descriptors, and the set that is left.
unfoldable pub take_expirations : Timestamp → List TimerEntry → List ℕ × List TimerEntry
take_expirations now [] = ([], [])
take_expirations now (e ∷ es) =
    let (fds, left) = take_expirations now es in
    if ge now e.first then (e.second ∷ fds, left) else ([], e ∷ es)

-- The writes to the expired descriptors.
unfoldable pub write_each : List ℕ → (ℕ → ℕ) → ℕ → ℕ
write_each [] bytes = bytes
write_each (fd ∷ fds) bytes = write_each fds (update bytes fd (bytes fd + 8))

-- A round after `poll` has returned `ret`; the read takes an `int` of the eight bytes.
unfoldable pub round : ℤ → Timestamp → TimerThread → TimerThread
unfolding take_expirations write_each
round (negsuc _) now t = t
round (pos ret) now t =
    let (fds, left) = take_expirations now t.timer_set in
    record t {
      weakup_bytes = if ret == 0 then t.weakup_bytes else t.weakup_bytes - 4;
      timer_set = left;
      pipe_bytes = write_each fds t.pipe_bytes;
    }

-- Where the thread stands in `TimerFunc`.
pub data Pc : Type 0 where
  starting : Pc
  head : Pc  -- at the head of the `for`
  polling : (since : Timestamp) (timeout_ms : ℤ) → Pc
  stopped : Pc

pub record Process : Type 0 where
  pub pc : Pc
  pub thread : TimerThread

-- The thread, with the loops that reset and read their descriptors and the end of the process. Time
-- is what the clock says, so that `now` is left open; `poll` waits without end if its timeout is
-- negative. A round is one step, at the place of its lock: the read before it and the writes after it
-- touch what the other steps only add to, or wait for. A reset between the return of `poll` and the lock
-- has its bytes in the pipe when the round takes place, so that a timeout does not ask for an empty pipe.
pub data Step (s : Process) : Process → Type 0 where
  other_reset :
      (write_fd : ℕ) (expiration : Timestamp)
      → Step s (record s { thread = reset write_fd expiration s.thread })
  other_read :
      (write_fd k : ℕ)
      → s.thread.pipe_bytes write_fd ≡ suc k
      → Step s (record s { thread = read write_fd s.thread })
  other_stop : Step s (record s { thread = record s.thread { thread_running = false } })
  start :
      s.pc ≡ starting
      → Step s (record s { pc = head; thread = record s.thread { thread_running = true } })
  stop : s.pc ≡ head → s.thread.thread_running ≡ false → Step s (record s { pc = stopped })
  wait :
      (now : Timestamp)
      → s.pc ≡ head
      → s.thread.thread_running ≡ true
      → Step s (record s { pc = polling now (to_int (wait_ms now s.thread.timer_set)) })
  poll_readable :
      (since now : Timestamp) (timeout_ms : ℤ) (k : ℕ)
      → s.pc ≡ polling since timeout_ms
      → s.thread.weakup_bytes ≡ suc k
      → Step s (record s { pc = head; thread = round (pos 1) now s.thread })
  poll_timeout :
      (since now : Timestamp) (timeout_ms : ℕ)
      → s.pc ≡ polling since (pos timeout_ms)
      → Step s (record s { pc = head; thread = round (pos 0) now s.thread })
  poll_fails :
      (since now : Timestamp) (timeout_ms : ℤ) (n : ℕ)
      → s.pc ≡ polling since timeout_ms
      → Step s (record s { pc = head; thread = round (negsuc n) now s.thread })

pub data Reach : Process → Type 0 where
  initial : Reach (record { pc = starting; thread = new_timer_thread })
  next : {s t : Process} → Reach s → Step s t → Reach t
