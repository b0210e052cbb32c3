-- ===== src/Timerfd/Naive.antt =====
-- base/timerfd/TimerfdNaive.cpp, TimerfdCreator.cpp and the class in Timerfd.h: a timer descriptor as
-- `TimerQueue` uses it, and its two implementations. The system calls are a parameter.
pub mod Expires
use penduo.Prelude.{
  ℕ, ℤ, pos, negsuc, Bool, true, false, Outcome, ok, fail, fatal, ◌>>=◌, ◌>>◌, assert,
  if◌then◌else◌, eqb_ℤ, update,
}
use penduo.Timestamp.{Timestamp, zero_timestamp}
use penduo.Logger.{Macro, log_trace, log_error, log_sys_error}
use penduo.Timerfd.{Timespec, how_much_time_from_now}
use penduo.Timerfd.Simulation
use penduo.Timerfd.Simulation.{TimerThread}

-- The virtual functions of `Timerfd`.
pub record Timerfd (W : Type 0) : Type 0 where
  pub get_fd : ℤ
  pub read : W → W
  pub reset : Timestamp → W → W

-- The static function of `TimerfdCreator`.
pub record TimerfdCreator (W : Type 0) : Type 0 where
  pub new_default : W → Outcome (Timerfd W × W)

-- What the two implementations call, the clock and the lines that they log included, during which time
-- goes by. The results of `pipe` are what it returns and its two ends.
pub record TimerSystem : Type 1 where
  pub W : Type 0
  pub clock : W → Timestamp × W
  pub log : Macro → W → W
  pub timerfd_create : W → ℤ × W
  pub timerfd_settime : (fd : ℤ) → Timespec → W → ℤ × W
  pub read : (fd : ℤ) → W → ℤ × W
  pub close : (fd : ℤ) → W → ℤ × W
  pub pipe : W → ℤ × ℕ × ℕ × W

abbrev pub is_negative : ℤ → Bool
is_negative (pos n) = false
is_negative (negsuc n) = true

module _ (sys : TimerSystem) where
  open sys use {W, clock, log, timerfd_create, timerfd_settime, read as sys_read, close, pipe}

  -- The timer thread is a second part of the world.
  abbrev pub World : Type 0
  World = W × TimerThread

  -- `TimerfdNaive::read`
  unfoldable pub naive_read : ℤ → W → W
  naive_read fd w =
      let (now, w₁) = clock w in
      let (n, w₂) = sys_read fd w₁ in
      let w₃ = log log_trace w₂ in if eqb_ℤ n (pos 8) then w₃ else log log_error w₃

  -- `TimerfdNaive::reset`; the clock is read before the line is logged and the descriptor is set.
  unfoldable pub naive_reset : ℤ → Timestamp → W → W
  naive_reset fd expiration w =
      let (now, w₁) = clock w in
      let value = how_much_time_from_now now expiration in
      let (ret, w₂) = timerfd_settime fd value (log log_trace w₁) in
      if eqb_ℤ ret (pos 0) then w₂ else log log_sys_error w₂

  unfoldable pub naive_close : ℤ → W → W
  naive_close fd w = (close fd w).1

  abbrev pub naive : ℤ → Timerfd World
  naive fd = record {
    get_fd = fd;
    read = λ (w, t). (naive_read fd w, t);
    reset = λ expiration (w, t). (naive_reset fd expiration w, t);
  }

  unfoldable pub new_naive : World → Outcome (Timerfd World × World)
  new_naive (w, t) =
      let (fd, w') = timerfd_create w in
      if is_negative fd then fail fatal else ok (naive fd, (w', t))

  -- `TimerfdThreadSimulation::get_fd`: the read end of the pipe.
  abbrev pub simulated_fd : (read_fd : ℕ) → ℤ
  simulated_fd read_fd = pos read_fd

  -- `~TimerfdThreadSimulation`
  unfoldable pub simulated_close : (read_fd write_fd : ℕ) → W → W
  simulated_close read_fd write_fd w = (close (pos write_fd) (close (pos read_fd) w).1).1

  abbrev pub simulated : (read_fd write_fd : ℕ) → Timerfd World
  simulated read_fd write_fd = record {
    get_fd = simulated_fd read_fd;
    read = λ (w, t). (w, Simulation.read write_fd t);
    reset = λ expiration (w, t). (w, Simulation.reset write_fd expiration t);
  }

  -- A new object remembers no expiration.
  unfoldable pub new_simulated : World → Outcome (Timerfd World × World)
  new_simulated (w, t) =
      let (ret, read_fd, write_fd, w') = pipe w in
      let t' = record t { expiration_ts = update t.expiration_ts write_fd zero_timestamp } in
      assert (eqb_ℤ ret (pos 0)) >> ok (simulated read_fd write_fd, (w', t'))

  -- `TimerfdCreator::new_default`; the flag is PENDUO_USE_NAIVE_TIMERFD.
  unfoldable pub make_default : Bool → World → Outcome (Timerfd World × World)
  make_default true w = new_naive w
  make_default false w = new_simulated w

  abbrev pub timerfd_creator : Bool → TimerfdCreator World
  timerfd_creator use_naive_timerfd = record { new_default = make_default use_naive_timerfd }
