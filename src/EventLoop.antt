-- ===== src/EventLoop.antt =====
-- net/EventLoop.h and net/EventLoop.cpp: the loop of one thread and the functors that any thread
-- queues for it. Threads interleave between the accesses that the mutex or the pipe makes atomic.
-- The other threads are counted by where they stand; a functor is a number.
pub mod Invariant
pub mod Safety
pub mod Rounds
use penduo.Prelude.{
  ℕ, suc, ◌+◌, ◌≡◌, Bool, true, false, not, ◌||◌, List, [], ◌∷◌, ◌++◌, if◌then◌else◌,
}

-- Where the loop's thread stands.
pub data Pc : Type 0 where
  outside : Pc  -- not in `loop`
  test : Pc  -- at the head of the `while`
  polling : Pc  -- in `poller_->poll`
  handling : (woken : Bool) → Pc  -- in the loop over the active channels
  draining : Pc  -- in `do_pending_functors`, before the swap
  running : List ℕ → Pc  -- with these functors of the local vector left to run
  waking : List ℕ → Pc  -- in a nested `queue_in_loop`, after the push

pub record EventLoop : Type 0 where
  pub pc : Pc
  pub looping : Bool
  pub quit : Bool
  pub calling_pending_functors : Bool
  pub pending_functors : List ℕ
  pub wakeups : ℕ  -- 8-byte messages in the pipe
  pub pushers : ℕ  -- threads in `queue_in_loop` between the push and the wakeup
  pub quitters : ℕ  -- threads in `quit` between the store and the wakeup
  pub early : Bool  -- whether the loop's own thread queued a functor outside `loop`
  pub ran : List ℕ  -- the functors that have run, in order
  pub queued : List ℕ  -- the functors that were pushed, in order

-- The constructor's members.
abbrev pub new_loop : EventLoop
new_loop = record {
  pc = outside;
  looping = false;
  quit = false;
  calling_pending_functors = false;
  pending_functors = [];
  wakeups = 0;
  pushers = 0;
  quitters = 0;
  early = false;
  ran = [];
  queued = [];
}

-- `pending_functors_.push_back(cb)`, under the mutex
abbrev pub push : ℕ → EventLoop → EventLoop
push cb s = record s {
  pending_functors = s.pending_functors ++ cb ∷ [];
  queued = s.queued ++ cb ∷ [];
}

-- `!is_in_loop_thread() || calling_pending_functors_`
abbrev pub needs_wakeup : Bool → EventLoop → Bool
needs_wakeup in_loop_thread s = not in_loop_thread || s.calling_pending_functors

abbrev pub wakeup : EventLoop → EventLoop
wakeup s = record s { wakeups = s.wakeups + 1 }

-- `queue_in_loop` as a whole, where no other thread stands between its push and its test.
abbrev pub queue_in_loop : (in_loop_thread : Bool) → ℕ → EventLoop → EventLoop
queue_in_loop in_loop_thread cb s =
    let s' = push cb s in if needs_wakeup in_loop_thread s' then wakeup s' else s'

-- `loop` entered: `looping_ = true; quit_ = false;`
abbrev pub enter : EventLoop → EventLoop
enter s = record s { pc = test; looping = true; quit = false }

-- One access of one thread.
pub data Step (s : EventLoop) : EventLoop → Type 0 where
  -- Other threads, in `queue_in_loop` and `quit`.
  other_push : (cb : ℕ) → Step s (record (push cb s) { pushers = s.pushers + 1 })
  other_wakeup :
      (k : ℕ)
      → s.pushers ≡ suc k
      → needs_wakeup false s ≡ true
      → Step s (record (wakeup s) { pushers = k })
  other_skip :
      (k : ℕ) → s.pushers ≡ suc k → needs_wakeup false s ≡ false → Step s (record s { pushers = k })
  other_quit : Step s (record s { quit = true; quitters = s.quitters + 1 })
  other_quit_wakeup : (k : ℕ) → s.quitters ≡ suc k → Step s (record (wakeup s) { quitters = k })
  -- The loop's thread outside `loop`, and entering it.
  early_push :
      (cb : ℕ) → s.pc ≡ outside → Step s (record (queue_in_loop true cb s) { early = true })
  early_quit : s.pc ≡ outside → Step s (record s { quit = true })
  start : s.pc ≡ outside → s.looping ≡ false → Step s (enter s)
  -- The `while`.
  stop : s.pc ≡ test → s.quit ≡ true → Step s (record s { pc = outside; looping = false })
  poll : s.pc ≡ test → s.quit ≡ false → Step s (record s { pc = polling })
  -- `poll` returns with the pipe readable, or for another reason: another channel or the timeout.
  poll_wakeup :
      (k : ℕ) → s.pc ≡ polling → s.wakeups ≡ suc k → Step s (record s { pc = handling true })
  poll_other : s.pc ≡ polling → Step s (record s { pc = handling false })
  -- The callbacks of the active channels: the one of the pipe reads one message, others may queue or
  -- quit.
  read_wakeup :
      (k : ℕ)
      → s.pc ≡ handling true
      → s.wakeups ≡ suc k
      → Step s (record s { pc = handling false; wakeups = k })
  callback_push : (cb : ℕ) (woken : Bool) → s.pc ≡ handling woken → Step s (queue_in_loop true cb s)
  callback_quit : (woken : Bool) → s.pc ≡ handling woken → Step s (record s { quit = true })
  -- `do_pending_functors`
  drain :
      s.pc ≡ handling false → Step s (record s { pc = draining; calling_pending_functors = true })
  swap :
      s.pc ≡ draining → Step s (record s { pc = running s.pending_functors; pending_functors = [] })
  run :
      (cb : ℕ) (rest : List ℕ)
      → s.pc ≡ running (cb ∷ rest)
      → Step s (record s { pc = running rest; ran = s.ran ++ cb ∷ [] })
  nested_push :
      (cb : ℕ) (rest : List ℕ)
      → s.pc ≡ running rest
      → Step s (record (push cb s) { pc = waking rest })
  nested_wakeup :
      (rest : List ℕ)
      → s.pc ≡ waking rest
      → needs_wakeup true s ≡ true
      → Step s (record (wakeup s) { pc = running rest })
  nested_skip :
      (rest : List ℕ)
      → s.pc ≡ waking rest
      → needs_wakeup true s ≡ false
      → Step s (record s { pc = running rest })
  nested_quit : (rest : List ℕ) → s.pc ≡ running rest → Step s (record s { quit = true })
  finish : s.pc ≡ running [] → Step s (record s { pc = test; calling_pending_functors = false })

pub data Reach : EventLoop → Type 0 where
  initial : Reach new_loop
  next : {s t : EventLoop} → Reach s → Step s t → Reach t
