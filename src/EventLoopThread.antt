-- ===== src/EventLoopThread.antt =====
-- net/EventLoopThread.h and net/EventLoopThread.cpp: a thread that runs a loop, and the calls of
-- `start_loop` that wait until it has one. What the mutex covers is one step.
pub mod Handshake
use penduo.Prelude.{ℕ, zero, suc, ◌+◌, ◌≡◌, Bool, true, false}

-- Where `thread_func` stands.
pub data ThreadPc : Type 0 where
  building : ThreadPc  -- before `loop` is constructed
  publishing : ThreadPc  -- before the mutex
  looping : ThreadPc  -- in `loop.loop()`
  finished : ThreadPc  -- the loop on its stack is destroyed

-- `loop_` is null or points to the loop of the thread. The calls of `start_loop` are counted by where
-- they stand: before the test of `loop_`, blocked in the wait, and returned.
pub record EventLoopThread : Type 0 where
  pub thread : ThreadPc
  pub loop_is_set : Bool
  pub testing : ℕ
  pub blocked : ℕ
  pub returned : ℕ

-- The constructor, which starts the thread.
abbrev pub new_event_loop_thread : EventLoopThread
new_event_loop_thread = record {
  thread = building;
  loop_is_set = false;
  testing = 0;
  blocked = 0;
  returned = 0;
}

-- `cond_.notify_one()`
abbrev pub wake_one : (blocked testing : ℕ) → ℕ × ℕ
wake_one zero testing = (zero, testing)
wake_one (suc k) testing = (k, testing + 1)

-- `loop_ = &loop; cond_.notify_one();` under the mutex
unfoldable pub publish_loop : EventLoopThread → EventLoopThread
publish_loop s =
    let (blocked, testing) = wake_one s.blocked s.testing in
    record s { thread = looping; loop_is_set = true; blocked = blocked; testing = testing }

pub data Step (s : EventLoopThread) : EventLoopThread → Type 0 where
  -- `start_loop`, and the two outcomes of the test of `loop_`; a wait may end with no notification.
  call_start_loop : Step s (record s { testing = s.testing + 1 })
  find_set :
      (k : ℕ)
      → s.testing ≡ suc k
      → s.loop_is_set ≡ true
      → Step s (record s { testing = k; returned = s.returned + 1 })
  find_null :
      (k : ℕ)
      → s.testing ≡ suc k
      → s.loop_is_set ≡ false
      → Step s (record s { testing = k; blocked = s.blocked + 1 })
  wake_spuriously :
      (k : ℕ) → s.blocked ≡ suc k → Step s (record s { blocked = k; testing = s.testing + 1 })
  -- `thread_func`
  build : s.thread ≡ building → Step s (record s { thread = publishing })
  publish : s.thread ≡ publishing → Step s (publish_loop s)
  finish : s.thread ≡ looping → Step s (record s { thread = finished })

pub data Reach : EventLoopThread → Type 0 where
  initial : Reach new_event_loop_thread
  next : {s t : EventLoopThread} → Reach s → Step s t → Reach t
