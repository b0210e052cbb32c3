-- ===== src/EventLoopThread/Handshake.antt =====
-- What `start_loop` promises, and what becomes of it when the loop ends or two threads call it.
use penduo.Prelude.{
  ℕ, zero, suc, ◌+◌, ◌-◌, if◌then◌else◌, ◌≤◌, ◌<◌, ◌≡◌, refl, ◌⊎◌, inl, inr, Bool, true, false,
  arith,
}
use penduo.EventLoopThread.{
  ThreadPc, building, publishing, looping, finished, EventLoopThread, publish_loop, Step, Reach,
  initial, next, call_start_loop, find_set, find_null, wake_spuriously, build, publish, finish,
}

-- The loop exists or has existed.
abbrev pub is_published : ThreadPc → Bool
is_published building = false
is_published publishing = false
is_published looping = true
is_published finished = true

pub record Inv (s : EventLoopThread) : Type 0 where
  pub set_is_published : s.loop_is_set ≡ is_published s.thread
  pub none_before : s.loop_is_set ≡ false → s.returned ≡ 0
  pub none_blocked : s.loop_is_set ≡ true → s.testing + s.blocked + s.returned ≤ 1 → s.blocked ≡ 0

Step-Inv : {s t : EventLoopThread} → Step s t → Inv s → Inv t
unfolding publish_loop
Step-Inv call_start_loop v = ground (arith, v.none_before, v.none_blocked)
Step-Inv (find_set k e l) v = ground (arith, v.none_before, v.none_blocked)
Step-Inv (find_null k e l) v = ground (arith, v.none_before, v.none_blocked)
Step-Inv (wake_spuriously k e) v = ground (arith, v.none_before, v.none_blocked)
Step-Inv (build e) v = ground (arith, v.none_before, v.none_blocked)
Step-Inv (publish e) v = ground (arith, v.none_before, v.none_blocked)
Step-Inv (finish e) v = ground (arith, v.none_before, v.none_blocked)

pub Reach-Inv : {s : EventLoopThread} → Reach s → Inv s
Reach-Inv initial = ground arith
Reach-Inv (next r st) = Step-Inv st (Reach-Inv r)

-- A call of `start_loop` has returned only if the thread has built its loop and stored it, so that
-- the pointer is not null.
pub returned_published :
    {s : EventLoopThread}
    → Reach s
    → 0 < s.returned
    → (s.loop_is_set ≡ true) × (is_published s.thread ≡ true)
returned_published r h = ground (arith, Reach-Inv r, (Reach-Inv r).none_before)

-- No lost notification: with one call of `start_loop` at most, that call is not blocked once the loop
-- is stored; if it has not returned, it can.
pub single_call_returns :
    {s : EventLoopThread}
    → Reach s
    → s.loop_is_set ≡ true
    → s.testing + s.blocked + s.returned ≡ 1
    → (s.returned ≡ 1) ⊎ ((t : EventLoopThread) × Step s t × (t.returned ≡ 1))
single_call_returns {s} r l one = go s.testing refl
  where
    unblocked : s.blocked ≡ 0
    unblocked = (Reach-Inv r).none_blocked l (omega arith)

    go :
        (n : ℕ)
        → s.testing ≡ n
        → (s.returned ≡ 1) ⊎ ((t : EventLoopThread) × Step s t × (t.returned ≡ 1))
    go zero e = inl (omega (arith, unblocked))
    go (suc k) e = inr (
      record s { testing = k; returned = s.returned + 1 },
      find_set k e l,
      omega (arith, unblocked),
    )

-- Some steps from a state, and how many of them are waits that end with no notification.
pub data Run (s : EventLoopThread) : EventLoopThread → Type 0 where
  done : Run s s
  further : {t u : EventLoopThread} → Run s t → Step t u → Run s u

abbrev pub is_spurious : {s t : EventLoopThread} → Step s t → Bool
is_spurious (wake_spuriously _ _) = true
is_spurious _ = false

unfoldable pub spurious_wakeups : {s t : EventLoopThread} → Run s t → ℕ
spurious_wakeups done = 0
spurious_wakeups (further r st) =
    if is_spurious st then suc (spurious_wakeups r) else spurious_wakeups r

-- Whether the thread has its one notification still to give.
abbrev owes : ThreadPc → ℕ
owes building = 1
owes publishing = 1
owes looping = 0
owes finished = 0

Step-blocked :
    {s t : EventLoopThread} (n : ℕ) (st : Step s t)
    → is_spurious st ≡ false
    → n ≤ s.blocked + (1 - owes s.thread)
    → n ≤ t.blocked + (1 - owes t.thread)
unfolding publish_loop
Step-blocked n call_start_loop h v = v
Step-blocked n (find_set k e l) h v = v
Step-blocked n (find_null k e l) h v = omega (arith, v)
Step-blocked n (wake_spuriously k e) h v = absurd (ground (arith, h))
Step-blocked n (build e) h v = ground (arith, e, v)
Step-blocked n (publish e) h v = ground (arith, e, v)
Step-blocked n (finish e) h v = ground (arith, e, v)

Run-blocked :
    {s t : EventLoopThread} (n : ℕ) (r : Run s t)
    → spurious_wakeups r ≡ 0
    → n ≤ s.blocked + (1 - owes s.thread)
    → n ≤ t.blocked + (1 - owes t.thread)
unfolding spurious_wakeups
Run-blocked n done h v = v
Run-blocked n (further r st) h v =
    Step-blocked n st (ground (arith, h)) (Run-blocked n r (ground (arith, h)) v)

-- One notification for two calls: in every reachable state in which the loop is built, not stored, and
-- two calls or more are blocked, the thread's next step stores it and wakes exactly one of them; and,
-- whatever steps follow, unless a wait ends with no notification all of them but one stay blocked.
pub second_call_blocked :
    {s : EventLoopThread} (k : ℕ)
    → Reach s
    → s.thread ≡ publishing
    → s.blocked ≡ suc (suc k)
    → ((t : EventLoopThread) × Step s t × (t.loop_is_set ≡ true) × (t.blocked ≡ suc k))
      × ((u : EventLoopThread) (r : Run s u) → spurious_wakeups r ≡ 0 → suc k ≤ u.blocked)
unfolding publish_loop
second_call_blocked {s} k r p e = (
  (publish_loop s, publish p, refl, ground arith),
  λ u steps none. omega (arith, Run-blocked (suc (suc k)) steps none (ground (arith, p, e))),
)
