-- ===== src/EventLoop/Invariant.antt =====
-- What holds of the loop between two accesses.
use penduo.Prelude.{
  ℕ, suc, ◌+◌, ◌<◌, ◌≡◌, refl, ◌≢◌, Bool, true, false, not, List, [], ◌∷◌, ◌++◌, arith,
}
use mathlib.Core.List.{append_assoc, append-nil}
use penduo.EventLoop.{
  EventLoop, Pc, outside, test, polling, handling, draining, running, waking, new_loop,
  needs_wakeup, Step, other_push, other_wakeup, other_skip, other_quit_wakeup, early_push,
  early_quit, start, stop, poll, poll_wakeup, poll_other, read_wakeup, callback_push, callback_quit,
  drain, swap, run, nested_push, nested_wakeup, nested_skip, nested_quit, finish, Reach, initial,
  next,
}

-- The functors of the local vector that are left.
abbrev pub remaining : Pc → List ℕ
remaining (running rest) = rest
remaining (waking rest) = rest
remaining _ = []

-- Whether the loop's thread will drain the queue before it polls again.
abbrev pub will_drain : Pc → Bool
will_drain (handling _) = true
will_drain draining = true
will_drain _ = false

-- A message that the loop's thread is about to write.
abbrev pub own_wakeup : Pc → ℕ
own_wakeup (waking _) = 1
own_wakeup _ = 0

abbrev pub in_functors : Pc → Bool
in_functors draining = true
in_functors (running _) = true
in_functors (waking _) = true
in_functors _ = false

abbrev pub is_outside : Pc → Bool
is_outside outside = true
is_outside _ = false

pub record Inv (s : EventLoop) : Type 0 where
  pub calling : s.calling_pending_functors ≡ in_functors s.pc
  pub looping : s.looping ≡ not (is_outside s.pc)
  pub fifo : s.ran ++ (remaining s.pc ++ s.pending_functors) ≡ s.queued
  pub noticed :
      s.early ≡ false
      → will_drain s.pc ≡ false
      → s.pending_functors ≢ []
      → 0 < s.wakeups + s.pushers + own_wakeup s.pc
  pub woken : s.pc ≡ handling true → 0 < s.wakeups
  pub quit_noticed : s.pc ≡ polling → s.quit ≡ true → 0 < s.wakeups + s.quitters

-- The premise of a step, for the proofs that treat many kinds of step alike.
abbrev pub Guard : {s t : EventLoop} → Step s t → Type 0
Guard {s} (other_wakeup k e n) = s.pushers ≡ suc k
Guard {s} (other_skip k e n) = (s.pushers ≡ suc k) × (needs_wakeup false s ≡ false)
Guard {s} (other_quit_wakeup k e) = s.quitters ≡ suc k
Guard {s} (early_push cb e) = s.pc ≡ outside
Guard {s} (early_quit e) = s.pc ≡ outside
Guard {s} (start e l) = s.pc ≡ outside
Guard {s} (stop e q) = (s.pc ≡ test) × (s.quit ≡ true)
Guard {s} (poll e q) = (s.pc ≡ test) × (s.quit ≡ false)
Guard {s} (poll_wakeup k e n) = s.pc ≡ polling
Guard {s} (poll_other e) = s.pc ≡ polling
Guard {s} (read_wakeup k e n) = (s.pc ≡ handling true) × (s.wakeups ≡ suc k)
Guard {s} (callback_push cb w e) = s.pc ≡ handling w
Guard {s} (callback_quit w e) = s.pc ≡ handling w
Guard {s} (drain e) = s.pc ≡ handling false
Guard {s} (swap e) = s.pc ≡ draining
Guard {s} (run cb rest e) = s.pc ≡ running (cb ∷ rest)
Guard {s} (nested_push cb rest e) = s.pc ≡ running rest
Guard {s} (nested_wakeup rest e n) = s.pc ≡ waking rest
Guard {s} (nested_skip rest e n) = (s.pc ≡ waking rest) × (needs_wakeup true s ≡ false)
Guard {s} (nested_quit rest e) = s.pc ≡ running rest
Guard {s} (finish e) = s.pc ≡ running []
Guard _ = Unit {0}

pub guard : {s t : EventLoop} (st : Step s t) → Guard st
guard (other_wakeup k e n) = e
guard (other_skip k e n) = (e, n)
guard (other_quit_wakeup k e) = e
guard (early_push cb e) = e
guard (early_quit e) = e
guard (start e l) = e
guard (stop e q) = (e, q)
guard (poll e q) = (e, q)
guard (poll_wakeup k e n) = e
guard (poll_other e) = e
guard (read_wakeup k e n) = (e, n)
guard (callback_push cb w e) = e
guard (callback_quit w e) = e
guard (drain e) = e
guard (swap e) = e
guard (run cb rest e) = e
guard (nested_push cb rest e) = e
guard (nested_wakeup rest e n) = e
guard (nested_skip rest e n) = (e, n)
guard (nested_quit rest e) = e
guard (finish e) = e
guard _ = tt

module _ {s : EventLoop} (v : Inv s) where
  Step-calling : {t : EventLoop} → Step s t → t.calling_pending_functors ≡ in_functors t.pc
  Step-calling (other_push cb) = v.calling
  Step-calling st = ground (arith, guard st, v.calling)

  Step-looping : {t : EventLoop} → Step s t → t.looping ≡ not (is_outside t.pc)
  Step-looping (other_push cb) = v.looping
  Step-looping st = ground (arith, guard st, v.looping)

  Step-noticed :
      {t : EventLoop}
      → Step s t
      → t.early ≡ false
      → will_drain t.pc ≡ false
      → t.pending_functors ≢ []
      → 0 < t.wakeups + t.pushers + own_wakeup t.pc
  Step-noticed (other_push cb) e w n = omega arith
  Step-noticed st e w n = ground (arith, guard st, v.noticed, v.calling)

  Step-woken : {t : EventLoop} → Step s t → t.pc ≡ handling true → 0 < t.wakeups
  Step-woken (other_push cb) p = v.woken p
  Step-woken (poll_wakeup k e n) p = omega (arith, n)
  Step-woken st p = ground (arith, guard st, v.woken)

  Step-quit_noticed :
      {t : EventLoop} → Step s t → t.pc ≡ polling → t.quit ≡ true → 0 < t.wakeups + t.quitters
  Step-quit_noticed (other_push cb) p q = v.quit_noticed p q
  Step-quit_noticed st p q = ground (arith, guard st, v.quit_noticed)

push_last :
    (a b c : List ℕ) (cb : ℕ) {q : List ℕ}
    → a ++ (b ++ c) ≡ q
    → a ++ (b ++ (c ++ cb ∷ [])) ≡ q ++ cb ∷ []
push_last a b c cb h = rw (← h) (simp append_assoc)

run_first : (a b c : List ℕ) (cb : ℕ) → (a ++ cb ∷ []) ++ (b ++ c) ≡ a ++ (cb ∷ b ++ c)
run_first a b c cb = simp append_assoc

module _ {s : EventLoop} (v : Inv s) where
  Step-fifo :
      {t : EventLoop} → Step s t → t.ran ++ (remaining t.pc ++ t.pending_functors) ≡ t.queued
  Step-fifo (other_push cb) = push_last s.ran (remaining s.pc) s.pending_functors cb v.fifo
  Step-fifo (early_push cb e) =
      ground (arith, push_last s.ran (remaining s.pc) s.pending_functors cb v.fifo)
  Step-fifo (callback_push cb w e) =
      ground (arith, push_last s.ran (remaining s.pc) s.pending_functors cb v.fifo)
  Step-fifo (nested_push cb rest e) =
      push_last s.ran rest s.pending_functors cb (ground (arith, v.fifo))
  Step-fifo (swap e) = ground (arith, append-nil s.pending_functors, v.fifo)
  Step-fifo (run cb rest e) = ground (arith, run_first s.ran rest s.pending_functors cb, v.fifo)
  Step-fifo st = ground (arith, guard st, v.fifo)

  pub Step-Inv : {t : EventLoop} → Step s t → Inv t
  Step-Inv st = record {
    calling = Step-calling v st;
    looping = Step-looping v st;
    fifo = Step-fifo st;
    noticed = Step-noticed v st;
    woken = Step-woken v st;
    quit_noticed = Step-quit_noticed v st;
  }

pub new_loop-Inv : Inv new_loop
new_loop-Inv = record {
  calling = refl;
  looping = refl;
  fifo = refl;
  noticed = λ e w n. absurd (n refl);
  woken = λ p. ground arith;
  quit_noticed = λ p q. ground arith;
}

-- Every reachable state meets the invariant.
pub Reach-Inv : {s : EventLoop} → Reach s → Inv s
Reach-Inv initial = new_loop-Inv
Reach-Inv (next r st) = Step-Inv (Reach-Inv r) st
