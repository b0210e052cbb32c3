-- ===== src/EventLoop/Rounds.antt =====
-- What comes of the queue while the loop runs on, whatever the other threads do in between.
use penduo.Prelude.{
  ℕ, suc, ◌+◌, ◌-◌, ◌≤◌, ◌≡◌, refl, sym, ap, ◌∙◌, if◌then◌else◌, Bool, true, false, List, [], ◌∷◌,
  ◌++◌, arith,
}
use mathlib.Core.List.{append_assoc, append-nil}
use penduo.EventLoop.{
  EventLoop, Pc, outside, test, polling, handling, draining, running, waking, wakeup, Step,
  other_push, early_push, start, stop, poll, poll_wakeup, poll_other, read_wakeup, callback_push,
  drain, swap, run, nested_wakeup, finish, Reach, next,
}
use penduo.EventLoop.Invariant.{Inv, guard, Reach-Inv}

-- Some steps from a state.
pub data Run (s : EventLoop) : EventLoop → Type 0 where
  done : Run s s
  further : {t u : EventLoop} → Run s t → Step t u → Run s u

pub Reach-Run : {s t : EventLoop} → Reach s → Run s t → Reach t
Reach-Run r done = r
Reach-Run r (further steps st) = next (Reach-Run r steps) st

abbrev pub IsPrefix : List ℕ → List ℕ → Type 0
IsPrefix a b = (more : List ℕ) × (b ≡ a ++ more)

-- The functors that have run when the loop is next at the head of its `while`, whoever queues more.
abbrev secured : EventLoop → List ℕ
secured s = elim s.pc [
  | outside ↦ s.ran
  | test ↦ s.ran
  | polling ↦ s.queued
  | handling _ ↦ s.queued
  | draining ↦ s.queued
  | running rest ↦ s.ran ++ rest
  | waking rest ↦ s.ran ++ rest
]

same : {a b : List ℕ} → b ≡ a → IsPrefix a b
same {a} e = ([], e ∙ sym (append-nil a))

-- Of a longer queue the same is secured, or more.
pushed :
    (s : EventLoop) (cb : ℕ)
    → IsPrefix (secured s) (secured (record s { queued = s.queued ++ cb ∷ [] }))
pushed s cb =
    elim s.pc
      as (λ pc.
        IsPrefix (secured (record s { pc = pc }))
          (secured (record s { pc = pc; queued = s.queued ++ cb ∷ [] }))) [
            | outside ↦ same refl
            | test ↦ same refl
            | polling ↦ (cb ∷ [], refl)
            | handling _ ↦ (cb ∷ [], refl)
            | draining ↦ (cb ∷ [], refl)
            | running rest ↦ same refl
            | waking rest ↦ same refl
          ]

module _ {s : EventLoop} (v : Inv s) where
  Step-secured : {t : EventLoop} → Step s t → IsPrefix (secured s) (secured t)
  Step-secured (other_push cb) = pushed s cb
  Step-secured (early_push cb e) = same (ground (arith, e))
  Step-secured (callback_push cb w e) = (cb ∷ [], ground (arith, e))
  Step-secured (poll e q) = (s.pending_functors, ground (arith, e, v.fifo))
  Step-secured (swap e) = same (ground (arith, e, v.fifo))
  Step-secured (run cb rest e) = same (ground (arith, e, append_assoc s.ran (cb ∷ []) rest))
  Step-secured (finish e) = same (ground (arith, e, append-nil s.ran))
  Step-secured st = same (ground (arith, guard st))

Run-secured : {s t : EventLoop} → Reach s → Run s t → IsPrefix (secured s) (secured t)
Run-secured r done = same refl
Run-secured {s} r (further {t} {u} steps st) =
    let (more, e) = Run-secured r steps in
    let (more', e') = Step-secured (Reach-Inv (Reach-Run r steps)) st in
    (more ++ more', e' ∙ ap (λ a. a ++ more') e ∙ append_assoc (secured s) more more')

-- Where the loop polls in a reachable state, and, after any steps of all threads, is at the head of its
-- `while`, every functor that was queued by then has run, first and in the order of the queue.
pub round_runs_queue :
    {s t : EventLoop} → Reach s → s.pc ≡ polling → Run s t → t.pc ≡ test → IsPrefix s.queued t.ran
round_runs_queue {s} {t} r p steps q =
    let (more, e) = Run-secured r steps in (more, ground (arith, p, q, e))

-- The steps of the loop's thread from the return of `poll` to that of `loop`, those of callbacks and
-- functors left out, and those into `loop` and into `poll`.
abbrev pub is_control : (s t : EventLoop) → Step s t → Bool
is_control _ _ (poll_wakeup _ _ _) = true
is_control _ _ (poll_other _) = true
is_control _ _ (read_wakeup _ _ _) = true
is_control _ _ (drain _) = true
is_control _ _ (swap _) = true
is_control _ _ (finish _) = true
is_control _ _ (stop _ _) = true
is_control _ _ _ = false

abbrev pub is_start : (s t : EventLoop) → Step s t → Bool
is_start _ _ (start _ _) = true
is_start _ _ _ = false

abbrev pub is_poll : (s t : EventLoop) → Step s t → Bool
is_poll _ _ (poll _ _) = true
is_poll _ _ _ = false

unfoldable pub steps_that : ((s t : EventLoop) → Step s t → Bool) → {s t : EventLoop} → Run s t → ℕ
steps_that p done = 0
steps_that p (further {t} {u} r st) = if p t u st then suc (steps_that p r) else steps_that p r

-- How many of the first kind are left.
abbrev pub left : Pc → ℕ
left polling = 6
left (handling true) = 5
left (handling false) = 4
left draining = 3
left (running _) = 2
left (waking _) = 2
left test = 1
left outside = 0

record Quitting (s t : EventLoop) (polls controls : ℕ) : Type 0 where
  told : t.quit ≡ true
  no_poll : polls ≡ 0
  few : controls + left t.pc ≤ left s.pc

Step-Quitting :
    {s t u : EventLoop} (k n : ℕ) (st : Step t u)
    → is_start t u st ≡ false
    → Quitting s t k n
    → Quitting s u (if is_poll t u st then suc k else k) (if is_control t u st then suc n else n)
Step-Quitting k n (other_push cb) h v = record { told = v.told; no_poll = v.no_poll; few = v.few }
Step-Quitting k n st h v = record {
  told = ground (arith, guard st, h, v.told);
  no_poll = ground (arith, guard st, h, v.told, v.no_poll);
  few = ground (arith, guard st, h, v.told, v.few);
}

Run-Quitting :
    {s t : EventLoop} (r : Run s t)
    → s.quit ≡ true
    → steps_that is_start r ≡ 0
    → Quitting s t (steps_that is_poll r) (steps_that is_control r)
unfolding steps_that
Run-Quitting done q h = record { told = q; no_poll = refl; few = omega arith }
Run-Quitting (further {t} {u} r st) q h =
    Step-Quitting (steps_that is_poll r) (steps_that is_control r) st (ground (arith, h))
      (Run-Quitting r q (ground (arith, h)))

-- The loop's thread can leave `loop`.
abbrev pub Leaves : EventLoop → Type 0
Leaves s = (t : EventLoop) × Run s t × (t.pc ≡ outside)

before : {s t u : EventLoop} → Step s t → Run t u → Run s u
before st done = further done st
before st (further r st') = further (before st r) st'

Leaves-before : {s t : EventLoop} → Step s t → Leaves t → Leaves s
Leaves-before st (u, r, e) = (u, before st r, e)

running-Leaves : (rest : List ℕ) (s : EventLoop) → s.pc ≡ running rest → s.quit ≡ true → Leaves s
running-Leaves [] s p q = Leaves-before (finish p) (_, further done (stop refl q), refl)
running-Leaves (cb ∷ rest) s p q =
    Leaves-before (run cb rest p)
      (running-Leaves rest (record s { pc = running rest; ran = s.ran ++ cb ∷ [] }) refl q)

handling-Leaves : (s : EventLoop) → s.pc ≡ handling false → s.quit ≡ true → Leaves s
handling-Leaves s p q =
    Leaves-before (drain p) (Leaves-before (swap refl) (running-Leaves s.pending_functors _ refl q))

quit-Leaves : (s : EventLoop) → Inv s → s.quit ≡ true → (pc : Pc) → s.pc ≡ pc → Leaves s
quit-Leaves s v q outside p = (s, done, p)
quit-Leaves s v q test p = (_, further done (stop p q), refl)
quit-Leaves s v q polling p =
    Leaves-before (poll_other p) (handling-Leaves (record s { pc = handling false }) refl q)
quit-Leaves s v q (handling true) p =
    let message : s.wakeups ≡ suc (s.wakeups - 1) = omega (arith, v.woken p) in
    Leaves-before (read_wakeup (s.wakeups - 1) p message) (handling-Leaves _ refl q)
quit-Leaves s v q (handling false) p = handling-Leaves s p q
quit-Leaves s v q draining p = Leaves-before (swap p) (running-Leaves s.pending_functors _ refl q)
quit-Leaves s v q (running rest) p = running-Leaves rest s p q
quit-Leaves s v q (waking rest) p =
    Leaves-before (nested_wakeup rest p (ground (arith, p, v.calling)))
      (running-Leaves rest (record (wakeup s) { pc = running rest }) refl q)

-- Where `quit` is set in a reachable state, over any steps of all threads that do not enter `loop`
-- anew: the request stays, the loop never polls again, its thread makes at most six steps of its own,
-- those of callbacks and functors left out, and it can leave `loop`.
pub quit_ends_loop :
    {s t : EventLoop}
    → Reach s
    → s.quit ≡ true
    → (r : Run s t) → steps_that is_start r ≡ 0
    → (t.quit ≡ true)
      × (steps_that is_poll r ≡ 0)
      × (steps_that is_control r + left t.pc ≤ left s.pc)
      × Leaves t
quit_ends_loop {s} {t} reach q r h =
    let v = Run-Quitting r q h in
    (v.told, v.no_poll, v.few, quit-Leaves t (Reach-Inv (Reach-Run reach r)) v.told t.pc refl)
