-- ===== src/TimerQueue/Scheduled.antt =====
-- A timer reaches the queue from whatever thread it is added.
use penduo.Prelude.{
  ℕ, ◌≡◌, refl, sym, ◌∙◌, inl, inr, ◌⊎◌, false, Bool-cases, List, [], ◌∷◌, ◌++◌, ok, arith, All,
}
use penduo.TimerQueue.{Timer, Entry, before, set_insert, TimerQueue, add_each}
use penduo.TimerQueue.Add.{Inv, entry_of, added, add_timer_in_loop-Inv}
use penduo.TimerQueue.Schedule.{
  Scheduler, is_in_loop_thread, queue_timer, run_in_loop, add_timer, do_pending_functors, Request,
  timer_of, add_timers,
}

-- The set has an entry with the expiration and the address of this one: the same timer.
abbrev pub Holds : Entry → List Entry → Type 0
Holds e [] = ⊥
Holds e (x ∷ xs) = ((before e x ≡ false) × (before x e ≡ false)) ⊎ Holds e xs

set_insert-Holds : (e : Entry) (xs : List Entry) → Holds e (set_insert e xs)
unfolding set_insert
set_insert-Holds e [] = inl (ground arith, ground arith)
set_insert-Holds e (x ∷ xs) = elim (Bool-cases (before e x)) [
  | inl p ↦ rw p (inl (ground arith, ground arith))
  | inr p ↦ elim (Bool-cases (before x e)) [
    | inl q ↦ rw (p, q) (inr (set_insert-Holds e xs))
    | inr q ↦ rw (p, q) (inl (p, q))
  ]
]

Holds-later :
    (e y : Entry) (xs ys : List Entry)
    → (Holds e xs → Holds e ys)
    → Holds e (y ∷ xs)
    → Holds e (y ∷ ys)
Holds-later e y xs ys f (inl same) = inl same
Holds-later e y xs ys f (inr h) = inr (f h)

Holds-set_insert : (e x : Entry) (xs : List Entry) → Holds e xs → Holds e (set_insert x xs)
unfolding set_insert
Holds-set_insert e x [] h = absurd h
Holds-set_insert e x (y ∷ ys) h = elim (Bool-cases (before x y)) [
  | inl p ↦ rw p (inr h)
  | inr p ↦ elim (Bool-cases (before y x)) [
    | inl q ↦ rw (p, q) (Holds-later e y ys (set_insert x ys) (Holds-set_insert e x ys) h)
    | inr q ↦ rw (p, q) h
  ]
]

abbrev pub Queued : Entry → List Timer → Type 0
Queued e [] = ⊥
Queued e (t ∷ ts) = (e ≡ entry_of t) ⊎ Queued e ts

Queued-push_back : (t : Timer) (ts : List Timer) → Queued (entry_of t) (ts ++ t ∷ [])
Queued-push_back t [] = inl refl
Queued-push_back t (x ∷ xs) = inr (Queued-push_back t xs)

Queued-append : (e : Entry) (ts : List Timer) (t : Timer) → Queued e ts → Queued e (ts ++ t ∷ [])
Queued-append e [] t h = absurd h
Queued-append e (x ∷ xs) t (inl h) = inl h
Queued-append e (x ∷ xs) t (inr h) = inr (Queued-append e xs t h)

-- The timer is in the set, or its functor waits.
abbrev Planned : Entry → Scheduler → Type 0
Planned e s = Holds e s.queue.timer_list ⊎ Queued e s.pending_functors

record Kept (s s' : Scheduler) : Type 0 where
  inv : Inv s'.queue
  still : (e : Entry) → Planned e s → Planned e s'
  same_thread : s'.queue.thread_id ≡ s.queue.thread_id

added-Kept :
    (t : Timer) (s : Scheduler)
    → Inv (added t s.queue)
    → Kept s (record s { queue = added t s.queue })
added-Kept t s v = record {
  inv = v;
  still = λ x h. elim h [
    | inl a ↦ inl (Holds-set_insert x (entry_of t) s.queue.timer_list a)
    | inr b ↦ inr b
  ];
  same_thread = refl;
}

queue_timer-queue :
    (current : ℕ) (t : Timer) (s : Scheduler) → (queue_timer current t s).queue ≡ s.queue
unfolding queue_timer
queue_timer-queue current t s = ground arith

queue_timer-pending :
    (current : ℕ) (t : Timer) (s : Scheduler)
    → (queue_timer current t s).pending_functors ≡ s.pending_functors ++ t ∷ []
unfolding queue_timer
queue_timer-pending current t s = ground arith

queue_timer-Kept :
    (current : ℕ) (t : Timer) (s : Scheduler) → Inv s.queue → Kept s (queue_timer current t s)
queue_timer-Kept current t s v = record {
  inv = rw (queue_timer-queue current t s) v;
  still = λ x h.
      rw (queue_timer-queue current t s, queue_timer-pending current t s)
        (elim h as (λ _. Holds x s.queue.timer_list ⊎ Queued x (s.pending_functors ++ t ∷ [])) [
          | inl a ↦ inl a
          | inr b ↦ inr (Queued-append x s.pending_functors t b)
        ]);
  same_thread = rw (queue_timer-queue current t s) refl;
}

run_in_loop-Kept :
    (current : ℕ) (t : Timer) (s : Scheduler)
    → Inv s.queue
    → (s' : Scheduler) × (run_in_loop current t s ≡ ok s') × Kept s s' × Planned (entry_of t) s'
unfolding run_in_loop
run_in_loop-Kept current t s v = elim (Bool-cases (is_in_loop_thread current s)) [
  | inl here ↦
      let (e, w) = add_timer_in_loop-Inv current t s.queue (ground (arith, here)) v in
      (
        record s { queue = added t s.queue },
        rw (here, e) refl,
        added-Kept t s w,
        inl (set_insert-Holds (entry_of t) s.queue.timer_list),
      )
  | inr away ↦ (
    queue_timer current t s,
    rw away refl,
    queue_timer-Kept current t s v,
    inr (rw (queue_timer-pending current t s) (Queued-push_back t s.pending_functors)),
  )
]

-- The requests are served: the timer of each is in the set or waits.
add_timers-Kept :
    (rs : List Request) (s : Scheduler)
    → Inv s.queue
    → (s' : Scheduler) × (add_timers rs s ≡ ok s')
      × Kept s s'
      × All (λ r. Planned (entry_of (timer_of r)) s') rs
unfolding add_timers add_timer
add_timers-Kept [] s v = (s, refl, record { inv = v; still = λ x h. h; same_thread = refl }, tt)
add_timers-Kept (r ∷ rs) s v =
    let (s₁, e₁, k₁, p₁) = run_in_loop-Kept r.thread (timer_of r) s v in
    let (s', e, k, ps) = add_timers-Kept rs s₁ k₁.inv in
    (
      s',
      rw e₁ e,
      record {
        inv = k.inv;
        still = λ x h. k.still x (k₁.still x h);
        same_thread = k.same_thread ∙ k₁.same_thread;
      },
      (k.still (entry_of (timer_of r)) p₁, ps),
    )

-- Each functor adds its timer.
record Drained (ts : List Timer) (q q' : TimerQueue) : Type 0 where
  inv : Inv q'
  old : (e : Entry) → Holds e q.timer_list → Holds e q'.timer_list
  new : (e : Entry) → Queued e ts → Holds e q'.timer_list

add_each-Drained :
    (current : ℕ) (ts : List Timer) (q : TimerQueue)
    → current ≡ q.thread_id
    → Inv q
    → (q' : TimerQueue) × (add_each current ts q ≡ ok q') × Drained ts q q'
unfolding add_each
add_each-Drained current [] q here v =
    (q, refl, record { inv = v; old = λ e h. h; new = λ e h. absurd h })
add_each-Drained current (t ∷ ts) q here v =
    let (e₁, w) = add_timer_in_loop-Inv current t q here v in
    let (q', e, d) = add_each-Drained current ts (added t q) here w in
    (
      q',
      rw e₁ e,
      record {
        inv = d.inv;
        old = λ x h. d.old x (Holds-set_insert x (entry_of t) q.timer_list h);
        new = λ x h. elim h [
          | inl same ↦ d.old x (rw same (set_insert-Holds (entry_of t) q.timer_list))
          | inr later ↦ d.new x later
        ];
      },
    )

All-map :
    (s : Scheduler) (q : TimerQueue) (rs : List Request)
    → ((e : Entry) → Planned e s → Holds e q.timer_list)
    → All (λ r. Planned (entry_of (timer_of r)) s) rs
    → All (λ r. Holds (entry_of (timer_of r)) q.timer_list) rs
All-map s q [] f h = tt
All-map s q (r ∷ rs) f h = (f (entry_of (timer_of r)) h.0, All-map s q rs f h.1)

-- Whatever threads add timers, no call fails, and once the loop's thread has run its functors, which
-- does not fail either, the queue is empty of functors and well-formed, and its set holds the timer
-- of every call.
pub add_timers-Scheduled :
    (current : ℕ) (rs : List Request) (s : Scheduler)
    → Inv s.queue
    → current ≡ s.queue.thread_id
    → (s₁ s₂ : Scheduler) × (add_timers rs s ≡ ok s₁)
      × (do_pending_functors current s₁ ≡ ok s₂)
      × Inv s₂.queue
      × (s₂.pending_functors ≡ [])
      × All (λ r. Holds (entry_of (timer_of r)) s₂.queue.timer_list) rs
unfolding do_pending_functors
add_timers-Scheduled current rs s v here =
    let (s₁, e, k, p) = add_timers-Kept rs s v in
    let here₁ : current ≡ s₁.queue.thread_id = here ∙ sym k.same_thread in
    let (q, e', d) = add_each-Drained current s₁.pending_functors s₁.queue here₁ k.inv in
    (
      s₁,
      record s₁ { queue = q; pending_functors = []; calling_pending_functors = false },
      e,
      ground (arith, here₁, e'),
      d.inv,
      refl,
      All-map s₁ q rs (λ x h. elim h [ inl a ↦ d.old x a | inr b ↦ d.new x b ]) p,
    )
