-- ===== src/TimerQueue/Expire.antt =====
-- `TimerQueue::handle_read`: what is due runs, what is not stays, and the descriptor is armed again.
use penduo.Prelude.{
  ℕ, ◌≡◌, refl, sym, ap, ◌∙◌, inl, inr, true, false, Option, none, some, List, [], ◌∷◌, ◌++◌, map,
  ok, arith, Bool-cases, All,
}
use penduo.Timestamp.{Timestamp, lt, le}
use penduo.TimerQueue.{
  Timer, Entry, TimerQueue, take_expired, first_of_list, run, run_each, rearm, handle_read,
}
use mathlib.Core.List.{append-nil, append_assoc}
use penduo.TimerQueue.Order.{IsSorted}
use penduo.TimerQueue.Add.{Inv, Running, Adds, add_each-Adds, inserted, inserted-append}

abbrev pub IsDue : Timestamp → Entry → Type 0
IsDue now e = le e.first now ≡ true

abbrev pub IsAhead : Timestamp → Entry → Type 0
IsAhead now e = lt now e.first ≡ true

-- The set in two: the entries that are due, whose timers are taken, and those that are ahead.
pub record Split (now : Timestamp) (es : List Entry) : Type 0 where
  pub due : List Entry
  pub whole : es ≡ due ++ (take_expired now es).1
  pub taken : (take_expired now es).0 ≡ map (λ e. e.second) due
  pub all_due : All (IsDue now) due
  pub all_ahead : All (IsAhead now) (take_expired now es).1
  pub rest_sorted : IsSorted (take_expired now es).1

IsAhead-of_sorted :
    (now : Timestamp) (e : Entry) (es : List Entry)
    → le e.first now ≡ false
    → IsSorted (e ∷ es)
    → All (IsAhead now) (e ∷ es)
IsAhead-of_sorted now e [] h s = (ground arith, tt)
IsAhead-of_sorted now e (x ∷ xs) h s =
    (ground arith, IsAhead-of_sorted now x xs (ground (arith, s.0)) s.1)

pub take_expired-Split : (now : Timestamp) (es : List Entry) → IsSorted es → Split now es
unfolding take_expired
take_expired-Split now [] s = record {
  due = [];
  whole = refl;
  taken = refl;
  all_due = tt;
  all_ahead = tt;
  rest_sorted = tt;
}
take_expired-Split now (e ∷ es) s = elim (Bool-cases (le e.first now)) [
  | inl due ↦
      let r = take_expired-Split now es s.1 in
      record {
        due = e ∷ r.due;
        whole = rw due (ap (◌∷◌ e) r.whole);
        taken = rw due (ap (◌∷◌ e.second) r.taken);
        all_due = (due, r.all_due);
        all_ahead = rw due r.all_ahead;
        rest_sorted = rw due r.rest_sorted;
      }
  | inr ahead ↦ record {
    due = [];
    whole = rw ahead refl;
    taken = rw ahead refl;
    all_due = tt;
    all_ahead = rw ahead (IsAhead-of_sorted now e es ahead s);
    rest_sorted = rw ahead s;
  }
]

-- The timers that the callbacks of these timers add.
unfoldable pub all_adds : (ℕ → List Timer) → List Timer → List Timer
all_adds adds [] = []
all_adds adds (t ∷ ts) = adds t.callback ++ all_adds adds ts

-- Each timer is run once, in order, whichever have run before.
run_each-Adds :
    (adds : ℕ → List Timer) (current : ℕ) (ts ran : List Timer) (q : TimerQueue)
    → current ≡ q.thread_id
    → Running q
    → (q' : TimerQueue) × (run_each adds current ts (ran, q) ≡ ok (ran ++ ts, q'))
      × Adds (all_adds adds ts) q q'
unfolding run_each run all_adds inserted
run_each-Adds adds current [] ran q here v = (
  q,
  ap (λ x. ok (x, q)) (sym (append-nil ran)),
  record { running = v; same_thread = refl; contents = refl },
)
run_each-Adds adds current (t ∷ ts) ran q here v =
    let (q₁, e₁, a₁) = add_each-Adds current (adds t.callback) q here v in
    let (q₂, e₂, a₂) =
      run_each-Adds adds current ts (ran ++ t ∷ []) q₁ (here ∙ sym a₁.same_thread) a₁.running in
    (
      q₂,
      rw e₁ (e₂ ∙ ap (λ x. ok (x, q₂)) (append_assoc ran (t ∷ []) ts)),
      record {
        running = a₂.running;
        same_thread = a₂.same_thread ∙ a₁.same_thread;
        contents =
            a₂.contents
            ∙ ap (inserted (all_adds adds ts)) a₁.contents
            ∙ sym (inserted-append (adds t.callback) (all_adds adds ts) q.timer_list);
      },
    )

rearm-Inv :
    (q : TimerQueue) (o : Option Timestamp)
    → first_of_list q.timer_list ≡ o
    → Running q
    → Inv (rearm o q)
rearm-Inv q none e v = record { sorted = v.sorted; armed_first = ground (arith, v.armed_or_not) }
rearm-Inv q (some t) e v = record { sorted = v.sorted; armed_first = sym e }

rearm-list : (q : TimerQueue) (o : Option Timestamp) → (rearm o q).timer_list ≡ q.timer_list
rearm-list q none = refl
rearm-list q (some t) = refl

rearm-thread : (q : TimerQueue) (o : Option Timestamp) → (rearm o q).thread_id ≡ q.thread_id
rearm-thread q none = refl
rearm-thread q (some t) = refl

handle_read_steps :
    (adds : ℕ → List Timer) (current : ℕ) (now : Timestamp) (q q₂ : TimerQueue) (ran : List Timer)
    → current ≡ q.thread_id
    → q₂.thread_id ≡ q.thread_id
    → run_each adds current
        (take_expired now q.timer_list).0
        ([], record q { timer_list = (take_expired now q.timer_list).1; armed = none })
      ≡ ok (ran, q₂)
    → handle_read adds current now q ≡ ok (ran, rearm (first_of_list q₂.timer_list) q₂)
unfolding handle_read
handle_read_steps adds current now q q₂ ran here same e = ground arith

-- What a call of `handle_read` at time `now` does.
pub record Handled (adds : ℕ → List Timer) (now : Timestamp) (q : TimerQueue) (ran : List Timer)
    (q' : TimerQueue) : Type 0 where
  pub inv : Inv q'
  pub split : Split now q.timer_list
  pub ran_due : ran ≡ map (λ e. e.second) split.due
  pub same_thread : q'.thread_id ≡ q.thread_id
  pub contents : q'.timer_list ≡ inserted (all_adds adds ran) (take_expired now q.timer_list).1

-- In the loop's thread `handle_read` never fails. It runs each timer that is due once, in the order
-- of expiration, and no other; what stays in the set is every timer that is ahead, with the timers
-- that the callbacks added; and the descriptor is armed for the first of them.
pub handle_read-Handled :
    (adds : ℕ → List Timer) (current : ℕ) (now : Timestamp) (q : TimerQueue)
    → current ≡ q.thread_id
    → Inv q
    → (ran : List Timer) × (q' : TimerQueue) × (handle_read adds current now q ≡ ok (ran, q'))
      × Handled adds now q ran q'
handle_read-Handled adds current now q here v =
    let s = take_expired-Split now q.timer_list v.sorted in
    let q₁ : TimerQueue = record q {
      timer_list = (take_expired now q.timer_list).1;
      armed = none;
    } in
    let (q₂, e, a) =
      run_each-Adds adds current (take_expired now q.timer_list).0 [] q₁ here
        (record { sorted = s.rest_sorted; armed_or_not = inl refl }) in
    (
      (take_expired now q.timer_list).0,
      rearm (first_of_list q₂.timer_list) q₂,
      handle_read_steps adds current now q q₂ _ here a.same_thread e,
      record {
        inv = rearm-Inv q₂ (first_of_list q₂.timer_list) refl a.running;
        split = s;
        ran_due = s.taken;
        same_thread = rearm-thread q₂ (first_of_list q₂.timer_list) ∙ a.same_thread;
        contents = rearm-list q₂ (first_of_list q₂.timer_list) ∙ a.contents;
      },
    )
