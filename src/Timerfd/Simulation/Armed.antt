-- ===== src/Timerfd/Simulation/Armed.antt =====
-- The simulated timer descriptors against what a timer descriptor is: each is armed for one
-- expiration at most, the last that it was given, and becomes readable once when that has come.
use penduo.Prelude.{
  ℕ, ◌+◌, ◌≡◌, refl, ◌⊎◌, inl, inr, pos, Bool, true, false, Option, none, some, List, [], ◌∷◌, ◌==◌,
  if◌then◌else◌, update, All, Bool-cases, arith,
}
use penduo.Timestamp.{Timestamp, eq, ge, valid}
use penduo.Timerfd.Simulation.{TimerEntry, TimerThread, precedes, erase, reset, round}
use penduo.Timerfd.Simulation.Sets.{
  contains, IsOrdered, insert-IsOrdered, erase-IsOrdered, contains-insert, contains-erase,
  contains-take, take-IsOrdered, due_count, write_each-take, not-contains_after,
}

abbrev pub entry_at : Timestamp → ℕ → TimerEntry
entry_at t fd = record { first = t; second = fd }

abbrev pub is_for : Option Timestamp → Timestamp → Bool
is_for none t = false
is_for (some u) t = eq t u

abbrev pub is_due : Timestamp → Option Timestamp → Bool
is_due now none = false
is_due now (some t) = ge now t

-- The set holds exactly the expirations that the descriptors are armed for, and an object remembers
-- the one that it is armed for.
pub record Armed (armed : ℕ → Option Timestamp) (t : TimerThread) : Type 0 where
  pub ordered : IsOrdered t.timer_set
  pub agrees :
      (fd : ℕ) (at : Timestamp) → contains (entry_at at fd) t.timer_set ≡ is_for (armed fd) at
  pub remembered :
      (fd : ℕ)
      → (armed fd ≡ none)
        ⊎ ((armed fd ≡ some (t.expiration_ts fd)) × (valid (t.expiration_ts fd) ≡ true))

module _ (armed : ℕ → Option Timestamp) (t : TimerThread) (v : Armed armed t) (write_fd : ℕ)
    (expiration : Timestamp) (meant : valid expiration ≡ true) where
  abbrev old : TimerEntry
  old = entry_at (t.expiration_ts write_fd) write_fd

  abbrev erased : List TimerEntry
  erased = if valid old.first then erase old t.timer_set else t.timer_set

  erased-IsOrdered : IsOrdered erased
  erased-IsOrdered = elim (Bool-cases (valid old.first)) [
    | inl some_old ↦ rw some_old (erase-IsOrdered old t.timer_set v.ordered)
    | inr no_old ↦ rw no_old v.ordered
  ]

  contains-erased :
      (fd : ℕ) (at : Timestamp)
      → contains (entry_at at fd) erased ≡ (if write_fd == fd then false else is_for (armed fd) at)
  contains-erased fd at = elim (Bool-cases (valid old.first)) [
    | inl some_old ↦ rw some_old (
        ground (
          arith,
          contains-erase (entry_at at fd) old t.timer_set v.ordered,
          v.agrees fd at,
          v.remembered write_fd,
        ))
    | inr no_old ↦ rw no_old (ground (arith, v.agrees fd at, v.remembered write_fd))
  ]

  -- After `reset` to a valid expiration the descriptor is armed for it and for nothing else, and the
  -- other descriptors are armed as before.
  pub reset-Armed : Armed (update armed write_fd (some expiration)) (reset write_fd expiration t)
  unfolding reset
  reset-Armed = record {
    ordered = insert-IsOrdered (entry_at expiration write_fd) erased erased-IsOrdered;
    agrees = λ fd at. ground (
      arith,
      contains-insert (entry_at at fd) (entry_at expiration write_fd) erased,
      contains-erased fd at,
    );
    remembered = λ fd. ground (arith, v.remembered fd);
  }

none-due_count :
    (fd : ℕ) (now : Timestamp) (xs : List TimerEntry)
    → ((at : Timestamp) → contains (entry_at at fd) xs ≡ false)
    → due_count fd now xs ≡ 0
unfolding due_count contains
none-due_count fd now [] h = refl
none-due_count fd now (x ∷ xs) h =
    ground (arith, h x.first, none-due_count fd now xs (λ at. ground (arith, h at)))

-- Behind the one entry of a descriptor there is none.
not-contains_twice :
    (fd : ℕ) (t at : Timestamp) (x : TimerEntry) (xs : List TimerEntry)
    → x.second ≡ fd
    → eq x.first t ≡ true
    → All (λ y. precedes x y ≡ true) xs
    → contains (entry_at at fd) (x ∷ xs) ≡ eq at t
    → contains (entry_at at fd) xs ≡ false
unfolding contains
not-contains_twice fd t at x xs same first after a = elim (Bool-cases (eq at x.first)) [
  | inl again ↦ not-contains_after x (entry_at at fd) xs (ground arith) after
  | inr other ↦ ground arith
]

armed-due_count :
    (fd : ℕ) (now t : Timestamp) (xs : List TimerEntry)
    → IsOrdered xs
    → ((at : Timestamp) → contains (entry_at at fd) xs ≡ eq at t)
    → due_count fd now xs ≡ (if ge now t then 1 else 0)
unfolding contains due_count
armed-due_count fd now t [] h a = ground (arith, a t)
armed-due_count fd now t (x ∷ xs) h a = elim (Bool-cases (x.second == fd)) [
  | inl same ↦
      let first : eq x.first t ≡ true = ground (arith, a x.first) in
      ground (
        arith,
        none-due_count fd now xs
            (λ at. not-contains_twice fd t at x xs (ground arith) first h.0 (a at)),
      )
  | inr other ↦ ground (arith, armed-due_count fd now t xs h.1 (λ at. ground (arith, a at)))
]

-- A descriptor that is armed once is due once at most.
due_count-is_due :
    (fd : ℕ) (now : Timestamp) (o : Option Timestamp) (xs : List TimerEntry)
    → IsOrdered xs
    → ((at : Timestamp) → contains (entry_at at fd) xs ≡ is_for o at)
    → due_count fd now xs ≡ (if is_due now o then 1 else 0)
due_count-is_due fd now none xs h a = none-due_count fd now xs a
due_count-is_due fd now (some t) xs h a = armed-due_count fd now t xs h a

unfoldable pub clear_due : Timestamp → Option Timestamp → Option Timestamp
clear_due now o = if is_due now o then none else o

-- A round in which `poll` does not fail disarms the descriptors that are due at `now` and writes
-- eight bytes to each of them; the other descriptors stay armed as they are and their pipes as full.
pub round-Armed :
    (armed : ℕ → Option Timestamp) (t : TimerThread) (ret : ℕ) (now : Timestamp)
    → Armed armed t
    → Armed (λ fd. clear_due now (armed fd)) (round (pos ret) now t)
      × ((fd : ℕ)
          → (round (pos ret) now t).pipe_bytes fd
            ≡ t.pipe_bytes fd + (if is_due now (armed fd) then 8 else 0))
unfolding round clear_due
round-Armed armed t ret now v = (
  record {
    ordered = take-IsOrdered now t.timer_set v.ordered;
    agrees = λ fd at.
        ground (arith, contains-take now (entry_at at fd) t.timer_set v.ordered, v.agrees fd at);
    remembered = λ fd. ground (arith, v.remembered fd);
  },
  λ fd. ground (
    arith,
    write_each-take fd now t.timer_set t.pipe_bytes v.ordered,
    due_count-is_due fd now (armed fd) t.timer_set v.ordered (v.agrees fd),
  ),
)
