-- ===== src/Reactor/Remove.antt =====
-- `Channel::remove` through `Poller::remove_channel`: the entry of the channel is overwritten by the
-- last one, whose channel gets the index.
use penduo.Prelude.{
  ℕ, suc, ◌-◌, ◌<◌, ◌≡◌, inl, inr, ℤ, pos, negsuc, eqb_ℤ, false, none, some, List, arith, ltb, ◌==◌,
  if◌then◌else◌, update, Bool-cases, length, length-set, get_elem?, set, pop_back, get_elem?-set,
  get_elem?-pop_back,
}
use penduo.Reactor.{PollFd, Reactor, real_fd, entry, set_chan, erase_fd, drop_back}
use penduo.Reactor.Invariant.{
  IsRegistered, Inv, Slot, slot, to_slot, slot-lt, index_of, index_injective,
}

-- The state after the entry is erased from the map, before the vector changes.
abbrev pub unmarked : ℕ → Reactor → Reactor
unmarked c r = set_chan r c (record (r.chans c) { added_to_loop = false })

abbrev pub unmapped : ℕ → Reactor → Reactor
unmapped c r = erase_fd ((unmarked c r).chans c).fd (unmarked c r)

slot-pop_back :
    (ps : List PollFd) (i : ℕ)
    → slot (pop_back ps) (pos i) ≡ (if ltb (suc i) (length ps) then slot ps (pos i) else none)
slot-pop_back ps i = ground (arith, get_elem?-pop_back ps i)

slot-pop_back_keep :
    (ps : List PollFd) (z : ℤ) (s : Slot)
    → slot ps z ≡ some s
    → (eqb_ℤ z (pos (length ps - 1)) ≡ false)
    → slot (pop_back ps) z ≡ some s
slot-pop_back_keep ps (negsuc i) s h n = ground arith
slot-pop_back_keep ps (pos i) s h n = let b = slot-lt ps i s h in ground (arith, slot-pop_back ps i)

module _ (r : Reactor) (fd c idx : ℕ) (v : Inv r) (known : r.channels fd ≡ some c)
    (at_idx : (r.chans c).pollfds_index ≡ pos idx) where
  reg : IsRegistered r fd c
  reg = v.mapped fd c known

  module _ (last : idx ≡ length r.pollfds - 1) where
    abbrev pub popped : Reactor
    popped = drop_back (unmapped c r)

    popped-mapped : (fd' d : ℕ) → popped.channels fd' ≡ some d → IsRegistered popped fd' d
    popped-mapped fd' d m = old (ground (arith, reg)) (ground (arith, reg))
      where
        old : r.channels fd' ≡ some d → (fd == fd') ≡ false → IsRegistered popped fd' d
        old h n =
            let g = v.mapped fd' d h in
            ground (
              arith,
              reg,
              index_injective r fd fd' c d v known h,
              slot-pop_back_keep r.pollfds (r.chans d).pollfds_index
                  (to_slot (entry (r.chans d).fd (r.chans d).events)),
            )

    popped-polled :
        (i : ℕ) (s : Slot)
        → slot popped.pollfds (pos i) ≡ some s
        → index_of popped.chans (popped.channels (real_fd s.fd)) ≡ some (pos i)
    popped-polled i s h = ground (arith, reg, slot-pop_back r.pollfds i, v.polled i s)

    pub popped-Inv : Inv popped
    popped-Inv = record { mapped = popped-mapped; polled = popped-polled }

-- `std::swap(ps[idx], ps.back()); ps.pop_back();`
abbrev pub swap_pop : List PollFd → ℕ → PollFd → PollFd → List PollFd
swap_pop ps idx moved removed = pop_back (set (set ps idx moved) (length ps - 1) removed)

-- The last entry in the place of the one at `idx`, with its channel `d`.
abbrev pub moved_down : ℕ → ℕ → PollFd → PollFd → Reactor → Reactor
moved_down idx d moved removed r = record r {
  poller = record r.poller { pollfds = swap_pop r.pollfds idx moved removed };
  chans = update r.chans d (record (r.chans d) { pollfds_index = pos idx });
}

get_elem?-swap_pop :
    (ps : List PollFd) (idx : ℕ) (moved removed : PollFd) (j : ℕ)
    → idx < length ps
    → get_elem? (swap_pop ps idx moved removed) j ≡ (
        if ltb (suc j) (length ps) then (if idx == j then some moved else get_elem? ps j) else none)
get_elem?-swap_pop ps idx moved removed j h = ground (
  arith,
  get_elem?-pop_back (set (set ps idx moved) (length ps - 1) removed) j,
  get_elem?-set (set ps idx moved) (length ps - 1) removed j,
  get_elem?-set ps idx moved j,
  length-set (set ps idx moved) (length ps - 1) removed,
  length-set ps idx moved,
)

-- An entry that is neither the one removed nor the last stays.
slot-swap_pop_keep :
    (ps : List PollFd) (idx : ℕ) (moved removed : PollFd) (z : ℤ) (s : Slot)
    → idx < length ps
    → slot ps z ≡ some s
    → eqb_ℤ z (pos (length ps - 1)) ≡ false
    → eqb_ℤ z (pos idx) ≡ false
    → slot (swap_pop ps idx moved removed) z ≡ some s
slot-swap_pop_keep ps idx moved removed (negsuc i) s lt h n n' = ground arith
slot-swap_pop_keep ps idx moved removed (pos i) s lt h n n' =
    let b = slot-lt ps i s h in ground (arith, get_elem?-swap_pop ps idx moved removed i)

module _ (r : Reactor) (fd c idx d : ℕ) (moved removed : PollFd) (v : Inv r)
    (known : r.channels fd ≡ some c) (at_idx : (r.chans c).pollfds_index ≡ pos idx)
    (inside : suc idx < length r.pollfds)
    (back : get_elem? r.pollfds (length r.pollfds - 1) ≡ some moved)
    (owner : r.channels (real_fd moved.fd) ≡ some d) where
  abbrev pub swapped : Reactor
  swapped = moved_down idx d moved removed (unmapped c r)

  moved_index : (r.chans d).pollfds_index ≡ pos (length r.pollfds - 1)
  moved_index = ground (arith, v.polled (length r.pollfds - 1) (to_slot moved))

  own : IsRegistered r fd c
  own = v.mapped fd c known

  moved_reg : IsRegistered r (real_fd moved.fd) d
  moved_reg = v.mapped (real_fd moved.fd) d owner

  apart : (c == d) ≡ false
  apart = ground (arith, moved_index)

  at_new_place : get_elem? (swap_pop r.pollfds idx moved removed) idx ≡ some moved
  at_new_place = ground (arith, get_elem?-swap_pop r.pollfds idx moved removed idx)

  swapped-mapped : (fd' x : ℕ) → swapped.channels fd' ≡ some x → IsRegistered swapped fd' x
  swapped-mapped fd' x m = old (ground (arith, own)) (ground (arith, own))
    where
      old : r.channels fd' ≡ some x → (fd == fd') ≡ false → IsRegistered swapped fd' x
      old h n =
          let g = v.mapped fd' x h in
          elim (Bool-cases (d == x)) [
            | inl same ↦ ground (arith, own, moved_reg, apart, moved_index, at_new_place)
            | inr other ↦ ground (
              arith,
              own,
              apart,
              moved_index,
              index_injective r fd fd' c x v known h,
              index_injective r (real_fd moved.fd) fd' d x v owner h,
              slot-swap_pop_keep r.pollfds idx moved removed (r.chans x).pollfds_index
                  (to_slot (entry (r.chans x).fd (r.chans x).events)),
            )
          ]

  swapped-polled :
      (i : ℕ) (s : Slot)
      → slot swapped.pollfds (pos i) ≡ some s
      → index_of swapped.chans (swapped.channels (real_fd s.fd)) ≡ some (pos i)
  swapped-polled i s h = elim (Bool-cases (idx == i)) [
    | inl same ↦ ground (arith, own, apart, moved_index, moved_reg, at_new_place)
    | inr other ↦ ground (
      arith,
      own,
      apart,
      moved_index,
      moved_reg,
      get_elem?-swap_pop r.pollfds idx moved removed i,
      v.polled i s,
    )
  ]

  pub swapped-Inv : Inv swapped
  swapped-Inv = record { mapped = swapped-mapped; polled = swapped-polled }
