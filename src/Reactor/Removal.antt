-- ===== src/Reactor/Removal.antt =====
-- What `Channel::remove` does as a whole.
use penduo.Prelude.{
  ℕ, suc, ◌-◌, ◌<◌, ◌≡◌, refl, inl, inr, ℤ, pos, negsuc, true, false, none, some, arith, ◌==◌, ok,
  ◌>>=◌, List, ◌∙◌, Bool-cases, length, length-set, length-pop_back, get_elem?, set,
  get_elem?_total, bag, insert, bag-pop_back, bag-swap_pop,
}
use penduo.Channel.{Events, any, same}
use penduo.Reactor.{PollFd, Reactor, real_fd, entry, channel_remove, drop_back, swap_with_back}
use penduo.Reactor.Invariant.{
  IsRegistered, Inv, entry_owner, not-mapped_of_negsuc, to_slot, slot-lt,
}
use penduo.Reactor.Remove.{unmapped, popped, popped-Inv, swapped-Inv, swap_pop, moved_down}
use penduo.Reactor.Interest.{IsEntered}

-- The poller stays well-formed without the descriptor, and has lost the hidden entry of that
-- descriptor and, up to their order, no other; other descriptors lead to the channels that they led to,
-- and the removed channel keeps its index.
pub record Removed (c : ℕ) (r r' : Reactor) : Type 0 where
  pub inv : Inv r'
  pub gone : r'.channels (r.chans c).fd ≡ none
  pub elsewhere : (fd : ℕ) → ((r.chans c).fd == fd) ≡ false → r'.channels fd ≡ r.channels fd
  pub entries :
      (p : PollFd) × (p.fd ≡ negsuc (r.chans c).fd) × (bag r.pollfds ≡ insert p (bag r'.pollfds))
  pub shorter : suc (length r'.pollfds) ≡ length r.pollfds
  pub not_added : (r'.chans c).added_to_loop ≡ false
  pub others :
      (d : ℕ)
      → (c == d) ≡ false
      → r'.chans d ≡ record (r.chans d) { pollfds_index = (r'.chans d).pollfds_index }
  pub unindexed :
      (d : ℕ)
      → (c == d) ≡ false
      → (r.chans d).pollfds_index ≡ negsuc 0
      → (r'.chans d).pollfds_index ≡ negsuc 0
  pub same_fd : (r'.chans c).fd ≡ (r.chans c).fd
  pub same_loop : (r'.chans c).loop ≡ (r.chans c).loop
  pub same_self : r'.self ≡ r.self
  pub same_thread : r'.thread_id ≡ r.thread_id
  pub stale : (r'.chans c).pollfds_index ≡ (r.chans c).pollfds_index

entry_none : (fd : ℕ) (e : Events) → any e ≡ false → (entry fd e).fd ≡ negsuc fd
unfolding entry
entry_none fd e h = rw h

entry_events : (fd : ℕ) (e : Events) → (entry fd e).events ≡ e
unfolding entry
entry_events fd e = refl

same_refl : (e : Events) → same e e ≡ true
same_refl e = ground arith

length-swap_pop :
    (ps : List PollFd) (idx : ℕ) (moved removed : PollFd)
    → length (swap_pop ps idx moved removed) ≡ length ps - 1
length-swap_pop ps idx moved removed = omega (
  arith,
  length-pop_back (set (set ps idx moved) (length ps - 1) removed),
  length-set (set ps idx moved) (length ps - 1) removed,
  length-set ps idx moved,
)

swap_with_back-moved_down :
    (idx d : ℕ) (moved removed : PollFd) (r : Reactor)
    → get_elem? r.pollfds idx ≡ some removed
    → get_elem? r.pollfds (length r.pollfds - 1) ≡ some moved
    → r.channels (real_fd moved.fd) ≡ some d
    → (swap_with_back idx r >>= λ r'. ok (drop_back r')) ≡ ok (moved_down idx d moved removed r)
unfolding swap_with_back
swap_with_back-moved_down idx d moved removed r e e' o = ground arith

module _ (current c : ℕ) (r : Reactor) (idx : ℕ) (p : PollFd) (here : current ≡ r.thread_id)
    (known : IsEntered r c) (quiet : any (r.chans c).events ≡ false)
    (at_idx : (r.chans c).pollfds_index ≡ pos idx) (reg : IsRegistered r (r.chans c).fd c)
    (entry_at : get_elem? r.pollfds idx ≡ some p) (hidden : p.fd ≡ negsuc (r.chans c).fd)
    (events_at : p.events ≡ (r.chans c).events) (lt : idx < length r.pollfds) where
  removes_last :
      idx ≡ length r.pollfds - 1 → channel_remove current c r ≡ ok (drop_back (unmapped c r))
  unfolding channel_remove
  removes_last last = ground (arith, reg, same_refl (r.chans c).events)

  removes_inside :
      suc idx < length r.pollfds
      → channel_remove current c r ≡ (swap_with_back idx (unmapped c r) >>= λ r'. ok (drop_back r'))
  unfolding channel_remove
  removes_inside inside = ground (arith, reg, same_refl (r.chans c).events)

  module _ (v : Inv r) where
    on_last :
        idx ≡ length r.pollfds - 1
        → (r' : Reactor) × (channel_remove current c r ≡ ok r') × Removed c r r'
    on_last last = (
      popped r (r.chans c).fd c idx v known at_idx last,
      removes_last last,
      record {
        inv = popped-Inv r (r.chans c).fd c idx v known at_idx last;
        gone = ground arith;
        elsewhere = λ fd n. ground arith;
        entries = (p, hidden, bag-pop_back r.pollfds idx p (omega arith) entry_at);
        shorter = omega (arith, length-pop_back r.pollfds);
        not_added = ground arith;
        others = λ e n. ground arith;
        unindexed = λ e n h. ground arith;
        same_fd = ground arith;
        same_loop = ground arith;
        same_self = refl;
        same_thread = refl;
        stale = ground arith;
      },
    )

    module _ (inside : suc idx < length r.pollfds) (moved : PollFd)
        (back : get_elem? r.pollfds (length r.pollfds - 1) ≡ some moved) (d : ℕ)
        (owner : r.channels (real_fd moved.fd) ≡ some d) where
      other_fd : ((r.chans c).fd == real_fd moved.fd) ≡ false
      other_fd = ground (arith, v.polled (length r.pollfds - 1) (to_slot moved))

      other : (c == d) ≡ false
      other = ground (arith, v.polled (length r.pollfds - 1) (to_slot moved))

      on_inside : (r' : Reactor) × (channel_remove current c r ≡ ok r') × Removed c r r'
      on_inside = (
        moved_down idx d moved p (unmapped c r),
        removes_inside inside
            ∙ swap_with_back-moved_down idx d moved p (unmapped c r) entry_at back
                (ground (arith, other_fd)),
        record {
          inv = swapped-Inv r (r.chans c).fd c idx d moved p v known at_idx inside back owner;
          gone = ground arith;
          elsewhere = λ fd n. ground arith;
          entries = (
            p,
            hidden,
            bag-swap_pop r.pollfds idx (length r.pollfds - 1) moved p (omega arith) (omega arith)
                entry_at back,
          );
          shorter = omega (arith, length-swap_pop r.pollfds idx moved p);
          not_added = ground (arith, other);
          others = λ e n. ground (arith, other);
          unindexed =
              λ e n h. ground (arith, other, v.polled (length r.pollfds - 1) (to_slot moved));
          same_fd = ground (arith, other);
          same_loop = ground (arith, other);
          same_self = refl;
          same_thread = refl;
          stale = ground (arith, other);
        },
      )

  removes : (v : Inv r) → (r' : Reactor) × (channel_remove current c r ≡ ok r') × Removed c r r'
  removes v = elim (Bool-cases (idx == length r.pollfds - 1)) [
    | inl last ↦ on_last v (ground arith)
    | inr more ↦
        let (moved, back) = get_elem?_total r.pollfds (length r.pollfds - 1) (omega arith) in
        let (d, owner) = entry_owner r (length r.pollfds - 1) moved v back in
        on_inside v (ground arith) moved back d owner
  ]

-- From a well-formed poller, in its thread, `remove` of an entered channel that asks for nothing never
-- fails: the poller loses that descriptor and, up to the order of the array, exactly one entry, which
-- hides the descriptor; it stays well-formed and keeps all other descriptors.
pub channel_remove-Removed :
    (current c : ℕ) (r : Reactor)
    → Inv r
    → current ≡ r.thread_id
    → IsEntered r c
    → any (r.chans c).events ≡ false
    → (r' : Reactor) × (channel_remove current c r ≡ ok r') × Removed c r r'
channel_remove-Removed current c r v here known quiet = go (r.chans c).pollfds_index refl
  where
    reg : IsRegistered r (r.chans c).fd c
    reg = v.mapped (r.chans c).fd c known

    go :
        (z : ℤ)
        → (r.chans c).pollfds_index ≡ z
        → (r' : Reactor) × (channel_remove current c r ≡ ok r') × Removed c r r'
    go (negsuc n) q = absurd (not-mapped_of_negsuc r (r.chans c).fd c n v q known)
    go (pos idx) q =
        let lt : idx < length r.pollfds =
          slot-lt r.pollfds idx (to_slot (entry (r.chans c).fd (r.chans c).events))
            (ground (arith, reg)) in
        let (p, e) = get_elem?_total r.pollfds idx lt in
        removes current c r idx p here known quiet q reg e
          (ground (arith, reg, entry_none (r.chans c).fd (r.chans c).events))
          (ground (arith, reg, entry_events (r.chans c).fd (r.chans c).events)) lt v
