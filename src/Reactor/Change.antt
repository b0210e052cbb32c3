-- ===== src/Reactor/Change.antt =====
-- `Poller::update_channel` for a channel that is entered already.
use penduo.Prelude.{
  ℕ, ◌<◌, ◌≡◌, inl, inr, pos, false, ◌&&◌, some, arith, ltb, ◌==◌, if◌then◌else◌, length, get_elem?,
  set, get_elem?-set, ok, Bool-cases, get_elem?_total, eqb_ℤ,
}
use penduo.Channel.{Events}
use penduo.Reactor.{PollFd, Reactor, real_fd, entry, channel_update, set_chan}
use penduo.Reactor.Invariant.{
  Slot, index_injective, slot-set, real_fd-entry, fd-entry, slot, to_slot, index_of, IsRegistered,
  Inv, slot-lt,
}
use penduo.Reactor.Update.{mark_added}

-- The store with the new events of channel `c`.
abbrev pub with_events : Events → ℕ → Reactor → Reactor
with_events e c r = set_chan r c (record (r.chans c) { events = e })

-- The state after the entry at `idx` is written anew.
abbrev pub rewritten : ℕ → ℕ → Reactor → Reactor
rewritten idx c r = mark_added c (record r {
  poller = record r.poller {
    pollfds = set r.pollfds idx (entry (r.chans c).fd (r.chans c).events);
  };
})

module _ (r : Reactor) (e : Events) (fd c idx : ℕ) (v : Inv r) (known : r.channels fd ≡ some c)
    (at_idx : (r.chans c).pollfds_index ≡ pos idx) where
  abbrev changed : Reactor
  changed = with_events e c r

  reg : IsRegistered r fd c
  reg = v.mapped fd c known

  below : idx < length r.pollfds
  below =
      slot-lt r.pollfds idx (to_slot (entry (r.chans c).fd (r.chans c).events))
        (ground (arith, reg.own_slot))

  rewritten-mapped :
      (fd' d : ℕ)
      → (rewritten idx c changed).channels fd' ≡ some d
      → IsRegistered (rewritten idx c changed) fd' d
  rewritten-mapped fd' d m = elim (Bool-cases (c == d)) [
    | inl same ↦ ground (
      arith,
      reg,
      v.mapped fd' d m,
      below,
      get_elem?-set r.pollfds idx (entry (r.chans c).fd e) idx,
    )
    | inr n ↦
        other n (v.mapped fd' d m)
          (slot-set r.pollfds idx (entry (r.chans c).fd e) (r.chans d).pollfds_index)
  ]
    where
      other :
          (c == d) ≡ false
          → IsRegistered r fd' d
          → slot (set r.pollfds idx (entry (r.chans c).fd e)) (r.chans d).pollfds_index ≡ (
              if eqb_ℤ (pos idx) (r.chans d).pollfds_index && ltb idx (length r.pollfds)
              then some (to_slot (entry (r.chans c).fd e))
              else slot r.pollfds (r.chans d).pollfds_index)
          → IsRegistered (rewritten idx c changed) fd' d
      other n g q = ground (arith, index_injective r fd fd' c d v known)

  rewritten-polled :
      (i : ℕ) (s : Slot)
      → slot (rewritten idx c changed).pollfds (pos i) ≡ some s
      → index_of (rewritten idx c changed).chans ((rewritten idx c changed).channels (real_fd s.fd))
        ≡ some (pos i)
  rewritten-polled i s h = ground (
    arith,
    reg,
    real_fd-entry (r.chans c).fd (r.chans c).events,
    real_fd-entry (r.chans c).fd e,
    v.polled i s,
    v.polled idx (to_slot (entry (r.chans c).fd (r.chans c).events)),
    below,
    get_elem?-set r.pollfds idx (entry (r.chans c).fd e) i,
  )

  got : (p : PollFd) × (get_elem? r.pollfds idx ≡ some p)
  got = get_elem?_total r.pollfds idx below

  pub channel_update-rewritten :
      (current : ℕ)
      → current ≡ r.thread_id
      → channel_update current c changed ≡ ok (rewritten idx c changed)
  unfolding channel_update
  channel_update-rewritten current here =
      let (p, e') = got in ground (arith, reg, below, fd-entry (r.chans c).fd (r.chans c).events)

  pub rewritten-Inv : Inv (rewritten idx c changed)
  rewritten-Inv = record { mapped = rewritten-mapped; polled = rewritten-polled }
