-- ===== src/Reactor/Update.antt =====
-- `Poller::update_channel` through `Channel::enable_reading` and `Channel::disable_all`.
use penduo.Prelude.{
  ℕ, ◌-◌, ◌≡◌, inl, inr, pos, negsuc, true, none, some, [], ◌∷◌, ◌++◌, arith, ◌==◌, length,
  get_elem?-push_back, ok, update, Bool-cases, length-append,
}
use penduo.Channel.{any, k_none_event}
use penduo.Reactor.{PollFd, Reactor, real_fd, entry, insert, channel_update, set_chan}
use penduo.Reactor.Invariant.{
  entry_wanted, Slot, slot, to_slot, index_of, IsRegistered, Inv, slot-push_back,
  not-mapped_of_negsuc,
}

-- The state after a new channel is entered, before it is marked as added.
abbrev pub appended : ℕ → Reactor → Reactor
appended c r =
    let ch = r.chans c in
    let pollfds =
      r.pollfds ++ record { fd = pos ch.fd; events = ch.events; revents = k_none_event } ∷ [] in
    record r {
      poller = record { pollfds = pollfds; channels = insert r.channels ch.fd c };
      chans = update r.chans c (record ch { pollfds_index = pos (length pollfds - 1) });
    }

abbrev pub mark_added : ℕ → Reactor → Reactor
mark_added c r = set_chan r c (record (r.chans c) { added_to_loop = true })

abbrev pub entered : ℕ → Reactor → Reactor
entered c r = mark_added c (appended c r)

-- Entering itself asks for no event.
pub channel_update-entered :
    (r : Reactor) (current c n : ℕ)
    → (r.chans c).pollfds_index ≡ negsuc n
    → r.channels (r.chans c).fd ≡ none
    → (r.chans c).loop ≡ r.self
    → current ≡ r.thread_id
    → channel_update current c r ≡ ok (entered c r)
unfolding channel_update
channel_update-entered r current c n unindexed free owner here = ground arith

module _ (r : Reactor) (c n : ℕ) (v : Inv r) (unindexed : (r.chans c).pollfds_index ≡ negsuc n)
    (free : r.channels (r.chans c).fd ≡ none) (owner : (r.chans c).loop ≡ r.self)
    (wants : any (r.chans c).events ≡ true) where
  abbrev new_pollfd : PollFd
  new_pollfd = record {
    fd = pos (r.chans c).fd;
    events = (r.chans c).events;
    revents = k_none_event;
  }

  last_index : length (r.pollfds ++ new_pollfd ∷ []) - 1 ≡ length r.pollfds
  last_index = omega (arith, length-append r.pollfds (new_pollfd ∷ []))

  entered-mapped : (fd d : ℕ) → (entered c r).channels fd ≡ some d → IsRegistered (entered c r) fd d
  entered-mapped fd d m = elim (Bool-cases ((r.chans c).fd == fd)) [
    | inl e ↦ ground (
      arith,
      last_index,
      entry_wanted (r.chans c).fd (r.chans c).events,
      get_elem?-push_back r.pollfds new_pollfd (length r.pollfds),
    )
    | inr e ↦ old (ground arith)
  ]
    where
      old : r.channels fd ≡ some d → IsRegistered (entered c r) fd d
      old h =
          let g = v.mapped fd d h in
          ground (
            arith,
            not-mapped_of_negsuc r fd d n v,
            slot-push_back r.pollfds new_pollfd (r.chans d).pollfds_index
                (to_slot (entry (r.chans d).fd (r.chans d).events)),
          )

  entered-polled :
      (i : ℕ) (s : Slot)
      → slot (entered c r).pollfds (pos i) ≡ some s
      → index_of (entered c r).chans ((entered c r).channels (real_fd s.fd)) ≡ some (pos i)
  entered-polled i s e =
      ground (arith, last_index, v.polled i s, get_elem?-push_back r.pollfds new_pollfd i)

  pub entered-Inv : Inv (entered c r)
  entered-Inv = record { mapped = entered-mapped; polled = entered-polled }
