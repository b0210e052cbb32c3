-- ===== src/Reactor/Interest.antt =====
-- `Channel::enable_reading` and `Channel::disable_all`, from the mask to the poller's entry.
use penduo.Prelude.{
  ℕ, ◌≡◌, refl, ◌≢◌, ◌⊎◌, inl, inr, ℤ, pos, negsuc, true, false, none, some, arith, ◌==◌, ok,
  Bool-cases,
}
use penduo.Channel.{Events, Channel, any, k_none_event, k_read_event, union}
use penduo.Reactor.{Reactor, channel_update, enable_reading, disable_all, real_fd, set_chan}
use penduo.Reactor.Invariant.{
  IsRegistered, Inv, not-mapped_of_negsuc, slot_owner, Slot, slot, index_of,
}
use penduo.Reactor.Update.{entered, entered-Inv, channel_update-entered}
use penduo.Reactor.Change.{with_events, rewritten, rewritten-Inv, channel_update-rewritten}

-- A channel as its constructor leaves it, under a descriptor that the poller does not know.
pub record IsNew (r : Reactor) (c : ℕ) : Type 0 where
  pub unindexed : (r.chans c).pollfds_index ≡ negsuc 0
  pub free : r.channels (r.chans c).fd ≡ none
  pub owner : (r.chans c).loop ≡ r.self

abbrev pub IsEntered : Reactor → ℕ → Type 0
IsEntered r c = r.channels (r.chans c).fd ≡ some c

-- What an update to the events `e` leads to: an entered channel that asks for `e`, and no other
-- channel or descriptor touched.
pub record Asks (e : Events) (c : ℕ) (r r' : Reactor) : Type 0 where
  pub inv : Inv r'
  pub own : IsEntered r' c
  pub asked : (r'.chans c).events ≡ e
  pub same_fd : (r'.chans c).fd ≡ (r.chans c).fd
  pub same_revents : (r'.chans c).revents ≡ (r.chans c).revents
  pub same_callbacks :
      ((r'.chans c).read_callback ≡ (r.chans c).read_callback)
      × ((r'.chans c).write_callback ≡ (r.chans c).write_callback)
      × ((r'.chans c).error_callback ≡ (r.chans c).error_callback)
      × ((r'.chans c).close_callback ≡ (r.chans c).close_callback)
  pub same_thread : r'.thread_id ≡ r.thread_id
  pub same_self : r'.self ≡ r.self
  pub others : (d : ℕ) → (c == d) ≡ false → r'.chans d ≡ r.chans d
  pub elsewhere : (fd : ℕ) → ((r.chans c).fd == fd) ≡ false → r'.channels fd ≡ r.channels fd

module _ (e : Events) (current c : ℕ) (r : Reactor) (v : Inv r) (here : current ≡ r.thread_id) where
  with_events-mapped :
      IsNew r c
      → (fd d : ℕ) → (with_events e c r).channels fd ≡ some d
      → IsRegistered (with_events e c r) fd d
  with_events-mapped new fd d m = elim (Bool-cases (c == d)) [
    | inl same ↦ absurd (not-mapped_of_negsuc r fd d 0 v (ground (arith, new)) m)
    | inr n ↦ ground (arith, v.mapped fd d m)
  ]

  with_events-polled :
      IsNew r c
      → (i : ℕ) (s : Slot) → slot (with_events e c r).pollfds (pos i) ≡ some s
      → index_of (with_events e c r).chans ((with_events e c r).channels (real_fd s.fd))
        ≡ some (pos i)
  with_events-polled new i s h = ground (arith, v.polled i s h)

  with_events-Inv : IsNew r c → Inv (with_events e c r)
  with_events-Inv new = record { mapped = with_events-mapped new; polled = with_events-polled new }

  update_new :
      IsNew r c
      → any e ≡ true
      → (r' : Reactor) × (channel_update current c (with_events e c r) ≡ ok r') × Asks e c r r'
  update_new new wants =
      let r₁ = with_events e c r in
      (
        entered c r₁,
        channel_update-entered r₁ current c 0 unindexed free' owner here,
        record {
          inv = entered-Inv r₁ c 0 (with_events-Inv new) unindexed free' owner wants';
          own = ground (arith, new);
          asked = ground arith;
          same_fd = ground arith;
          same_revents = ground arith;
          same_callbacks = ground arith;
          same_thread = refl;
          same_self = refl;
          others = λ d n. ground arith;
          elsewhere = λ fd n. ground (arith, new);
        },
      )
    where
      unindexed : ((with_events e c r).chans c).pollfds_index ≡ negsuc 0
      unindexed = ground (arith, new)

      free' : r.channels ((with_events e c r).chans c).fd ≡ none
      free' = ground (arith, new)

      owner : ((with_events e c r).chans c).loop ≡ r.self
      owner = ground (arith, new)

      wants' : any ((with_events e c r).chans c).events ≡ true
      wants' = ground arith

  update_entered :
      IsEntered r c
      → (r' : Reactor) × (channel_update current c (with_events e c r) ≡ ok r') × Asks e c r r'
  update_entered known = go (r.chans c).pollfds_index refl
    where
      go :
          (z : ℤ)
          → (r.chans c).pollfds_index ≡ z
          → (r' : Reactor) × (channel_update current c (with_events e c r) ≡ ok r') × Asks e c r r'
      go (negsuc n) q = absurd (not-mapped_of_negsuc r (r.chans c).fd c n v q known)
      go (pos i) q = (
        rewritten i c (with_events e c r),
        channel_update-rewritten r e (r.chans c).fd c i v known q current here,
        record {
          inv = rewritten-Inv r e (r.chans c).fd c i v known q;
          own = ground arith;
          asked = ground arith;
          same_fd = ground arith;
          same_revents = ground arith;
          same_callbacks = ground arith;
          same_thread = refl;
          same_self = refl;
          others = λ d n. ground arith;
          elsewhere = λ fd n. refl;
        },
      )

-- A channel that may be updated: it is new, or it is entered already.
abbrev pub CanUpdate : Reactor → ℕ → Type 0
CanUpdate r c = IsNew r c ⊎ IsEntered r c

-- From a well-formed poller, in the loop's own thread, `enable_reading` never fails: it enters a new
-- channel or rewrites the entry of a known one, the poller stays well-formed, the channel then asks
-- for its old events and for reading, and no other channel or descriptor changes.
pub enable_reading-Asks :
    (current c : ℕ) (r : Reactor)
    → Inv r
    → current ≡ r.thread_id
    → CanUpdate r c
    → (r' : Reactor) × (enable_reading current c r ≡ ok r')
      × Asks (union (r.chans c).events k_read_event) c r r'
unfolding enable_reading
enable_reading-Asks current c r v here (inl new) =
    update_new _ current c r v here new (ground arith)
enable_reading-Asks current c r v here (inr known) = update_entered _ current c r v here known

-- `disable_all` of an entered channel never fails either: the channel then asks for nothing, and the
-- poller keeps its entry.
pub disable_all-Asks :
    (current c : ℕ) (r : Reactor)
    → Inv r
    → current ≡ r.thread_id
    → IsEntered r c
    → (r' : Reactor) × (disable_all current c r ≡ ok r') × Asks k_none_event c r r'
unfolding disable_all
disable_all-Asks current c r v here known = update_entered k_none_event current c r v here known

-- A write to the store at a channel that is not entered.
module _ (r : Reactor) (c : ℕ) (ch : Channel) (v : Inv r)
    (absent : (fd : ℕ) → r.channels fd ≢ some c) where
  set_chan-mapped : (fd d : ℕ) → r.channels fd ≡ some d → IsRegistered (set_chan r c ch) fd d
  set_chan-mapped fd d m = elim (Bool-cases (c == d)) [
    | inl same ↦ absurd (absent fd (ground arith))
    | inr other ↦ ground (arith, v.mapped fd d m)
  ]

  set_chan-polled :
      (i : ℕ) (s : Slot)
      → slot r.pollfds (pos i) ≡ some s
      → index_of (set_chan r c ch).chans (r.channels (real_fd s.fd)) ≡ some (pos i)
  set_chan-polled i s h =
      let (d, m) = slot_owner r i s v h in
      elim (Bool-cases (c == d)) [
        | inl same ↦ absurd (absent (real_fd s.fd) (ground (arith, m)))
        | inr other ↦ ground (arith, m, v.polled i s h)
      ]

  pub set_chan-Inv : Inv (set_chan r c ch)
  set_chan-Inv = record { mapped = set_chan-mapped; polled = set_chan-polled }
