-- ===== src/Poll/Sound.antt =====
-- `Poller::poll` over a well-formed poller and a system call that does what its manual says.
use penduo.Prelude.{
  ℕ, suc, ◌≡◌, refl, inl, inr, sym, ap, ◌∙◌, ℤ, pos, negsuc, eqb_ℤ, true, false, Option, some, List,
  [], ◌∷◌, ◌++◌, ok, arith, update, Option-cases, get_elem?,
}
use mathlib.Core.List.{append-nil}
use penduo.Channel.{any, Channel}
use penduo.Reactor.{PollFd, Reactor, find, real_fd}
use penduo.Reactor.Invariant.{IsRegistered, Inv, Slot, slot, slot_of, to_slot, index_of, slot_owner}
use penduo.Poll.{Kernel, poll}
use penduo.Poll.Fill.{
  ready_count, ready_channels, with_revents, none_ready, HasOwner, AllOwned,
  fill_active_channels_lem,
}

-- poll(2) where it succeeds: descriptors and requests stay, a negative descriptor gets no events, and the
-- number returned is that of the entries with events.
pub record IsPoll (kernel : Kernel) (ps : List PollFd) : Type 0 where
  pub requests_kept : (i : ℕ) → slot (kernel ps).1 (pos i) ≡ slot ps (pos i)
  pub negatives_skipped :
      (i n : ℕ) (p : PollFd)
      → get_elem? (kernel ps).1 i ≡ some p
      → p.fd ≡ negsuc n
      → any p.revents ≡ false
  pub counted : (kernel ps).0 ≡ pos (ready_count (kernel ps).1)

AllOwned-of_each :
    (r : Reactor) (ps : List PollFd)
    → ((i : ℕ) (p : PollFd) → get_elem? ps i ≡ some p → HasOwner r p)
    → AllOwned r ps
unfolding get_elem?
AllOwned-of_each r [] h = tt
AllOwned-of_each r (p ∷ ps) h = (h 0 p refl, AllOwned-of_each r ps (λ i q e. h (suc i) q e))

-- Only the field `revents` changes.
abbrev pub Rest : Channel → Channel → Type 0
Rest a b = b ≡ record a { revents = b.revents }

pub with_revents-Rest :
    (m : ℕ → Option ℕ) (ps : List PollFd) (chans : ℕ → Channel) (d : ℕ)
    → Rest (chans d) (with_revents m ps chans d)
unfolding with_revents
with_revents-Rest m [] chans d = refl
with_revents-Rest m (p ∷ ps) chans d = elim (Option-cases (find m p.fd)) [
  | inl e ↦ ground (arith, with_revents-Rest m ps chans d)
  | inr (c, e) ↦ ground (
    arith,
    with_revents-Rest m ps chans d,
    with_revents-Rest m ps (update chans c (record (chans c) { revents = p.revents })) d,
  )
]

module _ (kernel : Kernel) (r : Reactor) (v : Inv r) (k : IsPoll kernel r.pollfds) where
  abbrev ps : List PollFd
  ps = (kernel r.pollfds).1

  -- What `poll` leaves: the array as the system call returned it, and the events in the channels.
  abbrev pub polled : Reactor
  polled = record r {
    poller = record r.poller { pollfds = ps };
    chans = with_revents r.channels ps r.chans;
  }

  owned : (i : ℕ) (p : PollFd) → get_elem? ps i ≡ some p → HasOwner r p
  owned i p e busy = go p.fd refl
    where
      go :
          (z : ℤ)
          → p.fd ≡ z
          → (c : ℕ) × (find r.channels p.fd ≡ some c) × (eqb_ℤ (pos (r.chans c).fd) p.fd ≡ true)
      go (negsuc n) q = absurd (ground (arith, k.negatives_skipped i n p e q))
      go (pos n) q =
          let (d, m) = slot_owner r i (to_slot p) v (sym (k.requests_kept i) ∙ ap slot_of e) in
          let g = v.mapped (real_fd p.fd) d m in (d, ground (arith, m, q), ground (arith, g, q))

  rest : (d : ℕ) → Rest (r.chans d) (polled.chans d)
  rest d = with_revents-Rest r.channels ps r.chans d

  slots_kept : (z : ℤ) → slot ps z ≡ slot r.pollfds z
  slots_kept (negsuc n) = refl
  slots_kept (pos i) = k.requests_kept i

  polled-mapped : (fd d : ℕ) → polled.channels fd ≡ some d → IsRegistered polled fd d
  polled-mapped fd d m =
      let g = v.mapped fd d m in ground (arith, rest d, slots_kept (r.chans d).pollfds_index)

  polled-polled :
      (i : ℕ) (s : Slot)
      → slot polled.pollfds (pos i) ≡ some s
      → index_of polled.chans (polled.channels (real_fd s.fd)) ≡ some (pos i)
  polled-polled i s h =
      let q = sym (k.requests_kept i) ∙ h in
      let (d, m) = slot_owner r i s v q in ground (arith, rest d, m, v.polled i s q)

  -- `poll` never fails: the channels whose entries have events become the active ones, in the order
  -- of the array and each with its events, and the poller stays well-formed.
  pub poll_lem :
      (active : List ℕ)
      → (poll kernel r active ≡ ok (polled, active ++ ready_channels r.channels ps)) × Inv polled
  unfolding poll
  poll_lem active = (steps, record { mapped = polled-mapped; polled = polled-polled })
    where
      started : Reactor
      started = record r { poller = record r.poller { pollfds = ps } }

      steps : poll kernel r active ≡ ok (polled, active ++ ready_channels r.channels ps)
      steps = ground (
        arith,
        k.counted,
        none_ready r.channels ps r.chans,
        append-nil active,
        fill_active_channels_lem ps started active (AllOwned-of_each started ps owned),
      )
