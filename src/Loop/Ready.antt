-- ===== src/Loop/Ready.antt =====
-- The active channels of a round: where a settled server is polled, each of them is served, and none
-- stands there twice.
use penduo.Prelude.{
  ℕ, suc, ◌+◌, ◌≡◌, refl, sym, ap, ◌∙◌, inl, inr, ℤ, pos, negsuc, Bool, true, false, Option, some,
  List, [], ◌∷◌, arith, ◌==◌, ==_iff, Bool-cases, Option-cases, All, get_elem?,
}
use penduo.Channel.{any}
use penduo.Reactor.{PollFd, find, entry}
use penduo.Reactor.Invariant.{slot, slot_of, to_slot}
use penduo.Poll.{Kernel}
use penduo.Poll.Fill.{ready_channels}
use penduo.Poll.Sound.{IsPoll}
use penduo.Tcp.{TcpServer}
use penduo.Tcp.Close.{IsClosing}
use penduo.Tcp.Drain.{Distinct}
use penduo.Tcp.Settled.{IsServed, Settled, All-waits}

-- What holds of the channel of each entry with events holds of every active channel.
All-ready_channels :
    (P : ℕ → Type 0) (m : ℕ → Option ℕ) (ps : List PollFd)
    → ((i : ℕ) (p : PollFd) (c : ℕ)
        → get_elem? ps i ≡ some p
        → any p.revents ≡ true
        → find m p.fd ≡ some c
        → P c)
    → All P (ready_channels m ps)
unfolding ready_channels get_elem?
All-ready_channels P m [] each = tt
All-ready_channels P m (p ∷ ps) each =
    let rest = All-ready_channels P m ps (λ i q c e a f. each (suc i) q c e a f) in
    elim (Bool-cases (any p.revents)) [
      | inl busy ↦ elim (Option-cases (find m p.fd)) [
        | inl missing ↦ rw (busy, missing) rest
        | inr (c, found) ↦ rw (busy, found) (each 0 p c refl busy found, rest)
      ]
      | inr idle ↦ rw idle rest
    ]

-- Channels that keep the index of their entry are not active twice.
Distinct-ready_channels :
    (index : ℕ → ℤ) (m : ℕ → Option ℕ) (k : ℕ) (ps : List PollFd)
    → ((i : ℕ) (p : PollFd) (c : ℕ)
        → get_elem? ps i ≡ some p
        → any p.revents ≡ true
        → find m p.fd ≡ some c
        → index c ≡ pos (k + i))
    → Distinct (ready_channels m ps)
unfolding ready_channels get_elem?
Distinct-ready_channels index m k [] at = tt
Distinct-ready_channels index m k (p ∷ ps) at =
    let later : (i : ℕ) (q : PollFd) (c : ℕ)
        → get_elem? ps i ≡ some q
        → any q.revents ≡ true
        → find m q.fd ≡ some c
        → index c ≡ pos (suc k + i) =
      λ i q c e a f. at (suc i) q c e a f ∙ ap pos (omega arith) in
    let rest = Distinct-ready_channels index m (suc k) ps later in
    elim (Bool-cases (any p.revents)) [
      | inl busy ↦ elim (Option-cases (find m p.fd)) [
        | inl missing ↦ rw (busy, missing) rest
        | inr (c, found) ↦
            rw (busy, found)
              (
                All-ready_channels (λ d. (c == d) ≡ false) m ps
                    (λ i q d e a f.
                      let here : index c ≡ pos (k + 0) = at 0 p c refl busy found in
                      let there : index d ≡ pos (suc k + i) = later i q d e a f in
                      elim (Bool-cases (c == d)) [
                        | inl same ↦
                            absurd (let same_index = ap index ((==_iff c d).0 same) in ground arith)
                        | inr other ↦ other
                      ]),
                rest,
              )
      ]
      | inr idle ↦ rw idle rest
    ]

module _ (special : ℕ → Bool) (to_string : ℕ → List ℕ) (kernel : Kernel) (s : TcpServer)
    (v : Settled special to_string s) (k : IsPoll kernel s.reactor.pollfds) where
  abbrev ps : List PollFd
  ps = (kernel s.reactor.pollfds).1

  slot_at :
      (i : ℕ) (p : PollFd)
      → get_elem? ps i ≡ some p
      → slot s.reactor.pollfds (pos i) ≡ some (to_slot p)
  slot_at i p e = sym (k.requests_kept i) ∙ ap slot_of e

  -- An entry with events is that of a channel in the poller, at the index that the channel keeps.
  known :
      (i : ℕ) (p : PollFd) (c : ℕ)
      → get_elem? ps i ≡ some p
      → find s.reactor.channels p.fd ≡ some c
      → (fd : ℕ) × (p.fd ≡ pos fd)
        × (s.reactor.channels fd ≡ some c)
        × ((s.reactor.chans c).pollfds_index ≡ pos i)
  known i p c e found = go p.fd refl
    where
      go :
          (z : ℤ)
          → p.fd ≡ z
          → (fd : ℕ) × (p.fd ≡ pos fd)
            × (s.reactor.channels fd ≡ some c)
            × ((s.reactor.chans c).pollfds_index ≡ pos i)
      go (negsuc n) q = absurd (ground arith)
      go (pos n) q =
          let owner : s.reactor.channels n ≡ some c = ground arith in
          (
            n,
            q,
            owner,
            ground (arith, v.well.server_inv.well_formed.polled i (to_slot p) (slot_at i p e)),
          )

  -- The entry of a channel that asks for nothing has a negative descriptor.
  negative_entry :
      (i fd c : ℕ) (p : PollFd)
      → get_elem? ps i ≡ some p
      → p.fd ≡ pos fd
      → s.reactor.channels fd ≡ some c
      → (s.reactor.chans c).pollfds_index ≡ pos i
      → IsClosing s c
      → ⊥
  unfolding entry
  negative_entry i fd c p e q m at closing =
      let own = (v.well.server_inv.well_formed.mapped fd c m).own_slot in
      let here : slot s.reactor.pollfds (s.reactor.chans c).pollfds_index ≡ some (to_slot p) =
        ap (slot s.reactor.pollfds) at ∙ slot_at i p e in
      let same = sym own ∙ here in ground (arith, closing.unwatched)

  pub active_served : All (IsServed special s) (ready_channels s.reactor.channels ps)
  active_served =
      All-ready_channels (IsServed special s) s.reactor.channels ps (λ i p c e busy found.
        let (fd, q, m, at) = known i p c e found in
        elim (v.served fd c m) [
          | inl served ↦ served
          | inr waiting ↦ absurd (
              negative_entry i fd c p e q m at
                (All-waits (IsClosing s) c s.pending_functors waiting v.well.closing))
        ])

  pub active_once : Distinct (ready_channels s.reactor.channels ps)
  active_once =
      Distinct-ready_channels (λ c. (s.reactor.chans c).pollfds_index) s.reactor.channels 0 ps
        (λ i p c e a f. (known i p c e f).3 ∙ ap pos (omega arith))
