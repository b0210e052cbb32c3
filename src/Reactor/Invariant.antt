-- ===== src/Reactor/Invariant.antt =====
-- What holds of a poller between two calls: `pollfds_`, `channels_` and the indices that the channels
-- keep agree with one another.
use penduo.Prelude.{
  ℕ, ◌<◌, ◌≡◌, refl, sym, ap, ◌∙◌, ◌⊎◌, inl, inr, ℤ, pos, negsuc, true, ◌&&◌, Option, none, some,
  List, [], ◌∷◌, ◌++◌, arith, ltb, if◌then◌else◌, length, get_elem?, set, get_elem?-set,
  get_elem?-push_back, Option-cases, eqb_ℤ, get_elem?-lt,
}
use penduo.Channel.{Events, any, k_none_event, Channel}
use penduo.Reactor.{PollFd, Reactor, real_fd, entry}

-- An entry without the events that the kernel writes.
pub record Slot : Type 0 where
  pub fd : ℤ
  pub events : Events

abbrev pub to_slot : PollFd → Slot
to_slot p = record { fd = p.fd; events = p.events }

abbrev pub slot_of : Option PollFd → Option Slot
slot_of none = none
slot_of (some p) = some (to_slot p)

abbrev pub slot : List PollFd → ℤ → Option Slot
slot ps (pos i) = slot_of (get_elem? ps i)
slot ps (negsuc i) = none

-- The index that the channel under a descriptor keeps.
abbrev pub index_of : (ℕ → Channel) → Option ℕ → Option ℤ
index_of chans none = none
index_of chans (some c) = some (chans c).pollfds_index

-- Channel `c` is entered under `fd`, at its own index, with the events that it asks for.
pub record IsRegistered (r : Reactor) (fd c : ℕ) : Type 0 where
  pub own_fd : (r.chans c).fd ≡ fd
  pub own_loop : (r.chans c).loop ≡ r.self
  pub own_slot :
      slot r.pollfds (r.chans c).pollfds_index
      ≡ some (to_slot (entry (r.chans c).fd (r.chans c).events))
  pub added : (r.chans c).added_to_loop ≡ true

pub record Inv (r : Reactor) : Type 0 where
  pub mapped : (fd c : ℕ) → r.channels fd ≡ some c → IsRegistered r fd c
  pub polled :
      (i : ℕ) (s : Slot)
      → slot r.pollfds (pos i) ≡ some s
      → index_of r.chans (r.channels (real_fd s.fd)) ≡ some (pos i)

pub slot-lt : (ps : List PollFd) (i : ℕ) (s : Slot) → slot ps (pos i) ≡ some s → i < length ps
slot-lt ps i s h = elim (Option-cases (get_elem? ps i)) [
  | inl e ↦ ground arith
  | inr (p, e) ↦ get_elem?-lt ps i e
]

-- What the proofs use of an entry, which stays shut.
pub real_fd-entry : (fd : ℕ) (e : Events) → real_fd (entry fd e).fd ≡ fd
unfolding entry
real_fd-entry fd e = ground arith

pub events-entry : (fd : ℕ) (e : Events) → (entry fd e).events ≡ e
unfolding entry
events-entry fd e = refl

pub fd-entry : (fd : ℕ) (e : Events) → ((entry fd e).fd ≡ pos fd) ⊎ ((entry fd e).fd ≡ negsuc fd)
unfolding entry
fd-entry fd e = ground arith

pub entry_wanted :
    (fd : ℕ) (e : Events)
    → any e ≡ true
    → entry fd e ≡ record { fd = pos fd; events = e; revents = k_none_event }
unfolding entry
entry_wanted fd e h = rw h

-- A channel with no index is not entered.
pub not-mapped_of_negsuc :
    (r : Reactor) (fd c n : ℕ)
    → Inv r
    → (r.chans c).pollfds_index ≡ negsuc n
    → r.channels fd ≡ some c
    → ⊥
not-mapped_of_negsuc r fd c n v e m = ground (arith, (v.mapped fd c m).own_slot)

-- Two channels do not share an index.
pub index_injective :
    (r : Reactor) (fd fd' c d : ℕ)
    → Inv r
    → r.channels fd ≡ some c
    → r.channels fd' ≡ some d
    → (r.chans c).pollfds_index ≡ (r.chans d).pollfds_index
    → c ≡ d
index_injective r fd fd' c d v m m' e =
    let g = v.mapped fd c m in
    let g' = v.mapped fd' d m' in
    let same_slot : some (to_slot (entry (r.chans c).fd (r.chans c).events))
        ≡ some (to_slot (entry (r.chans d).fd (r.chans d).events)) =
      sym g.own_slot ∙ ap (slot r.pollfds) e ∙ g'.own_slot in
    ground (
      arith,
      real_fd-entry (r.chans c).fd (r.chans c).events,
      real_fd-entry (r.chans d).fd (r.chans d).events,
    )

-- Entries below the end stay where they are.
pub slot-push_back :
    (ps : List PollFd) (p : PollFd) (z : ℤ) (s : Slot)
    → slot ps z ≡ some s
    → slot (ps ++ p ∷ []) z ≡ some s
slot-push_back ps p (negsuc i) s h = ground arith
slot-push_back ps p (pos i) s h =
    let below = slot-lt ps i s h in ground (arith, get_elem?-push_back ps p i)

pub slot-set :
    (ps : List PollFd) (i : ℕ) (p : PollFd) (z : ℤ)
    → slot (set ps i p) z
      ≡ (if eqb_ℤ (pos i) z && ltb i (length ps) then some (to_slot p) else slot ps z)
slot-set ps i p (negsuc j) = ground arith
slot-set ps i p (pos j) = ground (arith, get_elem?-set ps i p j)

-- Every entry has a channel.
pub slot_owner :
    (r : Reactor) (i : ℕ) (s : Slot)
    → Inv r
    → slot r.pollfds (pos i) ≡ some s
    → (d : ℕ) × (r.channels (real_fd s.fd) ≡ some d)
slot_owner r i s v e = elim (Option-cases (r.channels (real_fd s.fd))) [
  | inl missing ↦ absurd (missing_entry missing (v.polled i s e))
  | inr found ↦ found
]
  where
    missing_entry :
        r.channels (real_fd s.fd) ≡ none
        → index_of r.chans (r.channels (real_fd s.fd)) ≡ some (pos i)
        → ⊥
    missing_entry missing q = ground arith

pub entry_owner :
    (r : Reactor) (i : ℕ) (p : PollFd)
    → Inv r
    → get_elem? r.pollfds i ≡ some p
    → (d : ℕ) × (r.channels (real_fd p.fd) ≡ some d)
entry_owner r i p v e = slot_owner r i (to_slot p) v (ap slot_of e)
