-- ===== src/Poll/Fill.antt =====
-- The loop of `fill_active_channels` against a plain description: the channels of the entries that
-- have events, in the order of the array, each with those events.
use penduo.Prelude.{
  ℕ, suc, ◌≡◌, refl, inl, inr, pos, eqb_ℤ, true, false, Option, none, some, List, [], ◌∷◌, ◌++◌, ok,
  arith, ◌==◌, if◌then◌else◌, update, Bool-cases,
}
use mathlib.Core.List.{append-nil, append_assoc}
use penduo.Channel.{any, Channel}
use penduo.Reactor.{PollFd, Reactor, find, set_chan}
use penduo.Poll.{fill_active_channels}

-- How many entries have events: what `poll` counts.
unfoldable pub ready_count : List PollFd → ℕ
ready_count [] = 0
ready_count (p ∷ ps) = if any p.revents then suc (ready_count ps) else ready_count ps

unfoldable pub ready_channels : (ℕ → Option ℕ) → List PollFd → List ℕ
ready_channels m [] = []
ready_channels m (p ∷ ps) =
    let rest = ready_channels m ps in
    if any p.revents then elim (find m p.fd) [ none ↦ rest | some c ↦ c ∷ rest ] else rest

unfoldable pub with_revents : (ℕ → Option ℕ) → List PollFd → (ℕ → Channel) → ℕ → Channel
with_revents m [] chans = chans
with_revents m (p ∷ ps) chans =
    let rest = with_revents m ps in
    if any p.revents
    then elim (find m p.fd) [
      | none ↦ rest chans
      | some c ↦ rest (update chans c (record (chans c) { revents = p.revents }))
    ]
    else rest chans

-- An entry with events is under the descriptor of a channel that knows it.
abbrev pub HasOwner : Reactor → PollFd → Type 0
HasOwner r p =
    any p.revents ≡ true
    → (c : ℕ) × (find r.channels p.fd ≡ some c) × (eqb_ℤ (pos (r.chans c).fd) p.fd ≡ true)

abbrev pub AllOwned : Reactor → List PollFd → Type 0
AllOwned r [] = Unit {0}
AllOwned r (p ∷ ps) = HasOwner r p × AllOwned r ps

abbrev revents_set : Reactor → ℕ → PollFd → Reactor
revents_set r c p = set_chan r c (record (r.chans c) { revents = p.revents })

AllOwned-revents_set :
    (r : Reactor) (c : ℕ) (p : PollFd) (ps : List PollFd)
    → AllOwned r ps
    → AllOwned (revents_set r c p) ps
AllOwned-revents_set r c p [] o = tt
AllOwned-revents_set r c p (q ∷ qs) o =
    (λ h. let (d, e, k) = o.0 h in (d, e, ground arith), AllOwned-revents_set r c p qs o.1)

pub none_ready :
    (m : ℕ → Option ℕ) (ps : List PollFd) (chans : ℕ → Channel)
    → ready_count ps ≡ 0
    → (ready_channels m ps ≡ []) × (with_revents m ps chans ≡ chans)
unfolding ready_count ready_channels with_revents
none_ready m [] chans h = (refl, refl)
none_ready m (p ∷ ps) chans h = elim (Bool-cases (any p.revents)) [
  | inl e ↦ absurd (ground arith)
  | inr e ↦ rw e (none_ready m ps chans (ground arith))
]

pub fill_active_channels_lem :
    (ps : List PollFd) (r : Reactor) (active : List ℕ)
    → AllOwned r ps
    → fill_active_channels ps (ready_count ps) r active
      ≡ ok (
        record r { chans = with_revents r.channels ps r.chans },
        active ++ ready_channels r.channels ps,
      )
unfolding fill_active_channels ready_count ready_channels with_revents
fill_active_channels_lem [] r active o = simp append-nil
fill_active_channels_lem (p ∷ ps) r active o = elim (Bool-cases (any p.revents)) [
  | inl e ↦
      let (c, f, k) = o.0 e in
      ground (
        arith,
        none_ready r.channels ps (revents_set r c p).chans,
        fill_active_channels_lem ps (revents_set r c p) (active ++ c ∷ [])
            (AllOwned-revents_set r c p ps o.1),
        append_assoc active (c ∷ []) (ready_channels r.channels ps),
      )
  | inr e ↦ skip e (fill_active_channels_lem ps r active o.1)
]
  where
    skip :
        any p.revents ≡ false
        → fill_active_channels ps (ready_count ps) r active
          ≡ ok (
            record r { chans = with_revents r.channels ps r.chans },
            active ++ ready_channels r.channels ps,
          )
        → fill_active_channels (p ∷ ps) (ready_count (p ∷ ps)) r active
          ≡ ok (
            record r { chans = with_revents r.channels (p ∷ ps) r.chans },
            active ++ ready_channels r.channels (p ∷ ps),
          )
    skip e ih = elim (Bool-cases (ready_count ps == 0)) [
      | inl z ↦
          let q = none_ready r.channels ps r.chans (ground arith) in
          ground (arith, q, append-nil active)
      | inr z ↦ ground arith
    ]
