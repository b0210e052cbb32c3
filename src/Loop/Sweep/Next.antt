-- ===== src/Loop/Sweep/Next.antt =====
-- From the first event to the rest of them.
use penduo.Prelude.{
  ℕ, ◌<◌, ◌≡◌, refl, sym, subst, ap, ◌∙◌, inl, inr, true, false, List, [], ◌∷◌, arith, ◌==◌, ==_iff,
  Bool-cases, All,
}
use penduo.Sockets.Ops.{Network}
use penduo.Acceptor.{Acceptor}
use penduo.Tcp.Settled.{IsServed, waits}
use penduo.Tcp.Settled.Effects.{Effect, Effect-before, Effect-after}
use penduo.Loop.{Loop, Round, reactor_of}
use penduo.Loop.Invariant.{is_special, Running, CanAccept}
use penduo.Loop.Events.{Spared, CalledBack}
use penduo.Loop.Active.{is_readable}
use penduo.Loop.Sweep.{Outside, Swept}

pub not_among : (c : ℕ) (cs : List ℕ) → All (λ d. (c == d) ≡ false) cs → waits c cs ≡ false
not_among c [] n = refl
not_among c (d ∷ cs) n = ground (arith, n.0, not_among c cs n.1)

module _ {net : Network} (round : Round) (c : ℕ) (w w₁ : Loop net) (v : Running w)
    (k : CalledBack (is_readable w c) round c w w₁) where
  pub fresh :
      (d : ℕ) → IsServed (is_special w) w.serving.server d → d < w.serving.server.next_object
  fresh d p = v.settled.well.server_inv.fresh ((reactor_of w).chans d).fd d p.entered

  pub next_served :
      (cs : List ℕ)
      → All (λ d. (c == d) ≡ false) cs
      → All (IsServed (is_special w) w.serving.server) cs
      → All (IsServed (is_special w₁) w₁.serving.server) cs
  next_served [] n p = tt
  next_served (d ∷ cs) n p = (
    subst (λ special. IsServed special w₁.serving.server d) (sym k.same_special)
        (k.still d (inl n.0) p.0),
    next_served cs n.1 p.1,
  )

  next_CanAccept : (c == w.serving.acceptor.accept_channel) ≡ false → CanAccept w → CanAccept w₁
  next_CanAccept n can =
      let (system, next, channels) = k.accepts_only n in
      record {
        fd = can.fd;
        is_there = rw (k.same_acceptor, system) can.is_there;
        unknown = channels can.fd ∙ can.unknown;
        from_family = rw (k.same_acceptor, system) can.from_family;
      }

  -- What the rest of the events comes to, from before the first.
  pub rest_effects :
      (w' : Loop net) (cs : List ℕ)
      → All (λ d. (c == d) ≡ false) cs
      → All (IsServed (is_special w) w.serving.server) cs
      → All
          (λ d.
            is_special w₁ d ≡ false
            → is_readable w₁ d ≡ true
            → Effect
                (is_special w₁)
                round.leaves
                (round.readv d)
                d
                w₁.serving.server
                w'.serving.server)
          cs
      → All
          (λ d.
            is_special w d ≡ false
            → is_readable w d ≡ true
            → Effect
                (is_special w)
                round.leaves
                (round.readv d)
                d
                w.serving.server
                w'.serving.server)
          cs
  rest_effects w' [] n p e = tt
  rest_effects w' (d ∷ cs) n p e = (
    λ common asked.
        Effect-before (is_special w) round.leaves d w.serving.server w₁.serving.server
          w'.serving.server (round.readv d) (k.other_conns d (inl n.0) (fresh d p.0)) k.grown
          (subst
            (λ special.
              Effect special round.leaves (round.readv d) d w₁.serving.server w'.serving.server)
            k.same_special
            (e.0 (ap (λ special. special d) k.same_special ∙ common)
              (ground (arith, asked, k.other_revents d (inl n.0) (fresh d p.0))))),
    rest_effects w' cs n.1 p.1 e.1,
  )

  pub next_can :
      (cs : List ℕ)
      → All (λ d. (c == d) ≡ false) cs
      → (waits w.serving.acceptor.accept_channel (c ∷ cs) ≡ true → CanAccept w)
      → waits w₁.serving.acceptor.accept_channel cs ≡ true
      → CanAccept w₁
  next_can cs n can among =
      let same : w₁.serving.acceptor.accept_channel ≡ w.serving.acceptor.accept_channel =
        ap (λ (a : Acceptor net.W). a.accept_channel) k.same_acceptor in
      let still_among : waits w.serving.acceptor.accept_channel cs ≡ true =
        ap (λ a. waits a cs) (sym same) ∙ among in
      elim (Bool-cases (c == w.serving.acceptor.accept_channel)) [
        | inl first ↦
            let gone = ap (λ a. waits a cs) (sym ((==_iff _ _).0 first)) ∙ not_among c cs n in
            absurd (ground arith)
        | inr other ↦ next_CanAccept other (can (ground arith))
      ]

  -- An object outside the whole list is spared by its first event and is outside the rest.
  pub spared : (cs : List ℕ) (d : ℕ) → Outside w (c ∷ cs) d → Spared w c d
  spared cs d (inl out) = inl (ground arith)
  spared cs d (inr special) = inr special

  pub outside : (cs : List ℕ) (d : ℕ) → Outside w (c ∷ cs) d → Outside w₁ cs d
  outside cs d (inl out) = inl (ground arith)
  outside cs d (inr special) = inr (ap (λ marks. marks d) k.same_special ∙ special)

  pub still_served :
      (w' : Loop net) (cs : List ℕ)
      → Swept round cs w₁ w'
      → (d : ℕ) → Outside w₁ cs d
      → IsServed (is_special w) w₁.serving.server d
      → IsServed (is_special w) w'.serving.server d
  still_served w' cs r d out q =
      subst (λ special. IsServed special w'.serving.server d) k.same_special
        (r.still d out
          (subst (λ special. IsServed special w₁.serving.server d) (sym k.same_special) q))

  -- What the first event came to, after all of them.
  pub first-Effect :
      (w' : Loop net) (cs : List ℕ)
      → All (λ d. (c == d) ≡ false) cs
      → IsServed (is_special w) w.serving.server c
      → Swept round cs w₁ w'
      → is_special w c ≡ false
      → is_readable w c ≡ true
      → Effect (is_special w) round.leaves (round.readv c) c w.serving.server w'.serving.server
  first-Effect w' cs n p r common asked =
      let out : Outside w₁ cs c = inl (not_among c cs n) in
      Effect-after (is_special w) round.leaves c w.serving.server w₁.serving.server
        w'.serving.server (round.readv c)
        (r.other_conns c out (let below = fresh c p in omega (arith, k.grown_objects))) r.grown
        (still_served w' cs r c out) (r.still_waits c) (k.effect asked common)
