-- ===== src/Loop/Sweep/Whole.antt =====
-- All the events of a round.
use penduo.Prelude.{ℕ, ◌≡◌, refl, sym, ◌∙◌, true, false, List, [], ◌∷◌, ok, arith, ◌==◌, All}
use penduo.Sockets.Ops.{Network}
use penduo.Tcp.Drain.{Distinct}
use penduo.Tcp.Settled.{IsServed, Grown-refl, Grown-trans, waits}
use penduo.Tcp.Settled.Read.{IsText}
use penduo.Loop.{Loop, Round, reactor_of, handle_events}
use penduo.Loop.Invariant.{is_special, Running, CanAccept}
use penduo.Loop.Events.{CalledBack}
use penduo.Loop.Active.{is_readable, handle_event-CalledBack}
use penduo.Loop.Sweep.{Swept}
use penduo.Loop.Sweep.Next.{
  next_served, next_can, rest_effects, spared, outside, still_served, first-Effect,
}
use penduo.Loop.Sweep.Own.{Joined-cons, Timed-cons}

module _ {net : Network} (round : Round) (c : ℕ) (w w₁ : Loop net) (v : Running w)
    (k : CalledBack (is_readable w c) round c w w₁) where
  Swept-cons :
      (w' : Loop net) (cs : List ℕ)
      → All (λ d. (c == d) ≡ false) cs
      → All (IsServed (is_special w) w.serving.server) (c ∷ cs)
      → Swept round cs w₁ w'
      → Swept round (c ∷ cs) w w'
  Swept-cons w' cs n p r = record {
    running = r.running;
    still = λ d o q.
        still_served round c w w₁ v k w' cs r d (outside round c w w₁ v k cs d o)
          (k.still d (spared round c w w₁ v k cs d o) q);
    other_conns = λ d o q.
        r.other_conns d (outside round c w w₁ v k cs d o) (omega (arith, q, k.grown_objects))
        ∙ k.other_conns d (spared round c w w₁ v k cs d o) q;
    still_waits = λ d h. r.still_waits d (k.still_waits d h);
    grown = Grown-trans _ _ _ k.grown r.grown;
    joined = Joined-cons round c w w₁ v k w' cs n p r;
    timed = Timed-cons round c w w₁ v k w' cs n r;
    same_timers =
        λ h. r.same_timers (rw k.same_channels.0 (ground arith)) ∙ k.same_timers (ground arith);
    effects = (
      first-Effect round c w w₁ v k w' cs n p.0 r,
      rest_effects round c w w₁ v k w' cs n p.1 r.effects,
    );
    same_special = r.same_special ∙ k.same_special;
    same_thread = r.same_thread ∙ k.same_thread;
    same_quit = r.same_quit ∙ k.same_quit;
  }

module _ (net : Network) (injective : (i j : ℕ) → net.to_string i ≡ net.to_string j → i ≡ j)
    (round : Round) (current : ℕ) (texts : (k : ℕ) → IsText (round.readv k)) where
  pub handle_events-Swept :
      (cs : List ℕ) (w : Loop net)
      → Running w
      → current ≡ (reactor_of w).thread_id
      → All (IsServed (is_special w) w.serving.server) cs
      → Distinct cs
      → (waits w.serving.acceptor.accept_channel cs ≡ true → CanAccept w)
      → (w' : Loop net) × (handle_events round current cs w ≡ ok w') × Swept round cs w w'
  unfolding handle_events
  handle_events-Swept [] w v here p n can = (
    w,
    refl,
    record {
      running = v;
      still = λ d o q. q;
      other_conns = λ d o q. refl;
      still_waits = λ d h. h;
      grown = Grown-refl w.serving.server.calls;
      effects = tt;
      joined = λ h. absurd (ground arith);
      timed = λ h. absurd (ground arith);
      same_timers = λ h. refl;
      same_special = refl;
      same_thread = refl;
      same_quit = refl;
    },
  )
  handle_events-Swept (c ∷ cs) w v here p n can =
      let (w₁, e₁, k) =
        handle_event-CalledBack net injective round current c round.receive_time w v here p.0
          (λ h. can (rw h refl)) (texts c) in
      let (w', e, r) =
        handle_events-Swept cs w₁ k.running (here ∙ sym k.same_thread)
          (next_served round c w w₁ v k cs n.0 p.1) n.1 (next_can round c w w₁ v k cs n.0 can) in
      (w', rw e₁ e, Swept-cons round c w w₁ v k w' cs n.0 p r)
