-- ===== src/Loop/Sweep/Own.antt =====
-- The acceptor's event and the timer's event among the others.
use penduo.Prelude.{
  ℕ, ◌≡◌, refl, sym, subst, ap, ◌∙◌, inl, inr, true, false, List, [], ◌∷◌, arith, ◌==◌, ==_iff,
  Bool-cases, All,
}
use penduo.Sockets.Ops.{Network}
use penduo.Acceptor.{Acceptor}
use penduo.Tcp.Settled.{IsServed, waits}
use penduo.Tcp.Settled.Effects.{Since, Since-before, Since-after}
use penduo.Loop.{Loop, Round, reactor_of}
use penduo.Loop.Invariant.{is_special, Running}
use penduo.Tcp.{TcpServer, TcpConnection, connected, connection_called}
use penduo.Loop.Events.{Joined, Timed, CalledBack}
use penduo.Loop.Active.{is_readable}
use penduo.Loop.Sweep.{Outside, Swept}
use penduo.Loop.Sweep.Next.{not_among, fresh, still_served}

module _ {net : Network} (round : Round) (c : ℕ) (w w₁ : Loop net) (v : Running w)
    (k : CalledBack (is_readable w c) round c w w₁) where
  -- A number that no channel has is not among the active ones.
  unused_number :
      (cs : List ℕ)
      → All (IsServed (is_special w) w.serving.server) cs
      → waits w.serving.server.next_object cs ≡ false
  unused_number [] p = refl
  unused_number (d ∷ cs) p =
      let below = fresh round c w w₁ v k d p.0 in ground (arith, unused_number cs p.1)

  Joined-after :
      (w' : Loop net) (cs : List ℕ)
      → All (IsServed (is_special w) w.serving.server) cs
      → Swept round cs w₁ w'
      → Joined w w₁.serving.server
      → Joined w w'.serving.server
  Joined-after w' cs p r j =
      let new = w.serving.server.next_object in
      let out : Outside w₁ cs new = inl (unused_number cs p) in
      let conns = r.other_conns new out (
        k.running.settled.well.server_inv.fresh ((reactor_of w₁).chans new).fd new
          j.is_served.entered) in
      record {
        fd = j.fd;
        is_there = j.is_there;
        is_served = still_served round c w w₁ v k w' cs r new out j.is_served;
        on_fd = ap (λ (x : TcpConnection). x.socket_fd) conns ∙ j.on_fd;
        callback = j.callback;
        has_callback = ap (λ (x : TcpConnection). x.connection_callback) conns ∙ j.has_callback;
        announced = Since-after _ _ _ _ r.grown j.announced;
      }

  Joined-before :
      (s' : TcpServer)
      → (c == w.serving.acceptor.accept_channel) ≡ false
      → Joined w₁ s'
      → Joined w s'
  Joined-before s' n j =
      let (system, next, channels) = k.accepts_only n in
      record {
        fd = j.fd;
        is_there = rw (← k.same_acceptor, ← system) j.is_there;
        is_served = subst (IsServed (is_special w) s') next (
            subst (λ special. IsServed special s' w₁.serving.server.next_object) k.same_special
              j.is_served);
        on_fd = rw (← next) j.on_fd;
        callback = j.callback;
        has_callback = rw (← next) j.has_callback;
        announced = Since-before _ _ _ _ k.grown (
            subst
              (λ x.
                Since w₁.serving.server.calls (connection_called j.callback x connected) s'.calls)
              next j.announced);
      }

  -- The events of another object of the loop's own are still the same.
  still_readable :
      (d : ℕ)
      → is_special w d ≡ true
      → (c == d) ≡ false
      → is_readable w d ≡ true
      → is_readable w₁ d ≡ true
  still_readable d special n asked =
      ground (arith, asked, k.other_revents d (inl n) (fresh round c w w₁ v k d (v.own d special)))

  pub Joined-cons :
      (w' : Loop net) (cs : List ℕ)
      → All (λ d. (c == d) ≡ false) cs
      → All (IsServed (is_special w) w.serving.server) (c ∷ cs)
      → Swept round cs w₁ w'
      → waits w.serving.acceptor.accept_channel (c ∷ cs) ≡ true
      → is_readable w w.serving.acceptor.accept_channel ≡ true
      → Joined w w'.serving.server
  Joined-cons w' cs n p r h asked =
      let a = w.serving.acceptor.accept_channel in
      let same : w₁.serving.acceptor.accept_channel ≡ a =
        ap (λ (x : Acceptor net.W). x.accept_channel) k.same_acceptor in
      elim (Bool-cases (c == a)) [
        | inl first ↦ Joined-after w' cs p.1 r (
            k.joined (subst (λ x. is_readable w x ≡ true) (sym ((==_iff c a).0 first)) asked) first)
        | inr other ↦ Joined-before w'.serving.server other (
            r.joined (subst (λ x. waits x cs ≡ true) (sym same) (ground arith)) (
              subst (λ x. is_readable w₁ x ≡ true) (sym same)
                (still_readable a (ground arith) other asked)))
      ]

  pub Timed-cons :
      (w' : Loop net) (cs : List ℕ)
      → All (λ d. (c == d) ≡ false) cs
      → Swept round cs w₁ w'
      → waits w.timer_channel (c ∷ cs) ≡ true
      → is_readable w w.timer_channel ≡ true
      → Timed round w.timers w'.timers
  Timed-cons w' cs n r h asked =
      let t = w.timer_channel in
      let same = k.same_channels.0 in
      elim (Bool-cases (c == t)) [
        | inl first ↦
            let gone = subst (λ x. waits x cs ≡ false) ((==_iff c t).0 first) (not_among c cs n) in
            subst (Timed round w.timers)
              (sym (r.same_timers (subst (λ x. waits x cs ≡ false) (sym same) gone)))
              (k.timed (subst (λ x. is_readable w x ≡ true) (sym ((==_iff c t).0 first)) asked)
                first)
        | inr other ↦
            subst (λ q. Timed round q w'.timers) (k.same_timers other)
              (r.timed (subst (λ x. waits x cs ≡ true) (sym same) (ground arith)) (
                subst (λ x. is_readable w₁ x ≡ true) (sym same)
                  (still_readable t (ground arith) other asked)))
      ]
