-- ===== src/Tcp/Settled/Close.antt =====
-- A settled server stays so when a connection is closed.
use penduo.Prelude.{
  ℕ, ◌≡◌, sym, ap, subst, ◌∙◌, inl, inr, Bool, true, false, some, List, [], ◌∷◌, ◌++◌, arith, ◌==◌,
  ==_iff, Bool-cases,
}
use penduo.Tcp.{TcpServer, same_name}
use penduo.Tcp.Establish.{IsOpen}
use penduo.Tcp.Close.{Closed}
use penduo.Tcp.Lifecycle.{Closed-Well}
use penduo.Tcp.Names.{NamesUsed, eq_of_same_name}
use penduo.Tcp.Settled.{IsServed, Settled, waits, waits-push_back, waits-push_back_self}

module _ (special : ℕ → Bool) (to_string : ℕ → List ℕ) (c : ℕ) (s s' : TcpServer)
    (v : Settled special to_string s) (o : IsOpen s c) (k : Closed c s s') where
  Closed-NamesUsed : NamesUsed to_string s'
  Closed-NamesUsed n d e = elim (Bool-cases (same_name (s.conns c).name n)) [
    | inl gone ↦
        absurd (
          let q = sym k.unmapped ∙ ap s'.connections (eq_of_same_name _ _ gone) ∙ e in ground arith)
    | inr other ↦
        let (i, le, q) = v.names n d (sym (k.other_names n other) ∙ e) in
        (i, ground (arith, k.same_rest), q ∙ ground (arith, k.same_rest))
  ]

  Closed-IsOpen : (d : ℕ) → (c == d) ≡ false → IsOpen s d → IsOpen s' d
  Closed-IsOpen d n p =
      let apart : ((s.reactor.chans c).fd == (s.reactor.chans d).fd) ≡ false =
        ground (arith, o.entered, p.entered) in
      let named : same_name (s.conns c).name (s.conns d).name ≡ false =
        elim (Bool-cases (same_name (s.conns c).name (s.conns d).name)) [
          | inl same ↦ absurd (
              let e = sym o.in_map ∙ ap s.connections (eq_of_same_name _ _ same) ∙ p.in_map in
              ground arith)
          | inr other ↦ other
        ] in
      record {
        up = ground (arith, p, k.same_conns);
        own_channel = ground (arith, p, k.same_conns);
        own_fd = ground (arith, p, k.same_conns, k.other_chans d n);
        entered = ground (arith, p, k.other_chans d n, k.other_fds _ apart);
        watched = ground (arith, p, k.other_chans d n);
        in_map = ground (arith, p, k.same_conns, k.other_names _ named);
        held = ground (arith, p, k.same_conns);
        callback = p.callback;
        has_callback = ground (arith, p, k.same_conns);
      }

  -- What else was served is served still.
  pub Closed-IsServed : (d : ℕ) → (c == d) ≡ false → IsServed special s d → IsServed special s' d
  Closed-IsServed d n p =
      let apart : ((s.reactor.chans c).fd == (s.reactor.chans d).fd) ≡ false =
        ground (arith, o.entered, p.entered) in
      record {
        entered = ground (arith, p.entered, k.other_chans d n, k.other_fds _ apart);
        watched = ground (arith, p.watched, k.other_chans d n);
        plain = ground (arith, p.plain, k.other_chans d n);
        is_open = λ own. Closed-IsOpen d n (p.is_open own);
        message = λ own. let (m, e) = p.message own in (m, ground (arith, k.same_conns));
      }

  pub Closed-Settled : Settled special to_string s'
  Closed-Settled = record {
    well = Closed-Well c s s' v.well o k;
    names = Closed-NamesUsed;
    message = v.message;
    has_message = ground (arith, k.same_rest, v.has_message);
    served = λ g d e. elim (Bool-cases (c == d)) [
      | inl same ↦ inr (
          rw k.queued (
            subst (λ x. waits x (s.pending_functors ++ c ∷ []) ≡ true) ((==_iff c d).0 same)
              (waits-push_back_self c s.pending_functors)))
      | inr other ↦
          let entered : s'.reactor.channels g ≡ some d = e in
          elim (v.served g d (was_entered g d other e)) [
            | inl p ↦ inl (Closed-IsServed d other p)
            | inr q ↦ inr (rw k.queued (waits-push_back c d s.pending_functors q))
          ]
    ];
  }
    where
      was_entered :
          (g d : ℕ)
          → (c == d) ≡ false
          → s'.reactor.channels g ≡ some d
          → s.reactor.channels g ≡ some d
      was_entered g d n e = ground (
        arith,
        o.entered,
        o.own_fd,
        k.is_closing.entered,
        k.is_closing.own_fd,
        k.same_conns,
        k.other_fds g,
      )
