-- ===== src/Tcp/Settled/Accept.antt =====
-- A settled server stays so when it accepts a connection.
use penduo.Prelude.{
  ℕ, ◌+◌, ◌≡◌, sym, ap, subst, ◌∙◌, inl, inr, Bool, false, none, arith, ◌==◌, Bool-cases,
}
use penduo.InetAddress.{InetAddress}
use penduo.Sockets.Ops.{Network}
use penduo.Tcp.{TcpServer, same_name, next_name}
use penduo.Tcp.Establish.{IsOpen, Accepted}
use penduo.Tcp.Lifecycle.{Accepted-Well}
use penduo.Tcp.Names.{NamesUsed, eq_of_same_name, next_name_free}
use penduo.Tcp.Settled.{IsServed, Settled}

module _ (special : ℕ → Bool) (net : Network)
    (injective : (i j : ℕ) → net.to_string i ≡ net.to_string j → i ≡ j) (fd : ℕ)
    (peer_addr : InetAddress) (w : net.W) (s s' : TcpServer) (v : Settled special net.to_string s)
    (unused : s.reactor.channels fd ≡ none) (a : Accepted net fd peer_addr w s s') where
  open net use {to_string}

  Accepted-NamesUsed : NamesUsed to_string s'
  Accepted-NamesUsed n c e = elim (Bool-cases (same_name (next_name to_string s) n)) [
    | inl new ↦ (
      s.next_connect_id + 1,
      ground (arith, a.same_rest),
      sym (eq_of_same_name (next_name to_string s) n new) ∙ ground (arith, a.same_rest),
    )
    | inr old ↦
        let (i, le, q) = v.names n c (sym (a.other_names n old) ∙ e) in
        (i, ground (arith, a.same_rest), q ∙ ground (arith, a.same_rest))
  ]

  Accepted-IsOpen : (d : ℕ) → (s.next_object == d) ≡ false → IsOpen s d → IsOpen s' d
  Accepted-IsOpen d old o =
      let apart : (fd == (s.reactor.chans d).fd) ≡ false = ground (arith, o.entered) in
      let named : same_name (next_name to_string s) (s.conns d).name ≡ false =
        elim (Bool-cases (same_name (next_name to_string s) (s.conns d).name)) [
          | inl same ↦ absurd (
              let free = next_name_free to_string s injective v.names in
              let e = sym free ∙ ap s.connections (eq_of_same_name _ _ same) ∙ o.in_map in
              ground arith)
          | inr other ↦ other
        ] in
      record {
        up = ground (arith, o, a.other_conns d old);
        own_channel = ground (arith, o, a.other_conns d old);
        own_fd = ground (arith, o, a.other_conns d old, a.other_chans d old);
        entered = ground (arith, o, a.other_chans d old, a.other_fds _ apart);
        watched = ground (arith, o, a.other_chans d old);
        in_map = ground (arith, o, a.other_conns d old, a.other_names _ named);
        held = ground (arith, o, a.other_conns d old);
        callback = o.callback;
        has_callback = ground (arith, o, a.other_conns d old);
      }

  -- What was served is served still.
  pub Accepted-IsServed : (d : ℕ) → IsServed special s d → IsServed special s' d
  Accepted-IsServed d p =
      let old : (s.next_object == d) ≡ false =
        ground (arith, v.well.server_inv.fresh _ d p.entered) in
      let apart : (fd == (s.reactor.chans d).fd) ≡ false = ground (arith, p.entered) in
      record {
        entered = ground (arith, p.entered, a.other_chans d old, a.other_fds _ apart);
        watched = ground (arith, p.watched, a.other_chans d old);
        plain = ground (arith, p.plain, a.other_chans d old);
        is_open = λ own. Accepted-IsOpen d old (p.is_open own);
        message = λ own. let (k, e) = p.message own in (k, ground (arith, a.other_conns d old));
      }

  pub new-IsServed : IsServed special s' s.next_object
  new-IsServed = record {
    entered = a.is_open.entered;
    watched = a.is_open.watched;
    plain = a.callbacks;
    is_open = λ own. a.is_open;
    message = λ own. (v.message, a.messages ∙ v.has_message);
  }

  pub Accepted-Settled : Settled special to_string s'
  Accepted-Settled = record {
    well = Accepted-Well net fd peer_addr w s s' v.well unused a;
    names = Accepted-NamesUsed;
    message = v.message;
    has_message = ground (arith, a.same_rest, v.has_message);
    served = λ g d e. elim (Bool-cases (fd == g)) [
      | inl same ↦
          let new : s.next_object ≡ d = ground (arith, a.is_open.entered, a.on_fd) in
          inl (subst (IsServed special s') new new-IsServed)
      | inr other ↦ elim (v.served g d (sym (a.other_fds g other) ∙ e)) [
        | inl p ↦ inl (Accepted-IsServed d p)
        | inr q ↦ inr (rw a.nothing_queued q)
      ]
    ];
  }
