-- ===== src/Tcp/Settled/Drain.antt =====
-- A settled server stays so when its functors are run, and what it serves is served still.
use penduo.Prelude.{ℕ, ◌≡◌, inl, inr, Bool, true, some, List, [], arith, All}
use penduo.Tcp.{TcpServer}
use penduo.Tcp.Establish.{IsOpen}
use penduo.Tcp.Close.{IsClosing}
use penduo.Tcp.Lifecycle.{Drained-Well, watched_differs}
use penduo.Tcp.Drain.{Differs, All-Differs, IsDown, Drained}
use penduo.Tcp.Settled.{IsServed, Settled, waits, All-waits}

module _ (special : ℕ → Bool) (to_string : ℕ → List ℕ) (s s' : TcpServer)
    (v : Settled special to_string s)
    (k : Drained s.pending_functors (record s { pending_functors = [] }) s') where
  apart : (d : ℕ) → IsServed special s d → All (Differs d) s.pending_functors
  apart d p =
      All-Differs d s.pending_functors
        (watched_differs s d s.pending_functors p.watched v.well.closing)

  Drained-IsOpen : (d : ℕ) → All (Differs d) s.pending_functors → IsOpen s d → IsOpen s' d
  Drained-IsOpen d n o = record {
    up = ground (arith, o, k.others d n);
    own_channel = ground (arith, o, k.others d n);
    own_fd = ground (arith, o, k.others d n, k.other_chans d n);
    entered = k.still_entered d n o.entered;
    watched = ground (arith, o, k.other_chans d n);
    in_map = ground (arith, o, k.others d n, k.same_names);
    held = ground (arith, o, k.others d n);
    callback = o.callback;
    has_callback = ground (arith, o, k.others d n);
  }

  pub Drained-IsServed : (d : ℕ) → IsServed special s d → IsServed special s' d
  Drained-IsServed d p =
      let n = apart d p in
      record {
        entered = k.still_entered d n p.entered;
        watched = ground (arith, p.watched, k.other_chans d n);
        plain = ground (arith, p.plain, k.other_chans d n);
        is_open = λ own. Drained-IsOpen d n (p.is_open own);
        message = λ own. let (m, e) = p.message own in (m, ground (arith, k.others d n));
      }

  pub Drained-conns : (d : ℕ) → IsServed special s d → s'.conns d ≡ s.conns d
  Drained-conns d p = k.others d (apart d p)

  -- A connection that waited is not in the poller any more.
  gone : (fd d : ℕ) → s'.reactor.channels fd ≡ some d → waits d s.pending_functors ≡ true → ⊥
  gone fd d e q =
      let closing = All-waits (IsClosing s) d s.pending_functors q v.well.closing in
      let down =
        All-waits (IsDown (record s { pending_functors = [] }) s') d s.pending_functors q
          k.all_down in
      let g = v.well.server_inv.well_formed.mapped fd d (k.was_entered fd d e) in
      ground (arith, closing.own_fd, down.1, g.own_fd)

  pub Drained-Settled : Settled special to_string s'
  Drained-Settled = record {
    well = Drained-Well s.pending_functors s s' v.well k;
    names = λ n c e. ground (arith, k.same_rest, v.names n c);
    message = v.message;
    has_message = ground (arith, k.same_rest, v.has_message);
    served = λ fd d e. elim (v.served fd d (k.was_entered fd d e)) [
      | inl p ↦ inl (Drained-IsServed d p)
      | inr q ↦ absurd (gone fd d e q)
    ];
  }
