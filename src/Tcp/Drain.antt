-- ===== src/Tcp/Drain.antt =====
-- `do_pending_functors` over the functors that closed connections have queued.
use penduo.Prelude.{
  ℕ, ◌≡◌, refl, sym, ◌∙◌, false, none, some, List, [], ◌∷◌, ◌++◌, ok, arith, ◌==◌, All,
}
use mathlib.Core.List.{append-nil, append_assoc}
use penduo.Reactor.Interest.{IsEntered}
use penduo.Tcp.{
  TcpServer, Call, connection_called, dis_connected, run_functors, do_pending_functors,
}
use penduo.Tcp.Establish.{ServerInv}
use penduo.Tcp.Close.{IsClosing}
use penduo.Tcp.Destroy.{Reindexed, Destroyed, connect_destoryed-Destroyed}

abbrev pub Differs : ℕ → ℕ → Type 0
Differs d c = (c == d) ≡ false

-- No connection is queued twice.
abbrev pub Distinct : List ℕ → Type 0
Distinct [] = Unit {0}
Distinct (c ∷ cs) = All (λ d. (c == d) ≡ false) cs × Distinct cs

-- The connection is down, and the poller has forgotten the descriptor that it had in `s`.
abbrev pub IsDown : (s s' : TcpServer) → ℕ → Type 0
IsDown s s' c =
    ((s'.conns c).state ≡ dis_connected) × (s'.reactor.channels (s.conns c).socket_fd ≡ none)

pub record Drained (cs : List ℕ) (s s' : TcpServer) : Type 0 where
  pub server_inv : ServerInv s'
  pub all_down : All (IsDown s s') cs
  pub others : (d : ℕ) → All (Differs d) cs → s'.conns d ≡ s.conns d
  pub stays_free : (fd : ℕ) → s.reactor.channels fd ≡ none → s'.reactor.channels fd ≡ none
  pub same_pending : s'.pending_functors ≡ s.pending_functors
  pub same_callback : s'.connection_callback ≡ s.connection_callback
  pub same_names : s'.connections ≡ s.connections
  pub same_thread : s'.reactor.thread_id ≡ s.reactor.thread_id
  pub same_rest : s' ≡ record s { reactor = s'.reactor; conns = s'.conns; calls = s'.calls }
  pub other_chans :
      (d : ℕ) → All (Differs d) cs → Reindexed (s.reactor.chans d) (s'.reactor.chans d)
  pub still_entered : (d : ℕ) → All (Differs d) cs → IsEntered s.reactor d → IsEntered s'.reactor d
  pub announced : (made : List Call) × (s'.calls ≡ s.calls ++ made)
  pub was_entered : (fd d : ℕ) → s'.reactor.channels fd ≡ some d → s.reactor.channels fd ≡ some d

-- Another channel in the poller has another descriptor, and so stays there.
Destroyed-IsEntered :
    (c d : ℕ) (s s' : TcpServer)
    → Destroyed c s s'
    → IsClosing s c
    → (c == d) ≡ false
    → IsEntered s.reactor d
    → IsEntered s'.reactor d
Destroyed-IsEntered c d s s' w o n e =
    let apart : ((s.reactor.chans c).fd == (s.reactor.chans d).fd) ≡ false =
      ground (arith, o.entered) in
    ground (arith, w.other_chans d n, w.other_fds (s.reactor.chans d).fd apart)

Destroyed-registered :
    (c : ℕ) (s s' : TcpServer)
    → Destroyed c s s'
    → IsClosing s c
    → (fd d : ℕ) → s'.reactor.channels fd ≡ some d
    → s.reactor.channels fd ≡ some d
Destroyed-registered c s s' w o fd d e = ground (arith, o.own_fd, w.released, w.other_fds fd)

All-IsClosing :
    (c : ℕ) (s s' : TcpServer) (cs : List ℕ)
    → Destroyed c s s'
    → All (λ d. (c == d) ≡ false) cs
    → All (IsClosing s) cs
    → All (IsClosing s') cs
All-IsClosing c s s' [] w n o = tt
All-IsClosing c s s' (d ∷ cs) w n o = (w.other_closing d n.0 o.0, All-IsClosing c s s' cs w n.1 o.1)

All-IsDown :
    (c : ℕ) (s s₁ s' : TcpServer) (cs : List ℕ)
    → Destroyed c s s₁
    → All (λ d. (c == d) ≡ false) cs
    → All (IsDown s₁ s') cs
    → All (IsDown s s') cs
All-IsDown c s s₁ s' [] w n a = tt
All-IsDown c s s₁ s' (d ∷ cs) w n a =
    ((a.0.0, ground (arith, a.0.1, w.others d n.0)), All-IsDown c s s₁ s' cs w n.1 a.1)

pub All-Differs : (c : ℕ) (cs : List ℕ) → All (λ d. (c == d) ≡ false) cs → All (Differs c) cs
All-Differs c [] n = tt
All-Differs c (d ∷ cs) n = (ground (arith, n.0), All-Differs c cs n.1)

run_functors-Drained :
    (current : ℕ) (cs : List ℕ) (s : TcpServer)
    → ServerInv s
    → current ≡ s.reactor.thread_id
    → All (IsClosing s) cs
    → Distinct cs
    → (s' : TcpServer) × (run_functors current cs s ≡ ok s') × Drained cs s s'
unfolding run_functors
run_functors-Drained current [] s v here o n = (
  s,
  refl,
  record {
    server_inv = v;
    all_down = tt;
    others = λ d h. refl;
    stays_free = λ fd e. e;
    same_pending = refl;
    same_callback = refl;
    same_names = refl;
    same_thread = refl;
    same_rest = refl;
    other_chans = λ d h. refl;
    still_entered = λ d h e. e;
    announced = ([], sym (append-nil s.calls));
    was_entered = λ fd d e. e;
  },
)
run_functors-Drained current (c ∷ cs) s v here o n =
    let (s₁, e₁, w) = connect_destoryed-Destroyed current c s v here o.0 in
    let (s', e, a) =
      run_functors-Drained current cs s₁ w.server_inv (here ∙ sym w.same_thread)
        (All-IsClosing c s s₁ cs w n.0 o.1) n.1 in
    (
      s',
      rw e₁ e,
      record {
        server_inv = a.server_inv;
        all_down = (
          (ground (arith, w.down, a.others c (All-Differs c cs n.0)), a.stays_free _ w.released),
          All-IsDown c s s₁ s' cs w n.0 a.all_down,
        );
        others = λ d h. a.others d h.1 ∙ w.others d h.0;
        stays_free = λ fd f. a.stays_free fd (w.stays_free fd f);
        same_pending = a.same_pending ∙ w.same_pending;
        same_callback = a.same_callback ∙ w.same_callback;
        same_names = a.same_names ∙ w.same_names;
        same_thread = a.same_thread ∙ w.same_thread;
        same_rest = ground (arith, a.same_rest, w.same_rest);
        other_chans = λ d h. ground (arith, a.other_chans d h.1, w.other_chans d h.0);
        still_entered = λ d h e. a.still_entered d h.1 (Destroyed-IsEntered c d s s₁ w o.0 h.0 e);
        announced =
            let (made, g) = a.announced in
            let first = w.announced o.0.callback o.0.has_callback in
            (
              connection_called o.0.callback c dis_connected ∷ made,
              g
                  ∙ rw first (
                      append_assoc s.calls (connection_called o.0.callback c dis_connected ∷ [])
                        made),
            );
        was_entered = λ fd d e. Destroyed-registered c s s₁ w o.0 fd d (a.was_entered fd d e);
      },
    )

-- When the queue holds closed connections, each once, running it in the loop's thread never fails:
-- the queue is empty afterwards, every one of these connections is disconnected and the poller has
-- forgotten its descriptor, and no other connection changes.
pub do_pending_functors-Drained :
    (current : ℕ) (s : TcpServer)
    → ServerInv s
    → current ≡ s.reactor.thread_id
    → All (IsClosing s) s.pending_functors
    → Distinct s.pending_functors
    → (s' : TcpServer) × (do_pending_functors current s ≡ ok s')
      × Drained s.pending_functors (record s { pending_functors = [] }) s'
unfolding do_pending_functors
do_pending_functors-Drained current s v here o n =
    let s₀ : TcpServer = record s { pending_functors = [] } in
    let (s', e, a) =
      run_functors-Drained current s.pending_functors s₀
        (record { well_formed = v.well_formed; fresh = v.fresh }) here
        (unqueued s.pending_functors o) n in
    (s', ground (arith, here, e), a)
  where
    unqueued :
        (cs : List ℕ)
        → All (IsClosing s) cs
        → All (IsClosing (record s { pending_functors = [] })) cs
    unqueued [] h = tt
    unqueued (c ∷ cs) h = (
      record {
        up = h.0.up;
        own_channel = h.0.own_channel;
        own_fd = h.0.own_fd;
        entered = h.0.entered;
        unwatched = h.0.unwatched;
        held = h.0.held;
        callback = h.0.callback;
        has_callback = h.0.has_callback;
      },
      unqueued cs h.1,
    )
