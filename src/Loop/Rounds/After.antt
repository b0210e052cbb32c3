-- ===== src/Loop/Rounds/After.antt =====
-- From the polled loop, over the events and the functors, to the end of the round.
use penduo.Prelude.{ℕ, ◌≡◌, refl, sym, subst, ap, ◌∙◌, Bool, true, false, List, [], ◌∷◌, All}
use penduo.Sockets.Ops.{Network}
use penduo.Reactor.{Reactor}
use penduo.Buffer.{ReadResult, received, failed}
use penduo.Tcp.{TcpServer, TcpConnection}
use penduo.Tcp.Drain.{IsDown, Drained}
use penduo.Tcp.Marks.{SameServer, with_reactor}
use penduo.Tcp.Settled.{IsServed, Settled, SameServer-IsServed, Grown-refl, waits, All-waits}
use penduo.Tcp.Settled.Drain.{Drained-IsServed, Drained-conns}
use penduo.Tcp.Settled.Effects.{Effect, Effect-before, Since-after, Told-after}
use penduo.Loop.{Loop, Round, reactor_of, put_reactor}
use penduo.Loop.Invariant.{is_special, Running}
use penduo.Loop.Events.{Joined}
use penduo.Loop.Active.{is_readable}
use penduo.Loop.Sweep.{Outside, Swept}
use penduo.Loop.Rounds.{active, RoundEffect}

-- The effect after the functors, of which the end of the connection is one.
Drained-Effect :
    (special : ℕ → Bool) (to_string : ℕ → List ℕ) (leaves : List ℕ → List ℕ) (c : ℕ)
    (s s₁ s' : TcpServer)
    → ((d : ℕ) → IsServed special s₁ d → IsServed special s' d)
    → ((d : ℕ) → IsServed special s₁ d → s'.conns d ≡ s₁.conns d)
    → Drained s₁.pending_functors (record s₁ { pending_functors = [] }) s'
    → (result : ReadResult) → Effect special leaves result c s s₁
    → RoundEffect special leaves result c s s'
Drained-Effect special to_string leaves c s s₁ s' still same d (received []) h =
    let down =
      All-waits (IsDown (record s₁ { pending_functors = [] }) s') c s₁.pending_functors h.0
        d.all_down in
    (down.0, ap (λ (x : TcpConnection). s'.reactor.channels x.socket_fd) (sym h.1) ∙ down.1)
Drained-Effect special to_string leaves c s s₁ s' still same d (received (b ∷ bytes)) h =
    (still c h.0, Told-after special leaves c s s₁ s' _ (same c h.0) d.announced h.1)
Drained-Effect special to_string leaves c s s₁ s' still same d failed h =
    (still c h.0, Told-after special leaves c s s₁ s' _ (same c h.0) d.announced h.1)

pub All-map_in : (P Q : ℕ → Type 0) (cs : List ℕ) → ((c : ℕ) → P c → Q c) → All P cs → All Q cs
All-map_in P Q [] f h = tt
All-map_in P Q (c ∷ cs) f h = (f c h.0, All-map_in P Q cs f h.1)

-- From the polled loop, over the events and the functors.
module _ {net : Network} (round : Round) (w w₂ : Loop net) (r : Reactor) (s' : TcpServer)
    (m : SameServer w.serving.server (with_reactor r w.serving.server))
    (swept : Swept round (active round w) (put_reactor r w) w₂)
    (d : Drained w₂.serving.server.pending_functors
      (record w₂.serving.server { pending_functors = [] })
      s') where
  settled₂ : Settled (is_special w) net.to_string w₂.serving.server
  settled₂ =
      subst (λ special. Settled special net.to_string w₂.serving.server) swept.same_special
        swept.running.settled

  still_served :
      (x : ℕ) → IsServed (is_special w) w₂.serving.server x → IsServed (is_special w) s' x
  still_served = Drained-IsServed (is_special w) net.to_string w₂.serving.server s' settled₂ d

  same_conns :
      (x : ℕ) → IsServed (is_special w) w₂.serving.server x → s'.conns x ≡ w₂.serving.server.conns x
  same_conns = Drained-conns (is_special w) net.to_string w₂.serving.server s' settled₂ d

  pub All-RoundEffect :
      All
        (λ c.
          is_special w c ≡ false
          → is_readable (put_reactor r w) c ≡ true
          → RoundEffect (is_special w) round.leaves (round.readv c) c w.serving.server s')
        (active round w)
  All-RoundEffect =
      All-map_in _ _ (active round w)
        (λ c effect common asked.
          Drained-Effect (is_special w) net.to_string round.leaves c w.serving.server
            w₂.serving.server s' still_served same_conns d (round.readv c)
            (Effect-before (is_special w) round.leaves c w.serving.server
              (with_reactor r w.serving.server) w₂.serving.server (round.readv c) refl
              (Grown-refl w.serving.server.calls) (effect common asked)))
        swept.effects

  pub polled-Joined :
      waits w.serving.acceptor.accept_channel (active round w) ≡ true
      → is_readable (put_reactor r w) w.serving.acceptor.accept_channel ≡ true
      → Joined w s'
  polled-Joined among asked =
      let j = swept.joined among asked in
      let same = same_conns w.serving.server.next_object j.is_served in
      record {
        fd = j.fd;
        is_there = j.is_there;
        is_served = still_served w.serving.server.next_object j.is_served;
        on_fd = ap (λ (x : TcpConnection). x.socket_fd) same ∙ j.on_fd;
        callback = j.callback;
        has_callback = ap (λ (x : TcpConnection). x.connection_callback) same ∙ j.has_callback;
        announced = Since-after _ _ _ _ d.announced j.announced;
      }

  pub all_others :
      Running w
      → (x : ℕ) → Outside w (active round w) x
      → IsServed (is_special w) w.serving.server x
      → IsServed (is_special w) s' x × (s'.conns x ≡ w.serving.server.conns x)
  all_others v x out q =
      let below = v.settled.well.server_inv.fresh ((reactor_of w).chans x).fd x q.entered in
      let q₂ = swept.still x out (SameServer-IsServed (is_special w) w.serving.server _ m x q) in
      (still_served x q₂, same_conns x q₂ ∙ swept.other_conns x out below)
