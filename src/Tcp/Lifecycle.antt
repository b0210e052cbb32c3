-- ===== src/Tcp/Lifecycle.antt =====
-- A server as a whole: connections come, hang up and are taken down, in any order.
use penduo.Prelude.{
  ℕ, subst, ◌≡◌, refl, sym, ◌∙◌, false, none, some, List, [], ◌∷◌, ◌++◌, Outcome, ok, ◌>>=◌, pos,
  arith, ◌==◌, All,
}
use penduo.Channel.{k_read_event}
use penduo.InetAddress.{InetAddress}
use penduo.InetAddress.Text.{HasFamily}
use penduo.Sockets.Ops.{Network, sockets_of}
use penduo.Tcp.{TcpServer, new_connection, handle_close, do_pending_functors}
use penduo.Tcp.Establish.{ServerInv, IsOpen, Accepted, new_connection-Accepted}
use penduo.Tcp.Close.{IsClosing, Closed, handle_close-Closed}
use penduo.Tcp.Drain.{Distinct, Drained, do_pending_functors-Drained}

-- What the loop calls of a server.
pub data Request : Type 0 where
  accept : (fd : ℕ) (peer_addr : InetAddress) → Request
  hang_up : (c : ℕ) → Request
  drain : Request

abbrev pub serve :
    (net : Network) (current : ℕ) → Request → TcpServer × net.W → Outcome (TcpServer × net.W)
serve net current (accept fd peer_addr) (s, w) = new_connection net current fd peer_addr (s, w)
serve net current (hang_up c) (s, w) = handle_close current c s >>= λ s'. ok (s', w)
serve net current drain (s, w) = do_pending_functors current s >>= λ s'. ok (s', w)

-- What a request asks of the server: a descriptor that is not in the poller and a peer with an address,
-- or a connection that is open.
abbrev pub IsReady : Request → TcpServer → Type 0
IsReady (accept fd peer_addr) s = (s.reactor.channels fd ≡ none) × HasFamily peer_addr
IsReady (hang_up c) s = IsOpen s c
IsReady drain s = Unit {0}

-- Between two requests: the queue holds closed connections, each once.
pub record Well (s : TcpServer) : Type 0 where
  pub server_inv : ServerInv s
  pub callback : ℕ
  pub has_callback : s.connection_callback ≡ some callback
  pub closing : All (IsClosing s) s.pending_functors
  pub once : Distinct s.pending_functors

All-map-IsClosing :
    (s s' : TcpServer) (cs : List ℕ)
    → ((d : ℕ) → IsClosing s d → IsClosing s' d)
    → All (IsClosing s) cs
    → All (IsClosing s') cs
All-map-IsClosing s s' [] f h = tt
All-map-IsClosing s s' (c ∷ cs) f h = (f c h.0, All-map-IsClosing s s' cs f h.1)

-- An old connection that closes is not the new one, nor has it its descriptor.
Accepted-IsClosing :
    (net : Network) (fd : ℕ) (peer_addr : InetAddress) (w : net.W) (s s' : TcpServer)
    → ServerInv s
    → s.reactor.channels fd ≡ none
    → Accepted net fd peer_addr w s s'
    → (d : ℕ) → IsClosing s d
    → IsClosing s' d
Accepted-IsClosing net fd peer_addr w s s' v unused a d q =
    let old : (s.next_object == d) ≡ false =
      ground (arith, v.fresh (s.reactor.chans d).fd d q.entered) in
    let apart : (fd == (s.reactor.chans d).fd) ≡ false = ground (arith, q.entered) in
    record {
      up = ground (arith, q, a.other_conns d old);
      own_channel = ground (arith, q, a.other_conns d old);
      own_fd = ground (arith, q, a.other_conns d old, a.other_chans d old);
      entered = ground (arith, q, a.other_chans d old, a.other_fds (s.reactor.chans d).fd apart);
      unwatched = ground (arith, q, a.other_chans d old);
      held = ground (arith, q, a.other_conns d old);
      callback = q.callback;
      has_callback = ground (arith, q, a.other_conns d old);
    }

-- A channel that is watched is not in the queue.
pub watched_differs :
    (s : TcpServer) (c : ℕ) (cs : List ℕ)
    → (s.reactor.chans c).events ≡ k_read_event
    → All (IsClosing s) cs
    → All (λ d. (c == d) ≡ false) cs
watched_differs s c [] o h = tt
watched_differs s c (d ∷ cs) o h = (ground (arith, h.0.unwatched), watched_differs s c cs o h.1)

Distinct-push_back :
    (c : ℕ) (cs : List ℕ) → All (λ d. (c == d) ≡ false) cs → Distinct cs → Distinct (cs ++ c ∷ [])
Distinct-push_back c [] n h = (tt, tt)
Distinct-push_back c (d ∷ cs) n h =
    (push d cs (ground (arith, n.0)) h.0, Distinct-push_back c cs n.1 h.1)
  where
    push :
        (d : ℕ) (cs : List ℕ)
        → (d == c) ≡ false
        → All (λ e. (d == e) ≡ false) cs
        → All (λ e. (d == e) ≡ false) (cs ++ c ∷ [])
    push d [] e h = (e, tt)
    push d (x ∷ cs) e h = (h.0, push d cs e h.1)

All-push-IsClosing :
    (c : ℕ) (s s' : TcpServer) (cs : List ℕ)
    → Closed c s s'
    → All (λ d. (c == d) ≡ false) cs
    → All (IsClosing s) cs
    → All (IsClosing s') (cs ++ c ∷ [])
All-push-IsClosing c s s' [] w n h = (w.is_closing, tt)
All-push-IsClosing c s s' (d ∷ cs) w n h =
    (w.other_closing d n.0 h.0, All-push-IsClosing c s s' cs w n.1 h.1)

pub Accepted-Well :
    (net : Network) (fd : ℕ) (peer_addr : InetAddress) (w : net.W) (s s' : TcpServer)
    → Well s
    → s.reactor.channels fd ≡ none
    → Accepted net fd peer_addr w s s'
    → Well s'
Accepted-Well net fd peer_addr w s s' v unused a = record {
  server_inv = a.server_inv;
  callback = v.callback;
  has_callback = a.same_callback ∙ v.has_callback;
  closing = subst (All (IsClosing s')) (sym a.nothing_queued) (
      All-map-IsClosing s s' s.pending_functors
        (Accepted-IsClosing net fd peer_addr w s s' v.server_inv unused a) v.closing);
  once = subst Distinct (sym a.nothing_queued) v.once;
}

pub Closed-Well : (c : ℕ) (s s' : TcpServer) → Well s → IsOpen s c → Closed c s s' → Well s'
Closed-Well c s s' v o k =
    let n = watched_differs s c s.pending_functors o.watched v.closing in
    record {
      server_inv = k.server_inv;
      callback = v.callback;
      has_callback = k.same_callback ∙ v.has_callback;
      closing =
          subst (All (IsClosing s')) (sym k.queued)
            (All-push-IsClosing c s s' s.pending_functors k n v.closing);
      once = subst Distinct (sym k.queued) (Distinct-push_back c s.pending_functors n v.once);
    }

pub Drained-Well :
    (cs : List ℕ) (s s' : TcpServer)
    → Well s
    → Drained cs (record s { pending_functors = [] }) s'
    → Well s'
Drained-Well cs s s' v k = record {
  server_inv = k.server_inv;
  callback = v.callback;
  has_callback = k.same_callback ∙ v.has_callback;
  closing = subst (All (IsClosing s')) (sym k.same_pending) tt;
  once = subst Distinct (sym k.same_pending) tt;
}

-- In the loop's thread no request that the server is ready for fails, and the server is well-formed
-- after it: with a connection callback, a well-formed poller, and a queue of closed connections in
-- which each stands once.
pub serve-Well :
    (net : Network) (current : ℕ) (request : Request) (s : TcpServer) (w : net.W)
    → Well s
    → current ≡ s.reactor.thread_id
    → IsReady request s
    → (s' : TcpServer) × (w' : net.W) × (serve net current request (s, w) ≡ ok (s', w')) × Well s'
serve-Well net current (accept fd peer_addr) s w v here ready =
    let (s', e, a) =
      new_connection-Accepted net current fd v.callback peer_addr s w v.server_inv here ready.0
        v.has_callback ready.1 in
    (
      s',
      ((sockets_of net).get_local_addr (pos fd) w).1,
      e,
      Accepted-Well net fd peer_addr w s s' v ready.0 a,
    )
serve-Well net current (hang_up c) s w v here ready =
    let (s', e, k) = handle_close-Closed current c s v.server_inv here ready in
    (s', w, rw e refl, Closed-Well c s s' v ready k)
serve-Well net current drain s w v here ready =
    let (s', e, k) = do_pending_functors-Drained current s v.server_inv here v.closing v.once in
    (s', w, rw e refl, Drained-Well s.pending_functors s s' v k)
