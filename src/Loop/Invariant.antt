-- ===== src/Loop/Invariant.antt =====
-- What holds of a loop between two events: its server is settled, its timer queue well-formed, and its own
-- three channels are watched.
use penduo.Prelude.{ℕ, ◌≡◌, sym, ◌∙◌, Bool, true, ◌||◌, pos, none, some, ◌==◌, false}
use penduo.Sockets.Ops.{Network}
use penduo.InetAddress.Text.{HasFamily}
use penduo.TimerQueue.Add
use penduo.Acceptor.Accepting.{accepted_address}
use penduo.Tcp.{TcpServer, new_connection}
use penduo.Tcp.Establish.{ServerInv}
use penduo.Tcp.Marks.{SameServer}
use penduo.Tcp.Settled.{IsServed, Settled, SameServer-IsServed, SameServer-Settled}
use penduo.Loop.{Loop, reactor_of, put_server}

module _ {net : Network} where
  -- The objects of the loop itself: its timer queue, its pipe and the acceptor.
  abbrev pub is_special : Loop net → ℕ → Bool
  is_special w k =
      k == w.timer_channel || k == w.wakeup_channel || k == w.serving.acceptor.accept_channel

  pub record Running (w : Loop net) : Type 0 where
    pub settled : Settled (is_special w) net.to_string w.serving.server
    pub apart :
        ((w.timer_channel == w.wakeup_channel) ≡ false)
        × ((w.timer_channel == w.serving.acceptor.accept_channel) ≡ false)
        × ((w.wakeup_channel == w.serving.acceptor.accept_channel) ≡ false)
    pub own : (k : ℕ) → is_special w k ≡ true → IsServed (is_special w) w.serving.server k
    pub timers : Add.Inv w.timers
    pub timers_here : w.timers.thread_id ≡ (reactor_of w).thread_id
    pub accepts :
        w.serving.acceptor.new_connection_callback
        ≡ some (new_connection net (reactor_of w).thread_id)

  -- The acceptor has a connection to accept, under a descriptor that is not in use here, from an address
  -- of one of the two families.
  pub record CanAccept (w : Loop net) : Type 0 where
    pub fd : ℕ
    pub is_there : (net.sys.accept (pos w.serving.acceptor.socket_fd) w.serving.system).0 ≡ pos fd
    pub unknown : (reactor_of w).channels fd ≡ none
    pub from_family : HasFamily (accepted_address net (reactor_of w).thread_id w.serving)

  -- A server that stays settled, with the loop's own channels, in the same thread.
  pub put_server-Running :
      (w : Loop net) (s : TcpServer)
      → Running w
      → Settled (is_special w) net.to_string s
      → ((k : ℕ)
          → IsServed (is_special w) w.serving.server k
          → is_special w k ≡ true
          → IsServed (is_special w) s k)
      → s.reactor.thread_id ≡ (reactor_of w).thread_id
      → Running (put_server s w)
  put_server-Running w s v settled still thread = record {
    settled = settled;
    apart = v.apart;
    own = λ k h. still k (v.own k h) h;
    timers = v.timers;
    timers_here = v.timers_here ∙ sym thread;
    accepts = rw thread v.accepts;
  }

  pub put_same-Running :
      (w : Loop net) (s : TcpServer)
      → Running w
      → SameServer w.serving.server s
      → ServerInv s
      → Running (put_server s w)
  put_same-Running w s v m inv =
      put_server-Running w s v
        (SameServer-Settled (is_special w) w.serving.server s m inv v.settled)
        (λ k p h. SameServer-IsServed (is_special w) w.serving.server s m k p) m.same_thread
