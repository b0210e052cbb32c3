-- ===== src/Loop/Marks.antt =====
-- What `Poller::poll` leaves of a server: only the events that its channels have are new.
use penduo.Prelude.{refl, arith}
use penduo.Reactor.Invariant.{Inv}
use penduo.Poll.{Kernel}
use penduo.Poll.Sound.{IsPoll, polled, with_revents-Rest}
use penduo.Tcp.{TcpServer}
use penduo.Tcp.Marks.{SameServer, with_reactor}

pub polled-SameServer :
    (kernel : Kernel) (s : TcpServer) (v : Inv s.reactor) (k : IsPoll kernel s.reactor.pollfds)
    → SameServer s (with_reactor (polled kernel s.reactor v k) s)
polled-SameServer kernel s v k = record {
  chans = λ d.
      ground (
        arith,
        with_revents-Rest s.reactor.channels (kernel s.reactor.pollfds).1 s.reactor.chans d,
      );
  conns = λ d. refl;
  same_channels = refl;
  same_thread = refl;
  same_rest = refl;
}
