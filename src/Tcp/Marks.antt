-- ===== src/Tcp/Marks.antt =====
-- A server in which only the events that `Poller::poll` found, the marks of `Channel::handle_event`, the
-- buffers of connections and the calls of the user's callbacks are new.
use penduo.Prelude.{ℕ, ◌≡◌, refl, Bool, List, arith}
use penduo.Channel.{Channel}
use penduo.Reactor.{Reactor, set_chan}
use penduo.Reactor.Invariant.{Inv}
use penduo.Tcp.{TcpServer, TcpConnection, set_buffer}
use penduo.Tcp.Establish.{ServerInv, IsOpen}
use penduo.Tcp.Close.{IsClosing}
use penduo.Tcp.Read.{delivered}

-- Two channels that differ only in the events that `poll` found and in the mark of `handle_event`.
abbrev pub Marked : Channel → Channel → Type 0
Marked a b = b ≡ record a { revents = b.revents; event_handling = b.event_handling }

-- Two connections that differ only in what is read and not yet taken.
abbrev pub Rebuffered : TcpConnection → TcpConnection → Type 0
Rebuffered a b = b ≡ record a { input_buffer = b.input_buffer }

pub record SameServer (s s' : TcpServer) : Type 0 where
  pub chans : (d : ℕ) → Marked (s.reactor.chans d) (s'.reactor.chans d)
  pub conns : (d : ℕ) → Rebuffered (s.conns d) (s'.conns d)
  pub same_channels : s'.reactor.channels ≡ s.reactor.channels
  pub same_thread : s'.reactor.thread_id ≡ s.reactor.thread_id
  pub same_rest : s' ≡ record s { reactor = s'.reactor; conns = s'.conns; calls = s'.calls }

pub SameServer-IsOpen : (s s' : TcpServer) (c : ℕ) → SameServer s s' → IsOpen s c → IsOpen s' c
SameServer-IsOpen s s' c m o = record {
  up = ground (arith, o, m.conns c);
  own_channel = ground (arith, o, m.conns c);
  own_fd = ground (arith, o, m.conns c, m.chans c);
  entered = ground (arith, o, m.same_channels, m.chans c);
  watched = ground (arith, o, m.chans c);
  in_map = ground (arith, o, m.same_rest, m.conns c);
  held = ground (arith, o, m.conns c);
  callback = o.callback;
  has_callback = ground (arith, o, m.conns c);
}

pub SameServer-IsClosing :
    (s s' : TcpServer) (c : ℕ) → SameServer s s' → IsClosing s c → IsClosing s' c
SameServer-IsClosing s s' c m o = record {
  up = ground (arith, o, m.conns c);
  own_channel = ground (arith, o, m.conns c);
  own_fd = ground (arith, o, m.conns c, m.chans c);
  entered = ground (arith, o, m.same_channels, m.chans c);
  unwatched = ground (arith, o, m.chans c);
  held = ground (arith, o, m.conns c);
  callback = o.callback;
  has_callback = ground (arith, o, m.conns c);
}

-- The mark of `handle_event`.
abbrev pub marked : ℕ → Bool → Reactor → Reactor
marked c b r = set_chan r c (record (r.chans c) { event_handling = b })

marked-Inv : (c : ℕ) (b : Bool) (r : Reactor) → Inv r → Inv (marked c b r)
marked-Inv c b r v = record {
  mapped = λ fd d m. ground (arith, v.mapped fd d m);
  polled = λ i s h. ground (arith, v.polled i s h);
}

abbrev pub with_reactor : Reactor → TcpServer → TcpServer
with_reactor r s = record s { reactor = r }

pub marked-SameServer :
    (c : ℕ) (b : Bool) (s : TcpServer) → SameServer s (with_reactor (marked c b s.reactor) s)
marked-SameServer c b s = record {
  chans = λ d. ground arith;
  conns = λ d. refl;
  same_channels = refl;
  same_thread = refl;
  same_rest = refl;
}

pub marked-ServerInv :
    (c : ℕ) (b : Bool) (s : TcpServer)
    → ServerInv s
    → ServerInv (with_reactor (marked c b s.reactor) s)
marked-ServerInv c b s v = record {
  well_formed = marked-Inv c b s.reactor v.well_formed;
  fresh = v.fresh;
}

-- A read, and the call of the message callback.
pub set_buffer-SameServer :
    (c : ℕ) (buffer : List ℕ) (s : TcpServer) → SameServer s (set_buffer c buffer s)
set_buffer-SameServer c buffer s = record {
  chans = λ d. refl;
  conns = λ d. ground arith;
  same_channels = refl;
  same_thread = refl;
  same_rest = refl;
}

pub delivered-SameServer :
    (leaves : List ℕ → List ℕ) (k c : ℕ) (buffer : List ℕ) (s : TcpServer)
    → SameServer s (delivered leaves k c buffer s)
delivered-SameServer leaves k c buffer s = record {
  chans = λ d. refl;
  conns = λ d. ground arith;
  same_channels = refl;
  same_thread = refl;
  same_rest = refl;
}
