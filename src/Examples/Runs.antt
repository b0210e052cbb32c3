-- ===== src/Examples/Runs.antt =====
-- A loop with its own three channels and one connection: a text is there for connection 0, and a peer
-- for the acceptor.
use penduo.Prelude.{
  ℕ, ◌≡◌, ◌<◌, ◌⊎◌, refl, sym, subst, Bool, inl, inr, pos, true, false, Option, none, some, List,
  [], ◌∷◌, ok, arith, ◌==◌, if◌then◌else◌, get_elem?, length, Bool-cases,
}
use penduo.Channel.{k_none_event, k_read_event, new_channel, Events}
use penduo.Reactor.{Reactor, PollFd, entry}
use penduo.Reactor.Invariant.{Inv}
use penduo.Timestamp.{zero_timestamp}
use penduo.Buffer.{received}
use penduo.Sockets.{eagain}
use penduo.Poll.{Kernel}
use penduo.Poll.Fill.{ready_count}
use penduo.Poll.Sound.{IsPoll}
use penduo.Tcp.{TcpServer, TcpConnection, new_connection_object, connected, update_name, same_name}
use penduo.Tcp.Establish.{IsOpen}
use penduo.Tcp.Names.{NamesUsed, eq_of_same_name}
use penduo.Tcp.Settled.{IsServed}
use penduo.InetAddress.{zero_address}
use penduo.Loop.{Loop, Round, run_round}
use penduo.Loop.Invariant.{is_special, Running}
use penduo.Loop.Rounds.{IsFit, RoundDone}
use penduo.Loop.Rounds.Whole.{run_round-RoundDone}
use penduo.Loop.Runs.{some_quits, GoesOn, Returns}
use penduo.Loop.Runs.Whole.{loop-Running}
use penduo.Examples.Poller.{reading}
use penduo.Examples.Networks.{strokes, strokes-injective}
use penduo.Examples.Acceptors.{busy_network, door}

abbrev four_fds : ℕ → Option ℕ
four_fds fd =
    if fd == 10
    then some 0
    else if fd == 12
    then some 2
    else if fd == 20
    then some 1
    else if fd == 21
    then some 3
    else none

abbrev reads : ℕ → Events → PollFd
reads fd found = record { fd = pos fd; events = k_read_event; revents = found }

-- The entries with what `poll` found for connection 0 and the acceptor.
abbrev entries : Events → List PollFd
entries found = reads 10 found ∷ reads 20 k_none_event ∷ reads 12 found ∷ reads 21 k_none_event ∷ []

abbrev four : Reactor
four = record {
  self = 0;
  thread_id = 7;
  poller = record { pollfds = entries k_none_event; channels = four_fds };
  chans = λ c.
      if c == 0
      then reading 0 10
      else if c == 1
      then reading 1 20
      else if c == 2
      then reading 2 12
      else if c == 3
      then reading 3 21
      else new_channel 0 0;
}

four-Inv : Inv four
unfolding get_elem? entry
four-Inv = record { mapped = λ fd c m. ground arith; polled = λ i s h. ground arith }

abbrev only_name : List ℕ
only_name = b'e' ∷ b'#' ∷ b'|' ∷ []

abbrev only : ℕ → TcpConnection
only c = record (new_connection_object only_name 10 c zero_address zero_address) {
  state = connected;
  connection_callback = some 4;
  message_callback = some 5;
  close_callback = some c;
}

abbrev shop : TcpServer
shop = record {
  reactor = four;
  conns = only;
  name = b'e' ∷ [];
  connection_callback = some 4;
  message_callback = some 5;
  next_connect_id = 1;
  connections = update_name (λ n. none) only_name (some 0);
  pending_functors = [];
  next_object = 4;
  calls = [];
}

abbrev running : Loop busy_network
running = record {
  serving = record {
    acceptor = door busy_network;
    server = shop;
    started = true;
    system = (2, eagain);
  };
  timers = record { thread_id = 7; timer_list = []; armed = none };
  timer_channel = 1;
  wakeup_channel = 3;
  wakeups = 0;
  looping = false;
  quit = false;
  calling_pending_functors = false;
}

only-IsOpen : IsOpen shop 0
only-IsOpen = record {
  up = refl;
  own_channel = refl;
  own_fd = refl;
  entered = refl;
  watched = refl;
  in_map = refl;
  held = refl;
  callback = 4;
  has_callback = refl;
}

only_common : (d : ℕ) → d < 4 → is_special running d ≡ false → 0 ≡ d
only_common d h common = ground arith

shop-IsServed : (d : ℕ) → d < 4 → IsServed (is_special running) shop d
shop-IsServed d h = record {
  entered = ground arith;
  watched = ground arith;
  plain = ground arith;
  is_open = λ common. subst (IsOpen shop) (only_common d h common) only-IsOpen;
  message = λ common. (5, refl);
}

shop-NamesUsed : NamesUsed strokes shop
unfolding strokes
shop-NamesUsed n c e = elim (Bool-cases (same_name only_name n)) [
  | inl q ↦ (1, omega arith, sym (eq_of_same_name only_name n q))
  | inr other ↦ absurd (ground arith)
]

running-Running : Running running
running-Running = record {
  settled = record {
    well = record {
      server_inv = record { well_formed = four-Inv; fresh = λ fd d e. ground arith };
      callback = 4;
      has_callback = refl;
      closing = tt;
      once = tt;
    };
    names = shop-NamesUsed;
    message = 5;
    has_message = refl;
    served = λ fd d e. inl (shop-IsServed d (ground arith));
  };
  apart = (refl, refl, refl);
  own = λ k h. shop-IsServed k (ground arith);
  timers = record { sorted = tt; armed_first = refl };
  timers_here = refl;
  accepts = refl;
}

-- Connection 0 has a text, and the acceptor a peer.
abbrev reported : Kernel
reported ps = (pos 2, entries (record k_none_event { pollin = true }))

abbrev busy_round : Round
busy_round = record {
  kernel = reported;
  receive_time = zero_timestamp;
  now = zero_timestamp;
  readv = λ c. received (b'h' ∷ b'i' ∷ []);
  adds = λ k. [];
  leaves = λ buffer. [];
  quits = true;
}

reported-IsPoll : IsPoll reported (entries k_none_event)
unfolding get_elem? ready_count
reported-IsPoll = record {
  requests_kept = λ i. ground arith;
  negatives_skipped = λ i n p e h. ground arith;
  counted = refl;
}

fits : (marks : Bool) → IsFit busy_round (record running { looping = marks })
unfolding length
fits marks = record {
  polls = reported-IsPoll;
  reads = λ k. (refl, omega arith);
  accepts = λ h. record { fd = 13; is_there = refl; unknown = refl; from_family = inl refl };
}

run_round-RoundDone_example :
    (w' : Loop busy_network) × (run_round busy_round 7 running ≡ ok w')
    × RoundDone busy_round running w'
run_round-RoundDone_example =
    run_round-RoundDone busy_network strokes-injective busy_round 7 running running-Running refl
      (fits false)

-- `quit` is called in the first of two rounds.
abbrev two_rounds : List Round
two_rounds = busy_round ∷ busy_round ∷ []

loop-Running_example :
    ((some_quits two_rounds ≡ false) × GoesOn two_rounds 7 running)
    ⊎ ((some_quits two_rounds ≡ true) × Returns two_rounds 7 running)
loop-Running_example =
    loop-Running busy_network strokes-injective 7 two_rounds running running-Running refl refl
      (fits true, λ on. absurd (ground (arith, on)))
