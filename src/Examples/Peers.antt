-- ===== src/Examples/Peers.antt =====
-- A loop with the server of the examples, in which the peer of connection 1 hangs up.
use penduo.Prelude.{◌≡◌, refl, false, none, [], ok}
use penduo.Timestamp.{zero_timestamp}
use penduo.Buffer.{received}
use penduo.Sockets.{eagain}
use penduo.Poll.Fill.{ready_channels, with_revents}
use penduo.Loop.{Loop, Round, run_round}
use penduo.Loop.HangUp.{HangsUp, HungUp, run_round-HungUp}
use penduo.Examples.Servers.{echo, echo-ServerInv, echo-IsOpen}
use penduo.Examples.Rounds.{kernel, kernel-IsPoll}
use penduo.Examples.Acceptors.{door}
use penduo.Examples.Networks.{small_network}

abbrev hall : Loop small_network
hall = record {
  serving = record {
    acceptor = door small_network;
    server = echo;
    started = false;
    system = (2, eagain);
  };
  timers = record { thread_id = 7; timer_list = []; armed = none };
  timer_channel = 8;
  wakeup_channel = 9;
  wakeups = 0;
  looping = false;
  quit = false;
  calling_pending_functors = false;
}

abbrev silence : Round
silence = record {
  kernel = kernel;
  receive_time = zero_timestamp;
  now = zero_timestamp;
  readv = λ c. received [];
  adds = λ k. [];
  leaves = λ buffer. buffer;
  quits = false;
}

hall-HangsUp : HangsUp small_network silence 1 hall
hall-HangsUp = record {
  is_open = echo-IsOpen;
  reads = refl;
  no_error_callback = refl;
  nothing_queued = refl;
  not_timer = refl;
  not_wakeup = refl;
  not_acceptor = refl;
  end_of_stream = refl;
}

run_round-HungUp_example :
    (w' : Loop small_network) × (run_round silence 7 hall ≡ ok w') × HungUp 1 echo w'.serving.server
unfolding ready_channels with_revents
run_round-HungUp_example =
    run_round-HungUp small_network silence 7 1 hall echo-ServerInv kernel-IsPoll refl hall-HangsUp
      refl refl refl
