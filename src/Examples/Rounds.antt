-- ===== src/Examples/Rounds.antt =====
-- A round of the loop: `poll`, `handle_event`, and the loop's own two channels.
use penduo.Prelude.{
  ℕ, ◌+◌, ◌≡◌, refl, pos, true, false, Option, none, List, [], ◌∷◌, ◌++◌, Outcome, ok, ◌>>=◌, arith,
  get_elem?,
}
use penduo.Channel.{k_none_event, k_read_event, new_channel}
use penduo.Reactor.{PollFd, Reactor}
use penduo.Reactor.Invariant.{Inv}
use penduo.Reactor.Interest.{IsNew}
use penduo.Timestamp.{Timestamp, zero_timestamp}
use penduo.Poll.{Kernel, poll}
use penduo.Poll.Fill.{ready_count, ready_channels, AllOwned}
use penduo.Poll.Sound.{IsPoll, polled, poll_lem}
use penduo.Dispatch.{World, set_handling, handle_event}
use penduo.Dispatch.Order.{Keeps, expected_calls, run_plan, handle_event-plan}
use penduo.Lifetime.{CurrentLoops, construct_loop}
use penduo.Lifetime.Current.{OneLoop, construct_loop-OneLoop}
use penduo.Lifetime.End.{Built}
use penduo.Examples.Poller.{two, two-Inv}

-- The second channel can read.
abbrev readable : List PollFd
readable =
    record { fd = pos 10; events = k_read_event; revents = k_none_event }
    ∷ record { fd = pos 11; events = k_read_event; revents = record k_none_event { pollin = true } }
    ∷ []

abbrev pub kernel : Kernel
kernel ps = (pos 1, readable)

pub kernel-IsPoll : IsPoll kernel two.pollfds
unfolding get_elem? ready_count
kernel-IsPoll = record {
  requests_kept = λ i. ground arith;
  negatives_skipped = λ i n p e h. ground arith;
  counted = refl;
}

poll_lem_example :
    (poll kernel two []
      ≡ ok (polled kernel two two-Inv kernel-IsPoll, [] ++ ready_channels two.channels readable))
    × Inv (polled kernel two two-Inv kernel-IsPoll)
poll_lem_example = poll_lem kernel two two-Inv kernel-IsPoll []

readable-AllOwned : AllOwned two readable
readable-AllOwned = (λ h. ground arith, (λ h. (1, refl, refl), tt))

-- A world that is a reactor and a count of the calls.
abbrev counted_world : World (Reactor × ℕ)
counted_world = record { reactor = λ w. w.0; put = λ r w. (r, w.1); reactor-put = λ r w. refl }

abbrev count : ℕ → Option Timestamp → Reactor × ℕ → Outcome (Reactor × ℕ)
count k t w = ok (w.0, w.1 + 1)

abbrev hung_up : Reactor
hung_up = record two {
  chans = λ c. record (two.chans c) {
    revents = record k_none_event { pollhup = true; pollin = true; pollout = true };
  };
}

count-keeps : Keeps counted_world count 1 zero_timestamp
count-keeps k t w w' e = record {
  revents = ground arith;
  read_callback = ground arith;
  write_callback = ground arith;
  error_callback = ground arith;
  close_callback = ground arith;
}

handle_event-plan_example : handle_event counted_world count 1 zero_timestamp (hung_up, 0) ≡ (
    run_plan counted_world count 1 zero_timestamp
      (expected_calls zero_timestamp (hung_up.chans 1))
      (set_handling counted_world count 1 zero_timestamp true (hung_up, 0))
    >>= λ w. ok (set_handling counted_world count 1 zero_timestamp false w))
handle_event-plan_example =
    handle_event-plan counted_world count 1 zero_timestamp count-keeps (hung_up, 0)

-- A loop with no channels in its poller yet.
abbrev unbuilt : Reactor
unbuilt = record {
  self = 0;
  thread_id = 7;
  poller = record { pollfds = []; channels = λ fd. none };
  chans = λ c. new_channel 0 (c + 3);
}

unbuilt-Inv : Inv unbuilt
unfolding get_elem?
unbuilt-Inv = record { mapped = λ fd c m. ground arith; polled = λ i s h. ground arith }

unbuilt-IsNew : (c : ℕ) → IsNew unbuilt c
unbuilt-IsNew c = record { unindexed = refl; free = refl; owner = refl }

abbrev no_loops : CurrentLoops
no_loops thread = none

construct_loop-OneLoop_example :
    (r' : Reactor) × (t' : CurrentLoops) × (construct_loop 7 0 1 (pos 0) (unbuilt, no_loops)
      ≡ ok (r', t'))
    × Built 0 1 r'
    × OneLoop 7 0 no_loops t'
construct_loop-OneLoop_example =
    construct_loop-OneLoop 7 0 1 unbuilt no_loops unbuilt-Inv refl refl (unbuilt-IsNew 0)
      (unbuilt-IsNew 1) refl refl
