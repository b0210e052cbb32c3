-- ===== src/Examples/Poller.antt =====
-- A poller with two channels, 0 and 1, under the descriptors 10 and 11; channel 2 is new.
use penduo.Prelude.{
  ℕ, ◌≡◌, refl, inl, pos, negsuc, true, false, Option, none, some, [], ◌∷◌, ok, fail, assertion,
  ◌>>=◌, arith, ◌==◌, if◌then◌else◌, get_elem?, set, pop_back, update,
}
use penduo.Channel.{k_none_event, k_read_event, union, Channel, new_channel}
use penduo.Reactor.{Reactor, entry, enable_reading, disable_all, channel_remove, swap_with_back}
use penduo.Reactor.Invariant.{Inv}
use penduo.Reactor.Interest.{IsNew, Asks, enable_reading-Asks}
use penduo.Reactor.Removal.{Removed, channel_remove-Removed}
use penduo.Reactor.Reuse.{enable_reading-channel_remove, channel_remove-disable_all}

abbrev pub reading : ℕ → ℕ → Channel
reading c fd = record (new_channel 0 fd) {
  events = k_read_event;
  pollfds_index = pos c;
  read_callback = some c;
  added_to_loop = true;
}

abbrev pub silent : Channel
silent = record (reading 0 10) { events = k_none_event }

abbrev pub in_use : ℕ → Option ℕ
in_use fd = if fd == 10 then some 0 else if fd == 11 then some 1 else none

-- Both channels read.
abbrev pub two : Reactor
two = record {
  self = 0;
  thread_id = 7;
  poller = record {
    pollfds =
        record { fd = pos 10; events = k_read_event; revents = k_none_event }
        ∷ record { fd = pos 11; events = k_read_event; revents = k_none_event }
        ∷ [];
    channels = in_use;
  };
  chans = λ c. if c == 0 then reading 0 10 else if c == 1 then reading 1 11 else new_channel 0 12;
}

-- Channel 0 asks for nothing.
abbrev pub one_silent : Reactor
one_silent = record two {
  poller = record {
    pollfds =
        record { fd = negsuc 10; events = k_none_event; revents = k_none_event }
        ∷ record { fd = pos 11; events = k_read_event; revents = k_none_event }
        ∷ [];
    channels = in_use;
  };
  chans = λ c. if c == 0 then silent else if c == 1 then reading 1 11 else new_channel 0 12;
}

pub two-Inv : Inv two
unfolding get_elem? entry
two-Inv = record { mapped = λ fd c m. ground arith; polled = λ i s h. ground arith }

pub one_silent-Inv : Inv one_silent
unfolding get_elem? entry
one_silent-Inv = record { mapped = λ fd c m. ground arith; polled = λ i s h. ground arith }

two-IsNew : IsNew two 2
two-IsNew = record { unindexed = refl; free = refl; owner = refl }

channel_remove-Removed_example :
    (r' : Reactor) × (channel_remove 7 0 one_silent ≡ ok r') × Removed 0 one_silent r'
channel_remove-Removed_example = channel_remove-Removed 7 0 one_silent one_silent-Inv refl refl refl

enable_reading-Asks_example :
    (r' : Reactor) × (enable_reading 7 2 two ≡ ok r')
    × Asks (union (two.chans 2).events k_read_event) 2 two r'
enable_reading-Asks_example = enable_reading-Asks 7 2 two two-Inv refl (inl two-IsNew)

channel_remove-disable_all_example : (disable_all 7 2 two >>= channel_remove 7 2) ≡ fail assertion
channel_remove-disable_all_example = channel_remove-disable_all 7 2 two refl two-IsNew

-- The poller after channel 0 is removed: the last entry has taken its place.
abbrev pub one_left : Reactor
one_left = record two {
  poller = record {
    pollfds = record { fd = pos 11; events = k_read_event; revents = k_none_event } ∷ [];
    channels = update in_use 10 none;
  };
  chans =
      update (update one_silent.chans 0 (record silent { added_to_loop = false })) 1
        (record (reading 1 11) { pollfds_index = pos 0 });
}

one_left_after : channel_remove 7 0 one_silent ≡ ok one_left
unfolding channel_remove swap_with_back get_elem? pop_back set
one_left_after = refl

enable_reading-channel_remove_example : enable_reading 7 0 one_left ≡ fail assertion
enable_reading-channel_remove_example =
    enable_reading-channel_remove 7 0 one_silent one_left one_silent-Inv refl refl refl
      one_left_after
