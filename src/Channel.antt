-- ===== src/Channel.antt =====
-- net/Channel.h and net/Channel.cpp: one descriptor, the events asked for and the events returned.
-- A channel is an object in a store, named by a number; a callback is named by a number too.
use penduo.Prelude.{
  ℕ, ℤ, negsuc, Bool, true, false, not, ◌&&◌, ◌||◌, Option, none, Outcome, ◌>>◌, assert,
}

-- The bits of `poll` that the program names; `int` masks are taken apart into them.
pub record Events : Type 0 where
  pub pollin : Bool
  pub pollpri : Bool
  pub pollout : Bool
  pub pollerr : Bool
  pub pollhup : Bool
  pub pollnval : Bool

abbrev pub k_none_event : Events
k_none_event = record {
  pollin = false;
  pollpri = false;
  pollout = false;
  pollerr = false;
  pollhup = false;
  pollnval = false;
}

abbrev pub k_read_event : Events
k_read_event = record k_none_event { pollin = true; pollpri = true }

abbrev pub k_write_event : Events
k_write_event = record k_none_event { pollout = true }

-- `a | b`
abbrev pub union : Events → Events → Events
union a b = record {
  pollin = a.pollin || b.pollin;
  pollpri = a.pollpri || b.pollpri;
  pollout = a.pollout || b.pollout;
  pollerr = a.pollerr || b.pollerr;
  pollhup = a.pollhup || b.pollhup;
  pollnval = a.pollnval || b.pollnval;
}

-- `a != 0`
abbrev pub any : Events → Bool
any e = e.pollin || e.pollpri || e.pollout || e.pollerr || e.pollhup || e.pollnval

abbrev same_bit : Bool → Bool → Bool
same_bit true b = b
same_bit false b = not b

-- `a == b`
abbrev pub same : Events → Events → Bool
same a b =
    same_bit a.pollin b.pollin
    && same_bit a.pollpri b.pollpri
    && same_bit a.pollout b.pollout
    && same_bit a.pollerr b.pollerr
    && same_bit a.pollhup b.pollhup
    && same_bit a.pollnval b.pollnval

pub record Channel : Type 0 where
  pub loop : ℕ
  pub fd : ℕ
  pub events : Events
  pub revents : Events
  pub pollfds_index : ℤ
  pub read_callback : Option ℕ
  pub write_callback : Option ℕ
  pub error_callback : Option ℕ
  pub close_callback : Option ℕ
  pub event_handling : Bool
  pub added_to_loop : Bool

-- The constructor; the pointer to the loop is never null.
abbrev pub new_channel : ℕ → ℕ → Channel
new_channel loop fd = record {
  loop = loop;
  fd = fd;
  events = k_none_event;
  revents = k_none_event;
  pollfds_index = negsuc 0;
  read_callback = none;
  write_callback = none;
  error_callback = none;
  close_callback = none;
  event_handling = false;
  added_to_loop = false;
}

abbrev pub is_none_event : Channel → Bool
is_none_event ch = not (any ch.events)

-- `~Channel`
abbrev pub destroy : Channel → Outcome (Unit {0})
destroy ch =
    assert (not ch.event_handling) >> assert (not ch.added_to_loop) >> assert (is_none_event ch)
