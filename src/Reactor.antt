-- ===== src/Reactor.antt =====
-- net/Poller.h, net/Poller.cpp, and the parts of net/EventLoop.cpp and net/Channel.cpp that lead to
-- it: a loop, its poller and the store of its channels. `current` is the calling thread.
pub mod Invariant
pub mod Update
pub mod Change
pub mod Interest
pub mod Remove
pub mod Removal
pub mod Reuse
pub mod Table
use penduo.Prelude.{
  ℕ, ◌-◌, ℤ, pos, negsuc, complement, eqb_ℤ, Bool, true, false, not, ◌&&◌, ◌||◌, Option, none, some,
  List, [], ◌∷◌, ◌++◌, Outcome, ok, fail, fatal, assertion, ◌>>=◌, ◌>>◌, assert, at_or_throw, ltb,
  ◌==◌, if◌then◌else◌, length, get_elem?, set, pop_back, update,
}
use penduo.Channel.{Events, k_none_event, k_read_event, union, same, any, Channel, is_none_event}

-- `struct pollfd`; a negative descriptor is one that `poll` skips.
pub record PollFd : Type 0 where
  pub fd : ℤ
  pub events : Events
  pub revents : Events

pub record Poller : Type 0 where
  pub pollfds : List PollFd
  pub channels : ℕ → Option ℕ

-- An EventLoop as its poller sees it, with the channels that it does not own.
pub record Reactor : Type 0 where
  pub self : ℕ
  pub thread_id : ℕ
  pub poller : Poller
  pub open poller use *
  pub chans : ℕ → Channel

abbrev pub is_some {ℓ} : {A : Type ℓ} → Option A → Bool
is_some none = false
is_some (some _) = true

-- `channels_.count(fd)`, for an `int` that may be negative
abbrev pub find : (ℕ → Option ℕ) → ℤ → Option ℕ
find m (pos fd) = m fd
find m (negsuc _) = none

-- `channels_.at(fd) == channel`
abbrev pub is_at : Option ℕ → ℕ → Bool
is_at none c = false
is_at (some d) c = d == c

-- `channels_.insert({fd, channel})` keeps the entry that is there.
abbrev pub insert : (ℕ → Option ℕ) → ℕ → ℕ → ℕ → Option ℕ
insert m fd c = elim (m fd) [ none ↦ update m fd (some c) | some _ ↦ m ]

-- `EventLoop::abort_not_in_loop_thread`
abbrev pub abort_not_in_loop_thread : Outcome (Unit {0})
abort_not_in_loop_thread = fail fatal

abbrev pub assert_in_loop_thread : ℕ → Reactor → Outcome (Unit {0})
assert_in_loop_thread current r = if current == r.thread_id then ok tt else abort_not_in_loop_thread

abbrev pub set_chan : Reactor → ℕ → Channel → Reactor
set_chan r c ch = record r { chans = update r.chans c ch }

-- The branch of `Poller::update_channel` for a new channel.
pub add_pollfd : ℕ → Reactor → Outcome Reactor
add_pollfd c r =
    let ch = r.chans c in
    let pollfds =
      r.pollfds ++ record { fd = pos ch.fd; events = ch.events; revents = k_none_event } ∷ [] in
    assert (not (is_some (r.channels ch.fd)))
    >> ok (record r {
      poller = record { pollfds = pollfds; channels = insert r.channels ch.fd c };
      chans = update r.chans c (record ch { pollfds_index = pos (length pollfds - 1) });
    })

-- The entry that an update of a known channel writes.
unfoldable pub entry : ℕ → Events → PollFd
entry fd events = record {
  fd = if any events then pos fd else complement (pos fd);
  events = events;
  revents = k_none_event;
}

-- The other branch, for a channel with an index.
pub change_pollfd : ℕ → ℕ → Reactor → Outcome Reactor
change_pollfd c idx r = do
  let ch = r.chans c
  assert (is_some (r.channels ch.fd))
  assert (is_at (r.channels ch.fd) c)
  assert (ltb idx (length r.pollfds))
  pfd ← at_or_throw (get_elem? r.pollfds idx)
  assert (eqb_ℤ pfd.fd (pos ch.fd) || eqb_ℤ pfd.fd (complement (pos ch.fd)))
  ok (record r { poller = record r.poller { pollfds = set r.pollfds idx (entry ch.fd ch.events) } })

abbrev pub update_by_index : ℤ → ℕ → Reactor → Outcome Reactor
update_by_index (negsuc _) c r = add_pollfd c r
update_by_index (pos idx) c r = change_pollfd c idx r

-- `Poller::update_channel`
unfoldable pub poller_update_channel : ℕ → ℕ → Reactor → Outcome Reactor
unfolding add_pollfd change_pollfd
poller_update_channel current c r =
    assert_in_loop_thread current r >> update_by_index (r.chans c).pollfds_index c r

-- `fd < 0 ? ~fd : fd`
abbrev pub real_fd : ℤ → ℕ
real_fd (pos fd) = fd
real_fd (negsuc fd) = fd

-- `std::swap(pollfds_[idx], pollfds_.back())`, then the index of the channel that moved.
unfoldable pub swap_with_back : ℕ → Reactor → Outcome Reactor
swap_with_back idx r = do
  removed ← at_or_throw (get_elem? r.pollfds idx)
  moved ← at_or_throw (get_elem? r.pollfds (length r.pollfds - 1))
  let pollfds = set (set r.pollfds idx moved) (length r.pollfds - 1) removed
  assert (is_some (r.channels (real_fd moved.fd)))
  d ← at_or_throw (r.channels (real_fd moved.fd))
  ok (record r {
    poller = record r.poller { pollfds = pollfds };
    chans = update r.chans d (record (r.chans d) { pollfds_index = pos idx });
  })

abbrev pub drop_back : Reactor → Reactor
drop_back r = record r { poller = record r.poller { pollfds = pop_back r.pollfds } }

abbrev pub erase_fd : ℕ → Reactor → Reactor
erase_fd fd r = record r { poller = record r.poller { channels = update r.channels fd none } }

-- `Poller::remove_channel` from the index on.
pub remove_at : ℕ → ℤ → Reactor → Outcome Reactor
remove_at c (negsuc n) r = fail assertion
remove_at c (pos idx) r = do
  let ch = r.chans c
  assert (ltb idx (length r.pollfds))
  pfd ← at_or_throw (get_elem? r.pollfds idx)
  assert (eqb_ℤ pfd.fd (complement (pos ch.fd)) && same pfd.events ch.events)
  assert (is_some (r.channels ch.fd))
  let erased = erase_fd ch.fd r
  r' ← if idx == length r.pollfds - 1 then ok erased else swap_with_back idx erased
  ok (drop_back r')

-- `Poller::remove_channel`
unfoldable pub poller_remove_channel : ℕ → ℕ → Reactor → Outcome Reactor
unfolding remove_at
poller_remove_channel current c r = do
  assert_in_loop_thread current r
  let ch = r.chans c
  assert (is_some (r.channels ch.fd))
  assert (is_at (r.channels ch.fd) c)
  assert (is_none_event ch)
  remove_at c ch.pollfds_index r

-- `EventLoop::update_channel`
unfoldable pub update_channel : ℕ → ℕ → Reactor → Outcome Reactor
unfolding poller_update_channel
update_channel current c r = do
  assert ((r.chans c).loop == r.self)
  assert_in_loop_thread current r
  poller_update_channel current c r

-- `EventLoop::remove_channel`
unfoldable pub remove_channel : ℕ → ℕ → Reactor → Outcome Reactor
unfolding poller_remove_channel
remove_channel current c r = do
  assert ((r.chans c).loop == r.self)
  assert_in_loop_thread current r
  poller_remove_channel current c r

-- `Channel::update`
unfoldable pub channel_update : ℕ → ℕ → Reactor → Outcome Reactor
unfolding update_channel
channel_update current c r = do
  assert_in_loop_thread current r
  r' ← update_channel current c r
  ok (set_chan r' c (record (r'.chans c) { added_to_loop = true }))

-- `Channel::enable_reading`
unfoldable pub enable_reading : ℕ → ℕ → Reactor → Outcome Reactor
unfolding channel_update
enable_reading current c r =
    let ch = r.chans c in
    channel_update current c (set_chan r c (record ch { events = union ch.events k_read_event }))

-- `Channel::disable_all`
unfoldable pub disable_all : ℕ → ℕ → Reactor → Outcome Reactor
unfolding channel_update
disable_all current c r =
    channel_update current c (set_chan r c (record (r.chans c) { events = k_none_event }))

-- `Channel::remove`
unfoldable pub channel_remove : ℕ → ℕ → Reactor → Outcome Reactor
unfolding remove_channel
channel_remove current c r = do
  assert_in_loop_thread current r
  let ch = r.chans c
  assert (is_none_event ch)
  assert ch.added_to_loop
  remove_channel current c (set_chan r c (record ch { added_to_loop = false }))
