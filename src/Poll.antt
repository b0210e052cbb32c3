-- ===== src/Poll.antt =====
-- net/Poller.cpp: `Poller::poll` and `fill_active_channels`. The system call is the argument `kernel`,
-- which is given the array and returns it with the number of entries that have events, or a negative
-- number.
pub mod Fill
pub mod Sound
use penduo.Prelude.{
  ℕ, ◌-◌, ℤ, pos, negsuc, eqb_ℤ, Bool, true, false, Option, none, some, List, [], ◌∷◌, ◌++◌,
  Outcome, ok, ◌>>=◌, ◌>>◌, assert, at_or_throw, ◌==◌, if◌then◌else◌,
}
use penduo.Channel.{any}
use penduo.Reactor.{PollFd, Reactor, find, is_some, set_chan}

abbrev pub Kernel : Type 0
Kernel = List PollFd → ℤ × List PollFd

-- One round of the loop, for an entry with events.
pub activate : PollFd → ℕ → Reactor → List ℕ → Outcome (ℕ × Reactor × List ℕ)
activate pfd num_events r active = do
  assert (is_some (find r.channels pfd.fd))
  c ← at_or_throw (find r.channels pfd.fd)
  assert (eqb_ℤ (pos (r.chans c).fd) pfd.fd)
  ok (num_events - 1, set_chan r c (record (r.chans c) { revents = pfd.revents }), active ++ c ∷ [])

-- `num_events` is positive at the call, and the loop stops when it has come down to 0.
unfoldable pub fill_active_channels :
    List PollFd → ℕ → Reactor → List ℕ → Outcome (Reactor × List ℕ)
unfolding activate
fill_active_channels [] num_events r active = ok (r, active)
fill_active_channels (pfd ∷ pfds) num_events r active =
    (if any pfd.revents then activate pfd num_events r active else ok (num_events, r, active))
    >>= λ (left, r', active'). elim (left == 0) [
      | true ↦ ok (r', active')
      | false ↦ fill_active_channels pfds left r' active'
    ]

-- What the number that the system call returns leads to.
after_poll : ℤ → Reactor → List ℕ → Outcome (Reactor × List ℕ)
unfolding fill_active_channels
after_poll (pos n) r active =
    if n == 0 then ok (r, active) else fill_active_channels r.pollfds n r active
after_poll (negsuc _) r active = ok (r, active)

unfoldable pub poll : Kernel → Reactor → List ℕ → Outcome (Reactor × List ℕ)
unfolding after_poll
poll kernel r active =
    let (num_events, pollfds) = kernel r.pollfds in
    after_poll num_events (record r { poller = record r.poller { pollfds = pollfds } }) active
