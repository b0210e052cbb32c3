-- ===== src/Reactor/Reuse.antt =====
-- What a channel can still do after it was removed, or was entered with no events.
use penduo.Prelude.{
  ℕ, subst, ◌≡◌, pos, false, none, arith, ok, fail, ◌>>=◌, [], ◌∷◌, length-append,
  get_elem?-push_back, assertion, length,
}
use penduo.Channel.{any, k_none_event}
use penduo.Reactor.{PollFd, Reactor, channel_remove, enable_reading, disable_all}
use penduo.Reactor.Invariant.{IsRegistered, Inv}
use penduo.Reactor.Change.{with_events}
use penduo.Reactor.Update.{entered, channel_update-entered}
use penduo.Reactor.Interest.{IsNew, IsEntered}
use penduo.Reactor.Removal.{Removed, channel_remove-Removed}

-- A channel that was removed keeps its old index, so it cannot be used again: `enable_reading` takes
-- it for a known one and fails an assertion.
pub enable_reading-channel_remove :
    (current c : ℕ) (r r' : Reactor)
    → Inv r
    → current ≡ r.thread_id
    → IsEntered r c
    → any (r.chans c).events ≡ false
    → channel_remove current c r ≡ ok r'
    → enable_reading current c r' ≡ fail assertion
unfolding enable_reading
enable_reading-channel_remove current c r r' v here known quiet e =
    let (r₁, e₁, w) = channel_remove-Removed current c r v here known quiet in
    after (subst (Removed c r) (cc) w) (v.mapped (r.chans c).fd c known)
  where
    after :
        Removed c r r'
        → IsRegistered r (r.chans c).fd c
        → enable_reading current c r' ≡ fail assertion
    after w reg = ground arith

remove_entered :
    (current c : ℕ) (r : Reactor)
    → any (r.chans c).events ≡ false
    → current ≡ r.thread_id
    → r.channels (r.chans c).fd ≡ none
    → (r.chans c).loop ≡ r.self
    → channel_remove current c (entered c r) ≡ fail assertion
unfolding channel_remove
remove_entered current c r quiet here free owner =
    let p : PollFd = record {
      fd = pos (r.chans c).fd;
      events = (r.chans c).events;
      revents = k_none_event;
    } in
    ground
      (arith, length-append r.pollfds (p ∷ []), get_elem?-push_back r.pollfds p (length r.pollfds))

-- `disable_all` on a new channel enters it with a descriptor that `poll` still looks at, and then
-- `remove` fails an assertion.
pub channel_remove-disable_all :
    (current c : ℕ) (r : Reactor)
    → current ≡ r.thread_id
    → IsNew r c
    → (disable_all current c r >>= channel_remove current c) ≡ fail assertion
unfolding disable_all
channel_remove-disable_all current c r here new =
    let r₁ = with_events k_none_event c r in
    rw
      (channel_update-entered r₁ current c 0 (ground (arith, new)) (ground (arith, new))
        (ground (arith, new)) here)
      (remove_entered current c r₁ (ground arith) here (ground (arith, new)) (ground (arith, new)))
