-- ===== src/EventLoop/Safety.antt =====
-- What the queue and the wakeup pipe promise in every reachable state.
use penduo.Prelude.{◌+◌, ◌-◌, ◌<◌, ◌≡◌, refl, ◌≢◌, ◌⊎◌, inl, inr, true, false, [], ◌++◌, arith}
use penduo.EventLoop.{
  EventLoop, polling, handling, outside, Step, Reach, poll_wakeup, enter, start, poll,
}
use penduo.EventLoop.Invariant.{Inv, Reach-Inv, remaining}

-- Functors run in the order in which they were queued, from whatever threads, and none is lost or
-- run twice: what ran, what the loop has taken and what waits are together what was queued.
pub functors_fifo :
    {s : EventLoop} → Reach s → s.ran ++ (remaining s.pc ++ s.pending_functors) ≡ s.queued
functors_fifo r = (Reach-Inv r).fifo

-- No lost wakeup: while the loop polls with a functor in the queue, a message is in the pipe or some
-- thread is about to write one, unless the loop's own thread queued a functor outside `loop`.
pub no_lost_wakeup :
    {s : EventLoop}
    → Reach s
    → s.early ≡ false
    → s.pc ≡ polling
    → s.pending_functors ≢ []
    → 0 < s.wakeups + s.pushers
no_lost_wakeup {s} r e p n = let v = Reach-Inv r in omega (arith, noticed v)
  where
    noticed : Inv s → 0 < s.wakeups + s.pushers
    noticed v = ground (arith, v.noticed)

-- While the loop polls, its return through the pipe is enabled in two cases: a functor waits, no thread
-- is between its push and its wakeup, and the loop's own thread queued none outside `loop`; or `quit`
-- is set and no thread is between the store and the wakeup.
pub poll_returns :
    {s : EventLoop}
    → Reach s
    → s.pc ≡ polling
    → ((s.early ≡ false) × (s.pushers ≡ 0) × (s.pending_functors ≢ []))
      ⊎ ((s.quitters ≡ 0) × (s.quit ≡ true))
    → (t : EventLoop) × Step s t × (t.pc ≡ handling true)
poll_returns {s} r p (inl (e, z, n)) =
    let some_message : 0 < s.wakeups = omega (arith, no_lost_wakeup r e p n) in
    (record s { pc = handling true }, poll_wakeup (s.wakeups - 1) p (omega arith), refl)
poll_returns {s} r p (inr (z, q)) =
    let some_message : 0 < s.wakeups = omega (arith, (Reach-Inv r).quit_noticed p q) in
    (record s { pc = handling true }, poll_wakeup (s.wakeups - 1) p (omega arith), refl)

-- A `quit` that comes before `loop` is entered is lost: from every reachable state outside `loop` in
-- which it is set, two steps of the loop's thread lead to the poll with the request gone.
pub early_quit_lost :
    {s : EventLoop}
    → Reach s
    → s.pc ≡ outside
    → s.quit ≡ true
    → (t u : EventLoop) × Step s t × Step t u × (u.pc ≡ polling) × (u.quit ≡ false)
early_quit_lost {s} r p q = (
  enter s,
  record (enter s) { pc = polling },
  start p (ground (arith, (Reach-Inv r).looping)),
  poll refl refl,
  refl,
  refl,
)
