-- ===== src/Dispatch.antt =====
-- net/Channel.cpp: `Channel::handle_event`. The callbacks belong to the objects around the channel,
-- so they act on a world `W` that holds the channel's reactor; `run` is what a callback does.
pub mod Order
use penduo.Prelude.{
  ℕ, ◌≡◌, Bool, true, false, not, ◌&&◌, ◌||◌, Option, none, some, Outcome, ok, ◌>>=◌, if◌then◌else◌,
}
use penduo.Channel.{Channel}
use penduo.Reactor.{Reactor, set_chan}
use penduo.Timestamp.{Timestamp}

-- A world with a reactor in it.
pub record World (W : Type 0) : Type 0 where
  pub reactor : W → Reactor
  pub put : Reactor → W → W
  pub reactor-put : (r : Reactor) (w : W) → reactor (put r w) ≡ r

-- The four tests of `handle_event` that may call a callback, in its order.
pub data Stage : Type 0 where
  on_close on_error on_read on_write : Stage

abbrev pub happens : Stage → Channel → Bool
happens on_close ch = ch.revents.pollhup && not ch.revents.pollin
happens on_error ch = ch.revents.pollerr || ch.revents.pollnval
happens on_read ch = ch.revents.pollin || ch.revents.pollpri
happens on_write ch = ch.revents.pollout

abbrev pub callback : Stage → Channel → Option ℕ
callback on_close ch = ch.close_callback
callback on_error ch = ch.error_callback
callback on_read ch = ch.read_callback
callback on_write ch = ch.write_callback

-- Only the read callback takes the time.
abbrev pub argument : Stage → Timestamp → Option Timestamp
argument on_read t = some t
argument _ t = none

module _ {W : Type 0} (world : World W) (run : ℕ → Option Timestamp → W → Outcome W) (c : ℕ)
    (receive_time : Timestamp) where
  open world use {reactor, put}

  abbrev pub chan : W → Channel
  chan w = (reactor w).chans c

  abbrev pub set_handling : Bool → W → W
  set_handling b w = put (set_chan (reactor w) c (record (chan w) { event_handling = b })) w

  abbrev pub call : Stage → Option ℕ → W → Outcome W
  call st none w = ok w
  call st (some k) w = run k (argument st receive_time) w

  abbrev pub stage : Stage → W → Outcome W
  stage st w = if happens st (chan w) then call st (callback st (chan w)) w else ok w

  unfoldable pub handle_event : W → Outcome W
  handle_event w = do
    let w₀ = set_handling true w
    w₁ ← stage on_close w₀
    w₂ ← stage on_error w₁
    w₃ ← stage on_read w₂
    w₄ ← stage on_write w₃
    ok (set_handling false w₄)
