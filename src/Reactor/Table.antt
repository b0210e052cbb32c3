-- ===== src/Reactor/Table.antt =====
-- What a poller promises, with no array and no indices: a table of the descriptors in it, each with its
-- channel and the events that this asks for, and which channels may still be entered.
pub mod Refines
use penduo.Prelude.{
  ℕ, Bool, true, false, not, ◌&&◌, ◌||◌, Option, none, some, List, [], ◌∷◌, Outcome, ok, ◌>>=◌,
  ◌==◌, if◌then◌else◌, update,
}
use penduo.Channel.{Events, any, k_none_event, k_read_event, union}
use penduo.Reactor.{Reactor, enable_reading, disable_all, channel_remove}

abbrev pub Row : Type 0
Row = ℕ × Events

pub record Table : Type 0 where
  pub rows : ℕ → Option Row
  pub fresh : ℕ → Bool

pub data Op : Type 0 where
  enable disable remove : ℕ → Op

-- `Channel::enable_reading`, `Channel::disable_all` and `Channel::remove`.
abbrev pub act : (current : ℕ) → Op → Reactor → Outcome Reactor
act current (enable c) r = enable_reading current c r
act current (disable c) r = disable_all current c r
act current (remove c) r = channel_remove current c r

pub acts : (current : ℕ) → List Op → Reactor → Outcome Reactor
acts current [] r = ok r
acts current (op ∷ ops) r = act current op r >>= acts current ops

abbrev pub is_row_of : ℕ → Option Row → Bool
is_row_of c none = false
is_row_of c (some row) = row.0 == c

abbrev pub asked : Option Row → Events
asked none = k_none_event
asked (some row) = row.1

abbrev pub is_free : Option Row → Bool
is_free none = true
is_free (some row) = false

-- What each operation does to the table, where it is allowed; `fds` are the channels' descriptors.
abbrev pub perform : (fds : ℕ → ℕ) → Op → Table → Option Table
perform fds (enable c) t =
    let row = t.rows (fds c) in
    if is_row_of c row || (is_free row && t.fresh c)
    then some (record {
      rows = update t.rows (fds c) (some (c, union (asked row) k_read_event));
      fresh = update t.fresh c false;
    })
    else none
perform fds (disable c) t =
    if is_row_of c (t.rows (fds c))
    then some (record t { rows = update t.rows (fds c) (some (c, k_none_event)) })
    else none
perform fds (remove c) t =
    let row = t.rows (fds c) in
    if is_row_of c row && not (any (asked row))
    then some (record t { rows = update t.rows (fds c) none })
    else none

unfoldable pub performs : (fds : ℕ → ℕ) → List Op → Table → Option Table
performs fds [] t = some t
performs fds (op ∷ ops) t = elim (perform fds op t) [ none ↦ none | some t' ↦ performs fds ops t' ]
