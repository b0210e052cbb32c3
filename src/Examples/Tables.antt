-- ===== src/Examples/Tables.antt =====
-- The poller of `two` and its table of descriptors: channel 2 enters, channel 0 leaves.
use penduo.Prelude.{
  ℕ, ◌≡◌, refl, false, not, ◌&&◌, Bool, none, some, List, [], ◌∷◌, ok, arith, ◌==◌, update,
}
use penduo.Channel.{k_none_event, k_read_event}
use penduo.Reactor.{Reactor}
use penduo.Reactor.Table.{Table, Op, enable, disable, remove, acts, performs}
use penduo.Reactor.Table.Refines.{row_of, StandsFor, acts-refines}
use penduo.Examples.Poller.{in_use, two, two-Inv}

abbrev fds : ℕ → ℕ
fds c = (two.chans c).fd

abbrev is_third : ℕ → Bool
is_third c = not (c == 0) && not (c == 1)

abbrev two_table : Table
two_table = record { rows = λ fd. row_of two.chans (in_use fd); fresh = is_third }

abbrev enter_and_leave : List Op
enter_and_leave = enable 2 ∷ disable 0 ∷ remove 0 ∷ []

abbrev left_table : Table
left_table = record {
  rows =
      update
        (update (update two_table.rows 12 (some (2, k_read_event))) 10 (some (0, k_none_event))) 10
        none;
  fresh = update is_third 2 false;
}

two-StandsFor : StandsFor fds two_table two
two-StandsFor = record {
  inv = two-Inv;
  same_rows = λ fd. refl;
  numbered = λ c. refl;
  unindexed = λ c f. ground arith;
  quiet = λ c f. ground arith;
  owner = λ c f. ground arith;
}

allowed : performs fds enter_and_leave two_table ≡ some left_table
unfolding performs
allowed = refl

acts-refines_example :
    (r' : Reactor) × (acts 7 enter_and_leave two ≡ ok r') × StandsFor fds left_table r'
acts-refines_example =
    acts-refines fds 7 enter_and_leave two_table left_table two two-StandsFor refl allowed
