-- ===== src/Prelude/Outcomes.antt =====
-- How a call ends. `assert` and `LOG_FATAL` abort the process, and `std::map::at` throws an exception
-- that nobody catches, as does the call of an empty `std::function`; undefined behaviour is a fault of
-- its own. No state is left behind a failure.
use mathlib.Core.Bool.{Bool, true, false}
use mathlib.Core.Option.{Option, none, some}

pub data Fault : Type 0 where
  assertion fatal out_of_range bad_function undefined : Fault

pub data Outcome {ℓ} (A : Type ℓ) : Type ℓ where
  ok : A → Outcome A
  fail : Fault → Outcome A

infixl 5 ◌>>=◌ ◌>>◌
-- `rest` runs where the call before it came back.
abbrev pub ◌>>=◌ {k l} :
    {Before : Type k} {After : Type l} → Outcome Before → (Before → Outcome After) → Outcome After
fail fault >>= rest = fail fault
ok value >>= rest = rest value

abbrev pub ◌>>◌ {l} : {After : Type l} → Outcome (Unit {0}) → Outcome After → Outcome After
fail fault >> rest = fail fault
ok done >> rest = rest

-- `assert(test)`
abbrev pub assert : Bool → Outcome (Unit {0})
assert true = ok tt
assert false = fail assertion

-- `if (!test) LOG_FATAL`
abbrev pub require : Bool → Outcome (Unit {0})
require true = ok tt
require false = fail fatal

-- `map.at(key)`
abbrev pub at_or_throw {ℓ} : {A : Type ℓ} → Option A → Outcome A
at_or_throw (some a) = ok a
at_or_throw none = fail out_of_range
