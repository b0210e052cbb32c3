-- ===== src/Timestamp.antt =====
-- base/Timestamp.h and base/Timestamp.cpp: points of the steady clock, in nanoseconds. The 64-bit
-- count is an unbounded integer here; leaving its range is undefined behaviour in the source.
pub mod Laws
use penduo.Prelude.{
  ℕ, suc, ◌-◌, ◌*◌, ◌/◌, ℤ, pos, negsuc, ◌+ℤ◌, ◌-ℤ◌, sub_ℕ, ltb_ℤ, leb_ℤ, eqb_ℤ, Bool, not,
}

pub record Timestamp : Type 0 where
  pub time_point : ℤ

-- The units of `std::chrono`, in nanoseconds.
pub data TsUnit : Type 0 where
  seconds milliseconds microseconds : TsUnit

abbrev pub nanoseconds : TsUnit → ℕ
nanoseconds seconds = 1000000000
nanoseconds milliseconds = 1000000
nanoseconds microseconds = 1000

-- `T{count}`, as nanoseconds
abbrev pub scale : ℕ → ℤ → ℤ
scale u (pos n) = pos (u * n)
scale u (negsuc n) = sub_ℕ 0 (u * suc n)

-- `duration_cast`: division towards zero
abbrev pub truncate : ℕ → ℤ → ℤ
truncate u (pos n) = pos (n / u)
truncate u (negsuc n) = sub_ℕ 0 (suc n / u)

-- The default constructor.
abbrev pub zero_timestamp : Timestamp
zero_timestamp = record { time_point = pos 0 }

abbrev pub of_time_point : ℤ → Timestamp
of_time_point ts_time_point = record { time_point = ts_time_point }

-- `now`, of what the clock says.
abbrev pub now_at : ℤ → Timestamp
now_at clock = of_time_point clock

abbrev pub invalid : Timestamp
invalid = zero_timestamp

abbrev pub lt : Timestamp → Timestamp → Bool
lt a b = ltb_ℤ a.time_point b.time_point

abbrev pub le : Timestamp → Timestamp → Bool
le a b = leb_ℤ a.time_point b.time_point

abbrev pub gt : Timestamp → Timestamp → Bool
gt a b = ltb_ℤ b.time_point a.time_point

abbrev pub ge : Timestamp → Timestamp → Bool
ge a b = leb_ℤ b.time_point a.time_point

abbrev pub eq : Timestamp → Timestamp → Bool
eq a b = eqb_ℤ a.time_point b.time_point

abbrev pub ne : Timestamp → Timestamp → Bool
ne a b = not (eqb_ℤ a.time_point b.time_point)

abbrev pub valid : Timestamp → Bool
valid t = not (eqb_ℤ t.time_point (pos 0))

unfoldable pub add : TsUnit → Timestamp → ℤ → Timestamp
add unit timestamp count = record {
  time_point = timestamp.time_point +ℤ scale (nanoseconds unit) count;
}

unfoldable pub differ : TsUnit → Timestamp → Timestamp → ℤ
differ unit st ed = truncate (nanoseconds unit) (ed.time_point -ℤ st.time_point)
