-- ===== src/Daytime.antt =====
-- base/Daytime.h and base/Daytime.cpp: the time of day as text, in an array of 64 characters. The C
-- library's `localtime_r`, and the conversion of one number by `sprintf`, are parameters.
pub mod Fits
use penduo.Prelude.{
  ℕ, suc, ◌%◌, ℤ, pos, negsuc, ◌+ℤ◌, sub_ℕ, Bool, true, false, List, [], ◌∷◌, ◌++◌, Outcome, ok,
  fail, undefined, ltb, if◌then◌else◌, length,
}
use penduo.Timestamp.{truncate}

-- `struct tm`
pub record Tm : Type 0 where
  pub tm_year : ℤ
  pub tm_mon : ℤ
  pub tm_mday : ℤ
  pub tm_hour : ℤ
  pub tm_min : ℤ
  pub tm_sec : ℤ

-- `z % 1000`, with the sign of `z`
abbrev pub rem_1000 : ℤ → ℤ
rem_1000 (pos n) = pos (n % 1000)
rem_1000 (negsuc n) = sub_ℕ 0 (suc n % 1000)

abbrev pub buffer_size : ℕ
buffer_size = 64

module _ (format : (zero_padded : Bool) (width : ℕ) → ℤ → List ℕ) where
  -- The text that `sprintf` writes.
  unfoldable pub formatted : Tm → ℤ → List ℕ
  formatted cur_time milltime =
      format false 4 (cur_time.tm_year +ℤ pos 1900)
      ++ b'-'
        ∷ (format true 2 (cur_time.tm_mon +ℤ pos 1)
            ++ b'-'
              ∷ (format true 2 cur_time.tm_mday
                  ++ b' '
                    ∷ (format true 2 cur_time.tm_hour
                        ++ b':'
                          ∷ (format true 2 cur_time.tm_min
                              ++ b':'
                                ∷ (format true 2 cur_time.tm_sec
                                    ++ b'.' ∷ format true 3 milltime)))))

  -- `now` is the time of the system clock since the epoch, in nanoseconds. A text that does not fit
  -- into the array with its NUL is written past its end.
  unfoldable pub get_current_formatted_time : (localtime_r : ℤ → Tm) → ℤ → Outcome (List ℕ)
  unfolding formatted
  get_current_formatted_time localtime_r now =
      let now_ms = truncate 1000000 now in
      let now_s = truncate 1000 now_ms in
      let buffer = formatted (localtime_r now_s) (rem_1000 now_ms) in
      if ltb (length buffer) buffer_size then ok buffer else fail undefined
