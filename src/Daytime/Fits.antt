-- ===== src/Daytime/Fits.antt =====
-- The text of the time of day fits into its array.
use penduo.Prelude.{
  ℕ, suc, ◌+◌, ◌^◌, ◌≤◌, ◌<◌, ◌≡◌, ℤ, pos, negsuc, ◌+ℤ◌, pos_part, neg_part, Bool, true, false,
  List, ◌∷◌, ◌++◌, ok, length, length-append, arith,
}
use penduo.Timestamp.{truncate}
use penduo.Daytime.{Tm, rem_1000, formatted, get_current_formatted_time}

-- sprintf(3): a number of at most `k` digits takes at most `k` characters, and one more for its sign,
-- unless the field is wider.
pub record IsFormat (format : (zero_padded : Bool) (width : ℕ) → ℤ → List ℕ) : Type 0 where
  pub positive :
      (z : Bool) (width k n : ℕ) → width ≤ k → n < 10 ^ k → length (format z width (pos n)) ≤ k
  pub negative :
      (z : Bool) (width k n : ℕ)
      → width ≤ suc k
      → suc n < 10 ^ k
      → length (format z width (negsuc n)) ≤ suc k

-- localtime(3): the ranges of the fields; the year is that of an `int`.
pub record IsLocaltime (localtime_r : ℤ → Tm) : Type 0 where
  pub year :
      (t : ℤ)
      → (pos_part (localtime_r t).tm_year < 2 ^ 31)
        × (neg_part (localtime_r t).tm_year < 2 ^ 31 + 1)
  pub mon : (t : ℤ) → (n : ℕ) × ((localtime_r t).tm_mon ≡ pos n) × (n ≤ 11)
  pub mday : (t : ℤ) → (n : ℕ) × ((localtime_r t).tm_mday ≡ pos n) × (n ≤ 31)
  pub hour : (t : ℤ) → (n : ℕ) × ((localtime_r t).tm_hour ≡ pos n) × (n ≤ 23)
  pub min : (t : ℤ) → (n : ℕ) × ((localtime_r t).tm_min ≡ pos n) × (n ≤ 59)
  pub sec : (t : ℤ) → (n : ℕ) × ((localtime_r t).tm_sec ≡ pos n) × (n ≤ 60)

rem_bound : (z : ℤ) → (pos_part (rem_1000 z) < 1000) × (neg_part (rem_1000 z) < 1000)
rem_bound (pos n) = (omega arith, omega arith)
rem_bound (negsuc n) = (ground arith, ground arith)

year_bound :
    (y : ℤ)
    → pos_part y < 2 ^ 31
    → neg_part y < 2 ^ 31 + 1
    → (pos_part (y +ℤ pos 1900) < 10 ^ 10) × (neg_part (y +ℤ pos 1900) < 10 ^ 10)
unfolding ◌+ℤ◌
year_bound y p q = (ground arith, ground arith)

length-then :
    (xs ys : List ℕ) (c k n : ℕ) → length xs ≤ k → length ys ≤ n → length (xs ++ c ∷ ys) ≤ k + suc n
length-then xs ys c k n h h' = omega (arith, length-append xs (c ∷ ys))

module _ (format : (zero_padded : Bool) (width : ℕ) → ℤ → List ℕ) (f : IsFormat format) where
  length-format :
      (z : Bool) (width k : ℕ) (i : ℤ)
      → width ≤ k
      → pos_part i < 10 ^ k
      → neg_part i < 10 ^ k
      → length (format z width i) ≤ suc k
  length-format z width k (pos n) w p q = omega (arith, f.positive z width k n w p)
  length-format z width k (negsuc n) w p q = f.negative z width k n (omega (arith, w)) q

  two_digits : (i : ℤ) (n : ℕ) → i ≡ pos n → n < 100 → length (format true 2 i) ≤ 2
  two_digits i n e h = rw e (f.positive true 2 2 n (omega arith) h)

  -- The month plus one is a number of at most two digits.
  next_of_digits : (i : ℤ) (n : ℕ) → i ≡ pos n → n ≤ 11 → length (format true 2 (i +ℤ pos 1)) ≤ 2
  unfolding ◌+ℤ◌
  next_of_digits i n e h =
      rw e (two_digits (pos n +ℤ pos 1) (n + 1) (ground arith) (omega (arith, h)))

  length-formatted :
      (t : Tm) (m : ℤ)
      → length (format false 4 (t.tm_year +ℤ pos 1900)) ≤ 11
      → length (format true 2 (t.tm_mon +ℤ pos 1)) ≤ 2
      → length (format true 2 t.tm_mday) ≤ 2
      → length (format true 2 t.tm_hour) ≤ 2
      → length (format true 2 t.tm_min) ≤ 2
      → length (format true 2 t.tm_sec) ≤ 2
      → length (format true 3 m) ≤ 4
      → length (formatted format t m) ≤ 31
  unfolding formatted
  length-formatted t m y mo d h mi s ms = length-then _ _ b'-' 11 19 y (
      length-then _ _ b'-' 2 16 mo (
        length-then _ _ b' ' 2 13 d (
          length-then _ _ b':' 2 10 h
            (length-then _ _ b':' 2 7 mi (length-then _ _ b'.' 2 4 s ms)))))

  module _ (localtime_r : ℤ → Tm) (l : IsLocaltime localtime_r) where
    -- Where `localtime_r` keeps its ranges and `sprintf` converts numbers as documented, the text is
    -- at most 31 characters long at every time, before the epoch too, so that the array is never
    -- overrun.
    pub get_current_formatted_time-Fits :
        (now : ℤ)
        → (text : List ℕ) × (get_current_formatted_time format localtime_r now ≡ ok text)
          × (length text ≤ 31)
    unfolding get_current_formatted_time
    get_current_formatted_time-Fits now =
        let now_ms = truncate 1000000 now in
        let t = localtime_r (truncate 1000 now_ms) in
        let n = truncate 1000 now_ms in
        let h =
          length-formatted t (rem_1000 now_ms)
            (length-format false 4 10 (t.tm_year +ℤ pos 1900) (omega arith)
              (year_bound t.tm_year (l.year n).0 (l.year n).1).0
              (year_bound t.tm_year (l.year n).0 (l.year n).1).1)
            (next_of_digits t.tm_mon (l.mon n).0 (l.mon n).1 (l.mon n).2)
            (two_digits t.tm_mday (l.mday n).0 (l.mday n).1 (omega (arith, (l.mday n).2)))
            (two_digits t.tm_hour (l.hour n).0 (l.hour n).1 (omega (arith, (l.hour n).2)))
            (two_digits t.tm_min (l.min n).0 (l.min n).1 (omega (arith, (l.min n).2)))
            (two_digits t.tm_sec (l.sec n).0 (l.sec n).1 (omega (arith, (l.sec n).2)))
            (length-format true 3 3 (rem_1000 now_ms) (omega arith) (rem_bound now_ms).0
              (rem_bound now_ms).1) in
        (formatted format t (rem_1000 now_ms), ground (arith, h), h)
