-- ===== src/Examples/Lines.antt =====
-- Text: a time of day, and lines that are logged.
use penduo.Prelude.{
  ℕ, zero, suc, ◌+◌, ◌/◌, ◌%◌, ◌≤◌, ◌≡◌, refl, ℤ, pos, negsuc, Bool, true, false, List, [], ◌∷◌,
  ◌++◌, ok, ◌>>=◌, length, length-append, arith,
}
use penduo.Daytime.{Tm, get_current_formatted_time}
use penduo.Daytime.Fits.{IsFormat, IsLocaltime, get_current_formatted_time-Fits}
use penduo.Logger.{Easylogging, configurations, Message, log_info, log_sys_error}
use penduo.Logger.Once.{log_messages, write_messages, with_flag, log_messages-once}

-- The last `width` digits.
abbrev digits : (width n : ℕ) → List ℕ
digits zero n = []
digits (suc w) n = digits w (n / 10) ++ (48 + n % 10) ∷ []

length-digits : (w n : ℕ) → length (digits w n) ≡ w
length-digits zero n = refl
length-digits (suc w) n =
    omega (arith, length-append (digits w (n / 10)) ((48 + n % 10) ∷ []), length-digits w (n / 10))

abbrev fixed : (zero_padded : Bool) (width : ℕ) → ℤ → List ℕ
fixed z width (pos n) = digits width n
fixed z width (negsuc n) = digits width (suc n)

fixed-IsFormat : IsFormat fixed
fixed-IsFormat = record {
  positive = λ z w k n h h'. omega (arith, length-digits w n, h);
  negative = λ z w k n h h'. omega (arith, length-digits w (suc n), h);
}

abbrev one_day : ℤ → Tm
one_day t = record {
  tm_year = pos 122;
  tm_mon = pos 6;
  tm_mday = pos 8;
  tm_hour = pos 9;
  tm_min = pos 30;
  tm_sec = pos 5;
}

one_day-IsLocaltime : IsLocaltime one_day
one_day-IsLocaltime = record {
  year = λ t. (omega arith, omega arith);
  mon = λ t. (6, refl, omega arith);
  mday = λ t. (8, refl, omega arith);
  hour = λ t. (9, refl, omega arith);
  min = λ t. (30, refl, omega arith);
  sec = λ t. (5, refl, omega arith);
}

get_current_formatted_time-Fits_example :
    (text : List ℕ) × (get_current_formatted_time fixed one_day (pos 1657272605123000000) ≡ ok text)
    × (length text ≤ 31)
get_current_formatted_time-Fits_example =
    get_current_formatted_time-Fits fixed fixed-IsFormat one_day one_day-IsLocaltime
      (pos 1657272605123000000)

-- A library that counts its configurations and keeps the lines.
abbrev kept_lines : Easylogging (ℕ × List (List ℕ))
kept_lines = record {
  reconfigure_all_loggers = λ c w. (w.0 + 1, w.1);
  log = λ level thread text w. ok (w.0, w.1 ++ text ∷ []);
}

abbrev failure : Message
failure = record { macro = log_sys_error; thread = 7; text = 1 ∷ [] }

abbrev news : Message
news = record { macro = log_info; thread = 7; text = 2 ∷ [] }

log_messages-once_example :
    log_messages kept_lines (failure ∷ news ∷ failure ∷ []) (with_flag kept_lines false (0, [])) ≡ (
      write_messages kept_lines (failure ∷ []) (0, []) >>= λ w₁.
      write_messages kept_lines
        (news ∷ failure ∷ [])
        (kept_lines.reconfigure_all_loggers configurations w₁)
      >>= λ w'. ok (with_flag kept_lines true w'))
log_messages-once_example =
    log_messages-once kept_lines (failure ∷ []) news (failure ∷ []) (0, []) (refl, tt) refl
