-- ===== src/Logger/Once.antt =====
-- The logger is configured once, by the first line that is not one of a failed system call.
use penduo.Prelude.{
  ◌≡◌, refl, Bool, true, false, not, arith, List, [], ◌∷◌, ◌++◌, Outcome, ok, fail, ◌>>=◌, All,
  Bool-cases, inl, inr,
}
use penduo.Logger.{
  Macro, log_trace, log_debug, log_info, log_warning, log_error, log_fatal, log_sys_error,
  log_sys_fatal, Level, info, warning, error, fatal_level, Easylogging, Message, Logger, calls_init,
  level_of, configurations, init, log_message,
}

-- What the names of the macros promise: whether a line is one of a failed system call, and how bad it
-- is. The library has no debug and no trace lines here.
abbrev pub is_of_system_call : Macro → Bool
is_of_system_call log_sys_error = true
is_of_system_call log_sys_fatal = true
is_of_system_call log_trace = false
is_of_system_call log_debug = false
is_of_system_call log_info = false
is_of_system_call log_warning = false
is_of_system_call log_error = false
is_of_system_call log_fatal = false

abbrev pub severity : Macro → Level
severity log_fatal = fatal_level
severity log_sys_fatal = fatal_level
severity log_error = error
severity log_sys_error = error
severity log_warning = warning
severity log_info = info
severity log_debug = info
severity log_trace = info

skips_init : (m : Macro) → calls_init m ≡ not (is_of_system_call m)
skips_init m = ground arith

level_of-severity : (m : Macro) → level_of m ≡ severity m
level_of-severity m = ground arith

module _ {W : Type 0} (el : Easylogging W) where
  -- The lines one after the other.
  unfoldable pub log_messages : List Message → Logger W → Outcome (Logger W)
  log_messages [] s = ok s
  log_messages (m ∷ ms) s = log_message el m s >>= log_messages ms

  -- Only what the library is asked to write.
  unfoldable pub write_messages : List Message → W → Outcome W
  write_messages [] w = ok w
  write_messages (m ∷ ms) w = el.log (severity m.macro) m.thread m.text w >>= write_messages ms

  abbrev pub with_flag : Bool → W → Logger W
  with_flag b w = record { init_flag = b; world = w }

  -- A line that is only written, and what comes after it.
  continues :
      (b : Bool) (m : Message) (w : W) (f : Logger W → Outcome (Logger W)) (g : W → Outcome W)
      (last : W → Outcome (Logger W))
      → ((w' : W) → f (with_flag b w') ≡ (g w' >>= last))
      → (el.log (severity m.macro) m.thread m.text w >>= (λ w'. ok (with_flag b w')) >>= f)
        ≡ (el.log (severity m.macro) m.thread m.text w >>= g >>= last)
  continues b m w f g last h = go (el.log (severity m.macro) m.thread m.text w)
    where
      go : (o : Outcome W) → (o >>= (λ w'. ok (with_flag b w')) >>= f) ≡ (o >>= g >>= last)
      go (ok w') = h w'
      go (fail e) = refl

  -- A line that is only written.
  abbrev written : Bool → Message → W → Outcome (Logger W)
  written b m w = el.log (severity m.macro) m.thread m.text w >>= λ w'. ok (with_flag b w')

  log_message-configured :
      (m : Message) (w : W) → log_message el m (with_flag true w) ≡ written true m w
  unfolding log_message init
  log_message-configured m w = elim (Bool-cases (calls_init m.macro)) [
    | inl calls ↦ rw (calls, level_of-severity m.macro) refl
    | inr skips ↦ rw (skips, level_of-severity m.macro) refl
  ]

  log_message-sys :
      (m : Message) (b : Bool) (w : W)
      → is_of_system_call m.macro ≡ true
      → log_message el m (with_flag b w) ≡ written b m w
  unfolding log_message
  log_message-sys m b w sys = rw (skips_init m.macro, sys, level_of-severity m.macro) refl

  log_message-first :
      (m : Message) (w : W)
      → is_of_system_call m.macro ≡ false
      → log_message el m (with_flag false w)
        ≡ written true m (el.reconfigure_all_loggers configurations w)
  unfolding log_message init
  log_message-first m w other = rw (skips_init m.macro, other, level_of-severity m.macro) refl

  -- Once configured, lines are only written.
  log_messages-configured :
      (ms : List Message) (w : W)
      → log_messages ms (with_flag true w) ≡ (write_messages ms w >>= λ w'. ok (with_flag true w'))
  unfolding log_messages write_messages
  log_messages-configured [] w = refl
  log_messages-configured (m ∷ ms) w = rw (log_message-configured m w) (
      continues true m w (log_messages ms) (write_messages ms) (λ w'. ok (with_flag true w'))
        (log_messages-configured ms))

  -- Of lines of which the first ones come from LOG_SYS_ERROR and LOG_SYS_FATAL and the next one from
  -- another macro, the first ones are written by the library as it was, then it is configured, once,
  -- and that line and all that follow are written, each under the level of its name, debug and trace
  -- under that of information; the first failure ends it all.
  pub log_messages-once :
      (before : List Message) (m : Message) (rest : List Message) (w : W)
      → All (λ x. is_of_system_call x.macro ≡ true) before
      → is_of_system_call m.macro ≡ false
      → log_messages (before ++ m ∷ rest) (with_flag false w) ≡ (
          write_messages before w >>= λ w₁.
          write_messages (m ∷ rest) (el.reconfigure_all_loggers configurations w₁) >>= λ w'.
          ok (with_flag true w'))
  unfolding log_messages write_messages
  log_messages-once [] m rest w sys calls = rw (log_message-first m w calls) (
      continues true m (el.reconfigure_all_loggers configurations w) (log_messages rest)
        (write_messages rest) (λ w'. ok (with_flag true w')) (log_messages-configured rest))
  log_messages-once (x ∷ xs) m rest w sys calls = rw (log_message-sys x false w sys.0) (
      continues false x w (log_messages (xs ++ m ∷ rest)) (write_messages xs) _
        (λ w'. log_messages-once xs m rest w' sys.1 calls))
