-- ===== src/Logger.antt =====
-- base/logging/Logger.h and base/logging/Logger.cpp: the lines that the program logs, over the
-- functions of easylogging++ that the macros call, which are a parameter with its own state `W`.
pub mod Once
use penduo.Prelude.{
  ℕ, ℤ, Bool, true, false, List, [], ◌∷◌, Outcome, ok, ◌>>=◌, if◌then◌else◌, update,
}

-- The macros, and the levels of the library that they name.
pub data Macro : Type 0 where
  log_trace log_debug log_info log_warning log_error log_fatal log_sys_error log_sys_fatal : Macro

pub data Level : Type 0 where
  info warning error fatal_level : Level

abbrev pub level_of : Macro → Level
level_of log_trace = info
level_of log_debug = info
level_of log_info = info
level_of log_warning = warning
level_of log_error = error
level_of log_fatal = fatal_level
level_of log_sys_error = error
level_of log_sys_fatal = fatal_level

-- Whether the macro calls `Logger::Init()` first.
abbrev pub calls_init : Macro → Bool
calls_init log_sys_error = false
calls_init log_sys_fatal = false
calls_init _ = true

-- The parts of a line's format.
pub data Token : Type 0 where
  datetime level fbase line msg : Token
  character : ℕ → Token

pub record Configurations : Type 0 where
  pub format : List Token
  pub to_file : Bool
  pub to_standard_output : Bool
  pub subsecond_precision : ℕ

-- The text that `Init` parses over the defaults.
abbrev pub configurations : Configurations
configurations = record {
  format =
      character b'['
      ∷ datetime
      ∷ character b']'
      ∷ character b'['
      ∷ level
      ∷ character b']'
      ∷ character b' '
      ∷ fbase
      ∷ character b':'
      ∷ line
      ∷ character b' '
      ∷ msg
      ∷ [];
  to_file = false;
  to_standard_output = true;
  subsecond_precision = 6;
}

pub record Easylogging (W : Type 0) : Type 0 where
  pub reconfigure_all_loggers : Configurations → W → W
  pub log : Level → (thread : ℕ) → (text : List ℕ) → W → Outcome W

-- One line: a macro, in a thread, with what is streamed into it.
pub record Message : Type 0 where
  pub macro : Macro
  pub thread : ℕ
  pub text : List ℕ

pub record Logger (W : Type 0) : Type 0 where
  pub init_flag : Bool
  pub world : W

module _ {W : Type 0} (el : Easylogging W) where
  -- `Logger::Init`, with `std::call_once`
  unfoldable pub init : Logger W → Logger W
  init s =
      if s.init_flag
      then s
      else record { init_flag = true; world = el.reconfigure_all_loggers configurations s.world }

  -- What a macro expands to.
  unfoldable pub log_message : Message → Logger W → Outcome (Logger W)
  unfolding init
  log_message m s =
      let s' = if calls_init m.macro then init s else s in
      el.log (level_of m.macro) m.thread m.text s'.world >>= λ w. ok (record s' { world = w })

-- `strerror_tl`: the calling thread's `t_errnobuf`, whatever `strerror_r` returns. The results are the
-- text and the buffers of all threads.
unfoldable pub strerror_tl :
    (strerror_r : ℤ → List ℕ → (size : ℕ) → List ℕ × List ℕ) (current : ℕ)
    → ℤ
    → (ℕ → List ℕ)
    → List ℕ × (ℕ → List ℕ)
strerror_tl strerror_r current saved_errno t_errnobuf =
    let (ret, buffer) = strerror_r saved_errno (t_errnobuf current) 512 in
    (buffer, update t_errnobuf current buffer)
