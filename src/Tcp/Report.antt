-- ===== src/Tcp/Report.antt =====
-- `TcpConnection::handle_error`: the line that it logs.
use penduo.Prelude.{ℕ, ℤ, List, [], ◌∷◌, ◌++◌, Outcome, ok, ◌>>=◌, ◌⊎◌, inl, inr}
use penduo.Sockets.{Errno}
use penduo.Sockets.Ops.{SocketsOps}
use penduo.Logger.{Easylogging, Logger, log_error, log_message, strerror_tl}

-- The two parts of the text around the name.
abbrev error_prefix : List ℕ
error_prefix =
    b'T' ∷ b'c' ∷ b'p' ∷ b'C' ∷ b'o' ∷ b'n' ∷ b'n' ∷ b'e' ∷ b'c' ∷ b't' ∷ b'i' ∷ b'o' ∷ b'n' ∷ b':'
    ∷ b':' ∷ b'h' ∷ b'a' ∷ b'n' ∷ b'd' ∷ b'l' ∷ b'e' ∷ b'_' ∷ b'e' ∷ b'r' ∷ b'r' ∷ b'o' ∷ b'r'
    ∷ b' ' ∷ b'[' ∷ []

abbrev error_infix : List ℕ
error_infix =
    b']' ∷ b' ' ∷ b'-' ∷ b' ' ∷ b'S' ∷ b'O' ∷ b'_' ∷ b'E' ∷ b'R' ∷ b'R' ∷ b'O' ∷ b'R' ∷ b' ' ∷ b'='
    ∷ b' ' ∷ []

-- `number` is the value of an `errno`, and `to_text` prints an `int`.
abbrev error_number : (number : Errno → ℤ) → ℤ ⊎ Errno → ℤ
error_number number (inl option_val) = option_val
error_number number (inr errno) = number errno

-- The results are the logger and the buffers of `strerror_tl`.
unfoldable pub handle_error :
    {W V : Type 0} (sockets : SocketsOps W) (el : Easylogging V) (number : Errno → ℤ)
    (to_text : ℤ → List ℕ) (strerror_r : ℤ → List ℕ → (size : ℕ) → List ℕ × List ℕ) (current : ℕ)
    (name : List ℕ) (socket_fd : ℤ)
    → W
    → Logger V
    → (ℕ → List ℕ)
    → Outcome (Logger V × (ℕ → List ℕ))
handle_error sockets el number to_text strerror_r current name socket_fd w log t_errnobuf =
    let error = error_number number (sockets.get_socket_error socket_fd w) in
    let (text, t_errnobuf') = strerror_tl strerror_r current error t_errnobuf in
    log_message el
      (record {
        macro = log_error;
        thread = current;
        text = error_prefix ++ (name ++ (error_infix ++ (to_text error ++ b' ' ∷ text)));
      })
      log
    >>= λ log'. ok (log', t_errnobuf')
