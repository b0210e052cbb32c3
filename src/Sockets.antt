-- ===== src/Sockets.antt =====
-- net/SocketsOps.cpp. The system calls are a parameter, over a state `W` of the
-- system that holds `errno`; the lines that are logged leave it alone.
pub mod Accept
pub mod Ops
use penduo.Prelude.{
  ℕ, ◌+◌, ◌-◌, ◌%◌, ℤ, pos, negsuc, ◌+ℤ◌, Bool, true, false, Outcome, ok, fail, fatal, ◌>>=◌, ◌>>◌,
  require, ltb_ℤ, if◌then◌else◌, ◌==◌, ◌⊎◌, inl, inr,
}

pub data Errno : Type 0 where
  eagain econnaborted eintr eproto eperm emfile ebadf efault einval enfile enobufs enomem : Errno
  enotsock eopnotsupp other : Errno

-- What the program calls. `fcntl` is one field for each command.
pub record System : Type 1 where
  pub W : Type 0
  pub errno : W → Errno
  pub set_errno : Errno → W → W
  pub accept : (socket_fd : ℤ) → W → ℤ × W
  pub get_fl : (fd : ℤ) → W → ℤ × W
  pub set_fl : (fd flags : ℤ) → W → ℤ × W
  pub get_fd : (fd : ℤ) → W → ℤ × W
  pub set_fd : (fd flags : ℤ) → W → ℤ × W
  pub listen : (fd : ℤ) → W → ℤ × W
  pub socket : (family : ℕ) → W → ℤ × W
  pub bind : (fd : ℤ) (family length : ℕ) → W → ℤ × W
  pub close : (fd : ℤ) → W → ℤ × W
  pub set_reuse : (fd option_val : ℤ) → W → ℤ × W
  pub get_error : (fd : ℤ) → W → ℤ × ℤ × W

abbrev pub o_nonblock : ℕ
o_nonblock = 2048

abbrev pub af_inet : ℕ
af_inet = 2

abbrev pub af_inet6 : ℕ
af_inet6 = 10

-- `flags | FD_CLOEXEC`, where the constant is 1
abbrev pub or_cloexec : ℤ → ℤ
or_cloexec (pos n) = pos (n + 1 - n % 2)
or_cloexec (negsuc n) = negsuc (n - n % 2)

-- The cases of the `switch` that only break.
abbrev pub is_expected : Errno → Bool
is_expected eagain = true
is_expected econnaborted = true
is_expected eintr = true
is_expected eproto = true
is_expected eperm = true
is_expected emfile = true
is_expected _ = false

abbrev pub is_negative : ℤ → Bool
is_negative (pos _) = false
is_negative (negsuc _) = true

module _ (sys : System) where
  open sys use {
    W, errno, set_errno, accept as sys_accept, get_fl, set_fl, get_fd, set_fd, listen, socket, bind,
    close as sys_close, get_error,
  }

  unfoldable pub set_nonblocking_and_close_on_exec : ℤ → W → W
  set_nonblocking_and_close_on_exec socket_fd w =
      let (flags, w₁) = get_fl socket_fd w in
      let (ret, w₂) = set_fl socket_fd (flags +ℤ pos o_nonblock) w₁ in
      let (flags', w₃) = get_fd socket_fd w₂ in
      let (ret', w₄) = set_fd socket_fd (or_cloexec flags') w₃ in w₄

  unfoldable pub accept : ℤ → W → Outcome (ℤ × W)
  unfolding set_nonblocking_and_close_on_exec
  accept socket_fd w =
      let (connect_fd, w₁) = sys_accept socket_fd w in
      let w₂ = set_nonblocking_and_close_on_exec connect_fd w₁ in
      let saved_errno = errno w₂ in
      if is_negative connect_fd
      then require (is_expected saved_errno) >> ok (connect_fd, set_errno saved_errno w₂)
      else ok (connect_fd, w₂)

  unfoldable pub create_nonblocking_or_die : ℕ → W → Outcome (ℤ × W)
  unfolding set_nonblocking_and_close_on_exec
  create_nonblocking_or_die family w =
      let (socket_fd, w₁) = socket family w in
      if is_negative socket_fd
      then fail fatal
      else ok (socket_fd, set_nonblocking_and_close_on_exec socket_fd w₁)

  -- The lengths are those of `sockaddr_in` and `sockaddr_in6`.
  unfoldable pub bind_or_die : ℤ → (family : ℕ) → W → Outcome W
  bind_or_die socket_fd family w =
      let (ret₄, w₄) = bind socket_fd family 16 w in
      let (ret₆, w₆) = bind socket_fd family 28 w in
      if family == af_inet
      then if is_negative ret₄ then fail fatal else ok w₄
      else if family == af_inet6
      then if is_negative ret₆ then fail fatal else ok w₆
      else fail fatal

  unfoldable pub listen_or_die : ℤ → W → Outcome W
  listen_or_die socket_fd w =
      let (ret, w') = listen socket_fd w in if is_negative ret then fail fatal else ok w'

  unfoldable pub close : ℤ → W → W
  close socket_fd w = (sys_close socket_fd w).1

  -- `SO_ERROR`, or `errno` if the call fails; the results are the value that the call stored, what it
  -- returned and the state.
  unfoldable pub get_socket_error : ℤ → W → ℤ ⊎ Errno
  get_socket_error socket_fd w =
      let (option_val, ret, w') = get_error socket_fd w in
      if is_negative ret then inr (errno w') else inl option_val
