-- ===== src/Sockets/Accept.antt =====
-- `sockets::accept` when the system call fails, and the flags of a descriptor.
use penduo.Prelude.{ℕ, ◌-◌, ◌/◌, ◌%◌, ◌≡◌, refl, ◌∙◌, ℤ, pos, negsuc, ◌+ℤ◌, fail, fatal, arith}
use penduo.Sockets.{System, ebadf, o_nonblock, set_nonblocking_and_close_on_exec, accept}

-- fcntl(2) on a number that is no descriptor fails with EBADF.
abbrev pub FailsOnBadFd : System → Type 0
FailsOnBadFd sys =
    (n : ℕ) (flags : ℤ) (w : sys.W) → sys.errno (sys.set_fd (negsuc n) flags w).1 ≡ ebadf

flags_of_bad_fd :
    (sys : System) (n : ℕ) (w : sys.W)
    → FailsOnBadFd sys
    → sys.errno (set_nonblocking_and_close_on_exec sys (negsuc n) w) ≡ ebadf
unfolding set_nonblocking_and_close_on_exec
flags_of_bad_fd sys n w bad = bad n _ _

-- Where `fcntl` on a bad descriptor stores EBADF: however the system call `accept` fails, with an
-- expected error too, the process is aborted, since the flags of the negative result are set before
-- `errno` is saved.
pub accept_failure_fatal :
    (sys : System) (socket_fd : ℤ) (n : ℕ) (w : sys.W)
    → FailsOnBadFd sys
    → (sys.accept socket_fd w).0 ≡ negsuc n
    → accept sys socket_fd w ≡ fail fatal
unfolding accept
accept_failure_fatal sys socket_fd n w bad e =
    rw (e, flags_of_bad_fd sys n (sys.accept socket_fd w).1 bad) refl

-- The bit O_NONBLOCK of the flags.
abbrev pub nonblocking : ℤ → ℕ
nonblocking (pos flags) = flags / o_nonblock % 2
nonblocking (negsuc n) = 0

-- fcntl(2) on a descriptor: the status flags can be read, the bit O_NONBLOCK that is set is read
-- back, and the other two commands leave it alone.
pub record KeepsFlags (sys : System) (fd : ℤ) : Type 0 where
  pub reads : (w : sys.W) → (flags : ℕ) × ((sys.get_fl fd w).0 ≡ pos flags)
  pub set_then_get :
      (flags : ℤ) (w : sys.W)
      → nonblocking (sys.get_fl fd (sys.set_fl fd flags w).1).0 ≡ nonblocking flags
  pub past_get_fd :
      (w : sys.W)
      → nonblocking (sys.get_fl fd (sys.get_fd fd w).1).0 ≡ nonblocking (sys.get_fl fd w).0
  pub past_set_fd :
      (flags : ℤ) (w : sys.W)
      → nonblocking (sys.get_fl fd (sys.set_fd fd flags w).1).0 ≡ nonblocking (sys.get_fl fd w).0

add_nonblock : (flags : ℕ) → nonblocking (pos flags +ℤ pos o_nonblock) ≡ 1 - nonblocking (pos flags)
unfolding ◌+ℤ◌
add_nonblock flags = ground arith

-- Over such a `fcntl` the flag is added, not or-ed in: a blocking descriptor becomes nonblocking, and
-- one that is nonblocking already becomes blocking.
pub set_nonblocking_toggles :
    (sys : System) (fd : ℤ) (w : sys.W)
    → KeepsFlags sys fd
    → nonblocking (sys.get_fl fd (set_nonblocking_and_close_on_exec sys fd w)).0
      ≡ 1 - nonblocking (sys.get_fl fd w).0
unfolding set_nonblocking_and_close_on_exec
set_nonblocking_toggles sys fd w k =
    let (flags, e) = k.reads w in
    k.past_set_fd _ _ ∙ k.past_get_fd _ ∙ k.set_then_get _ _ ∙ rw e (add_nonblock flags)
