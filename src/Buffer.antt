-- ===== src/Buffer.antt =====
-- net/Buffer.h and net/Buffer.cpp: the bytes that a connection has received. What `readv` returns is
-- an argument.
pub mod Laws
use penduo.Prelude.{
  ℕ, suc, ◌+◌, ℤ, pos, negsuc, Bool, true, false, not, ◌&&◌, ◌||◌, Option, none, some, List, [],
  ◌∷◌, ◌++◌, Outcome, ok, fail, undefined, ◌>>=◌, ◌>>◌, assert, ltb, ◌==◌, if◌then◌else◌, length,
}

pub data ReadResult : Type 0 where
  received : List ℕ → ReadResult
  failed : ReadResult

abbrev pub extra_size : ℕ
extra_size = 65536

abbrev pub has_nul : List ℕ → Bool
has_nul [] = false
has_nul (b ∷ bs) = b == 0 || has_nul bs

-- The bytes before the first NUL.
unfoldable pub until_nul : List ℕ → List ℕ
until_nul [] = []
until_nul (b ∷ bs) = if b == 0 then [] else b ∷ until_nul bs

-- The C string in the zeroed array `extra_buffer` after the bytes are written to its start. With no
-- NUL in the array, `strlen` runs past its end.
unfoldable pub c_string : List ℕ → Outcome (List ℕ)
unfolding until_nul
c_string bytes =
    if has_nul bytes || ltb (length bytes) extra_size then ok (until_nul bytes) else fail undefined

unfoldable pub receive_as_string : List ℕ → List ℕ × List ℕ
receive_as_string buffer = (buffer, [])

abbrev pub readable_bytes : List ℕ → ℕ
readable_bytes buffer = length buffer

-- The return value of `readv`, and the buffer.
unfoldable pub read_fd : ReadResult → List ℕ → Outcome (ℤ × List ℕ)
unfolding c_string
read_fd failed buffer = ok (negsuc 0, buffer)
read_fd (received bytes) buffer = do
  text ← c_string bytes
  assert (length bytes == length text)
  ok (pos (length bytes), buffer ++ text)
