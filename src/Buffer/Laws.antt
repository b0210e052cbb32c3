-- ===== src/Buffer/Laws.antt =====
-- When `read_fd` keeps the bytes that arrive, and when it does not.
use penduo.Prelude.{
  ℕ, ◌<◌, ◌≤◌, ◌≡◌, refl, ◌⊎◌, inl, inr, pos, true, false, List, [], ◌∷◌, ◌++◌, ok, fail, assertion,
  undefined, arith, ltb, length, Bool-cases,
}
use penduo.Buffer.{received, extra_size, has_nul, until_nul, read_fd}

until_nul_all : (bs : List ℕ) → has_nul bs ≡ false → until_nul bs ≡ bs
unfolding until_nul
until_nul_all [] h = refl
until_nul_all (b ∷ bs) h = ground (arith, until_nul_all bs)

until_nul_short : (bs : List ℕ) → has_nul bs ≡ true → length (until_nul bs) < length bs
unfolding until_nul
until_nul_short [] h = ground arith
until_nul_short (b ∷ bs) h = ground (arith, until_nul_short bs)

-- Up to 65536 bytes: text shorter than the array is appended whole, and its length returned; bytes
-- with a NUL fail the assertion, and an array filled without a NUL is read past its end.
pub read_fd_received :
    (bytes buffer : List ℕ)
    → length bytes ≤ extra_size
    → ((has_nul bytes ≡ false)
        × (length bytes < extra_size)
        × (read_fd (received bytes) buffer ≡ ok (pos (length bytes), buffer ++ bytes)))
      ⊎ ((has_nul bytes ≡ true) × (read_fd (received bytes) buffer ≡ fail assertion))
      ⊎ ((has_nul bytes ≡ false)
          × (length bytes ≡ extra_size)
          × (read_fd (received bytes) buffer ≡ fail undefined))
unfolding read_fd
read_fd_received bytes buffer small = elim (Bool-cases (has_nul bytes)) [
  | inl nul ↦ inr (inl (nul, with_nul nul))
  | inr text ↦ elim (Bool-cases (ltb (length bytes) extra_size)) [
    | inl short ↦ inl (text, ground arith, ground (arith, until_nul_all bytes text))
    | inr full ↦ inr (inr (text, ground arith, ground arith))
  ]
]
  where
    with_nul : has_nul bytes ≡ true → read_fd (received bytes) buffer ≡ fail assertion
    with_nul nul = ground (arith, until_nul_short bytes nul)

pub read_fd_text :
    (bytes buffer : List ℕ)
    → length bytes < extra_size
    → has_nul bytes ≡ false
    → read_fd (received bytes) buffer ≡ ok (pos (length bytes), buffer ++ bytes)
unfolding read_fd
read_fd_text bytes buffer short text = ground (arith, until_nul_all bytes text)
