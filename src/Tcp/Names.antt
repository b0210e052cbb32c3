-- ===== src/Tcp/Names.antt =====
-- The names of a server's connections. `to_string` is the library's `std::to_string`, of which it is
-- used that different numbers have different texts.
use penduo.Prelude.{
  ℕ, ◌+◌, ◌≤◌, ◌≡◌, refl, inl, inr, true, none, some, List, [], ◌∷◌, ◌++◌, arith, Option-cases,
}
use penduo.Tcp.{TcpServer, same_name, next_name}

pub eq_of_same_name : (m n : List ℕ) → same_name m n ≡ true → m ≡ n
eq_of_same_name [] [] h = refl
eq_of_same_name [] (b ∷ n) h = ground arith
eq_of_same_name (a ∷ m) [] h = ground arith
eq_of_same_name (a ∷ m) (b ∷ n) h = ground (arith, eq_of_same_name m n)

append_cancel : (xs ys zs : List ℕ) → xs ++ ys ≡ xs ++ zs → ys ≡ zs
append_cancel [] ys zs e = e
append_cancel (x ∷ xs) ys zs e = append_cancel xs ys zs (ground arith)

-- Every name in the map was given to a connection of this server, under a number used up.
abbrev pub NamesUsed : (ℕ → List ℕ) → TcpServer → Type 0
NamesUsed to_string s =
    (n : List ℕ) (c : ℕ)
    → s.connections n ≡ some c
    → (i : ℕ) × (i ≤ s.next_connect_id) × (n ≡ s.name ++ b'#' ∷ to_string i)

-- If every name in the map was given under a number used up, the next connection's name is not in the
-- map.
pub next_name_free :
    (to_string : ℕ → List ℕ) (s : TcpServer)
    → ((i j : ℕ) → to_string i ≡ to_string j → i ≡ j)
    → NamesUsed to_string s
    → s.connections (next_name to_string s) ≡ none
next_name_free to_string s injective used =
    elim (Option-cases (s.connections (next_name to_string s))) [
      | inl e ↦ e
      | inr (c, e) ↦
          let (i, le, n) = used (next_name to_string s) c e in
          let texts =
            append_cancel s.name (b'#' ∷ to_string (s.next_connect_id + 1)) (b'#' ∷ to_string i)
              n in
          absurd (let q = injective (s.next_connect_id + 1) i (ground arith) in omega arith)
    ]
