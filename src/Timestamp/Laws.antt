-- ===== src/Timestamp/Laws.antt =====
-- The laws of timestamps that timers rest on.
use penduo.Prelude.{
  inl, inr, ◌&&◌, Bool-cases, ℕ, ◌+◌, ◌*◌, ◌/◌, ◌<◌, ◌≤◌, ◌≡◌, refl, ap, ◌⊎◌, ℤ, pos, ◌+ℤ◌, ◌-ℤ◌,
  true, false, not, arith, int_laws, eq_of_parts,
}
use penduo.Timestamp.{
  Timestamp, TsUnit, seconds, milliseconds, microseconds, nanoseconds, scale, truncate, lt, le, gt,
  ge, eq, ne, add, differ,
}

-- `(a + x) - a` is `x`.
add-sub : (a x : ℤ) → (a +ℤ x) -ℤ a ≡ x
add-sub a x = omega int_laws

truncate-scale : (u : TsUnit) (n : ℤ) → truncate (nanoseconds u) (scale (nanoseconds u) n) ≡ n
truncate-scale seconds n = ground arith
truncate-scale milliseconds n = ground arith
truncate-scale microseconds n = ground arith

-- Going `n` units ahead and measuring in the same unit gives `n` back, for every start and every
-- sign of `n`.
pub differ-add : (u : TsUnit) (t : Timestamp) (n : ℤ) → differ u t (add u t n) ≡ n
unfolding differ add
differ-add u t n = rw (add-sub t.time_point (scale (nanoseconds u) n)) (truncate-scale u n)

eq-path : (a b : Timestamp) → eq a b ≡ true → a ≡ b
eq-path a b h =
    ap (λ t. record { time_point = t }) (eq_of_parts a.time_point b.time_point (ground arith))

-- The six operators are those of one total order: `<` is irreflexive and transitive, exactly one of
-- `<`, equality and `>` holds, and the others are made of these.
pub operators-total :
    (a b c : Timestamp)
    → (lt a a ≡ false)
      × ((lt a b && lt b c && not (lt a c)) ≡ false)
      × ((lt a b && gt a b) ≡ false)
      × ((lt a b ≡ true) ⊎ (a ≡ b) ⊎ (gt a b ≡ true))
      × (le a b ≡ not (gt a b))
      × (ge a b ≡ not (lt a b))
      × (eq a b ≡ (le a b && ge a b))
      × (ne a b ≡ not (eq a b))
operators-total a b c = (
  ground arith,
  ground arith,
  ground arith,
  one_of,
  ground arith,
  ground arith,
  ground arith,
  refl,
)
  where
    one_of : (lt a b ≡ true) ⊎ (a ≡ b) ⊎ (gt a b ≡ true)
    one_of = elim (Bool-cases (eq a b)) [
      | inl same ↦ inr (inl (eq-path a b same))
      | inr other ↦ ground arith
    ]

-- `differ` rounds down by less than a unit, for a later end.
pub differ_bounds :
    (u : TsUnit) (st ed : Timestamp) (d : ℕ)
    → ed.time_point -ℤ st.time_point ≡ pos d
    → (m : ℕ) × (differ u st ed ≡ pos m)
      × (m * nanoseconds u ≤ d)
      × (d < m * nanoseconds u + nanoseconds u)
unfolding differ
differ_bounds seconds st ed d h = (d / 1000000000, rw h, omega arith, omega arith)
differ_bounds milliseconds st ed d h = (d / 1000000, rw h, omega arith, omega arith)
differ_bounds microseconds st ed d h = (d / 1000, rw h, omega arith, omega arith)
