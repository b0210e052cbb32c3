-- ===== src/TimerQueue/Order.antt =====
-- The set of timers is strictly ordered by expiration and address.
use penduo.Prelude.{
  ◌≡◌, refl, inl, inr, Bool-cases, true, some, List, [], ◌∷◌, arith, if◌then◌else◌,
}
use penduo.TimerQueue.{Entry, before, set_insert, is_earliest, first_of_list}

-- Each element stands before the next.
abbrev pub Below : Entry → List Entry → Type 0
Below e [] = Unit {0}
Below e (x ∷ xs) = before e x ≡ true

abbrev pub IsSorted : List Entry → Type 0
IsSorted [] = Unit {0}
IsSorted (x ∷ xs) = Below x xs × IsSorted xs

pub set_insert-Below :
    (y e : Entry) (xs : List Entry) → before y e ≡ true → Below y xs → Below y (set_insert e xs)
unfolding set_insert
set_insert-Below y e [] h b = h
set_insert-Below y e (x ∷ xs) h b = ground arith

insert_later :
    (e x : Entry) (xs ys : List Entry)
    → IsSorted (x ∷ xs)
    → IsSorted ys
    → (before x e ≡ true → Below x ys)
    → IsSorted (if before x e then x ∷ ys else x ∷ xs)
insert_later e x xs ys s s' b = elim (Bool-cases (before x e)) [
  | inl q ↦ rw q (b q, s')
  | inr q ↦ rw q s
]

pub set_insert-IsSorted : (e : Entry) (xs : List Entry) → IsSorted xs → IsSorted (set_insert e xs)
unfolding set_insert
set_insert-IsSorted e [] s = (tt, tt)
set_insert-IsSorted e (x ∷ xs) s = elim (Bool-cases (before e x)) [
  | inl p ↦ rw p (p, s)
  | inr p ↦ rw p (
      insert_later e x xs (set_insert e xs) s (set_insert-IsSorted e xs s.1)
        (λ q. set_insert-Below x e xs q s.0))
]

-- The first expiration after an insertion.
pub first-set_insert :
    (e : Entry) (xs : List Entry)
    → first_of_list (set_insert e xs)
      ≡ (if is_earliest e.first xs then some e.first else first_of_list xs)
unfolding set_insert
first-set_insert e [] = refl
first-set_insert e (x ∷ xs) = ground arith
