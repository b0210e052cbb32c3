-- ===== src/Prelude/Bags.antt =====
-- Lists up to order. An array that loses an entry out of its middle, where the last entry takes the
-- place, has lost that entry and nothing else.
use Prim.Native.Nat.{ℕ, zero, suc, ◌<◌}
use mathlib.Core.Path.{◌≡◌, refl, sym, ap, ◌∙◌}
use mathlib.Core.Option.{some, some-injective}
use mathlib.Core.List.{List, [], ◌∷◌, Perm}
use mathlib.Core.List.Perm
use mathlib.Core.Quot
use mathlib.Core.Quot.{Quot, Quot-set}
use native.Mathlib.Omega.{arith}
use penduo.Prelude.Lists.{length, get_elem?, set, pop_back, length-set}

abbrev pub Bag {ℓ} : Type ℓ → Type ℓ
Bag A = Quot (Perm {A = A})

module _ {ℓ} {A : Type ℓ} where
  abbrev pub bag : List A → Bag A
  bag = Quot.mk

  unfoldable pub insert : A → Bag A → Bag A
  insert x = Quot.lift Quot-set (λ xs. bag (x ∷ xs)) λ xs ys p. Quot.sound (Perm.cons x p)

  pub bag-cons : (x : A) (xs : List A) → bag (x ∷ xs) ≡ insert x (bag xs)
  unfolding insert
  bag-cons x xs = refl

  pub insert_comm : (x y : A) (b : Bag A) → insert x (insert y b) ≡ insert y (insert x b)
  unfolding insert
  insert_comm x y = Quot.ind (λ _. hlevel Quot-set) λ xs. Quot.sound (Perm.swap y x xs)

  pop_back_cons : (x : A) (xs : List A) → 0 < length xs → pop_back (x ∷ xs) ≡ x ∷ pop_back xs
  unfolding pop_back
  pop_back_cons x [] h = absurd (omega arith)
  pop_back_cons x (y ∷ xs) h = refl

  pop_back-set_last :
      (xs : List A) (n : ℕ) (v : A) → suc n ≡ length xs → pop_back (set xs n v) ≡ pop_back xs
  unfolding pop_back set
  pop_back-set_last [] n v e = refl
  pop_back-set_last (x ∷ []) zero v e = refl
  pop_back-set_last (x ∷ []) (suc n) v e = refl
  pop_back-set_last (x ∷ y ∷ xs) zero v e = absurd (omega arith)
  pop_back-set_last (x ∷ y ∷ xs) (suc n) v e =
      pop_back_cons x (set (y ∷ xs) n v) (omega (arith, length-set (y ∷ xs) n v))
      ∙ ap (λ zs. x ∷ zs) (pop_back-set_last (y ∷ xs) n v (omega arith))

  -- `pop_back` takes the last entry.
  pub bag-pop_back :
      (xs : List A) (n : ℕ) (v : A)
      → suc n ≡ length xs
      → get_elem? xs n ≡ some v
      → bag xs ≡ insert v (bag (pop_back xs))
  unfolding pop_back get_elem? insert
  bag-pop_back [] n v e at = absurd (omega arith)
  bag-pop_back (x ∷ []) zero v e at = ap (λ y. bag (y ∷ [])) (some-injective x v at)
  bag-pop_back (x ∷ []) (suc n) v e at = absurd (omega arith)
  bag-pop_back (x ∷ y ∷ xs) zero v e at = absurd (omega arith)
  bag-pop_back (x ∷ y ∷ xs) (suc n) v e at =
      ap (insert x) (bag-pop_back (y ∷ xs) n v (omega arith) at)
      ∙ insert_comm x v (bag (pop_back (y ∷ xs)))

  -- The last entry takes the place of the entry that goes, which is then popped.
  pub bag-swap_pop :
      (xs : List A) (i n : ℕ) (moved removed : A)
      → suc n ≡ length xs
      → i < n
      → get_elem? xs i ≡ some removed
      → get_elem? xs n ≡ some moved
      → bag xs ≡ insert removed (bag (pop_back (set (set xs i moved) n removed)))
  unfolding set get_elem?
  bag-swap_pop xs i zero m r e lt at last = absurd (omega arith)
  bag-swap_pop [] i (suc n) m r e lt at last = absurd (omega arith)
  bag-swap_pop (x ∷ xs) zero (suc n) m r e lt at last =
      bag-cons x xs
      ∙ ap (insert x) (bag-pop_back xs n m (omega arith) last)
      ∙ ap (λ y. insert y (insert m (bag (pop_back xs)))) (some-injective x r at)
      ∙ ap (insert r) (sym (ap bag kept ∙ bag-cons m (pop_back xs)))
    where
      kept : pop_back (m ∷ set xs n r) ≡ m ∷ pop_back xs
      kept =
          pop_back_cons m (set xs n r) (omega (arith, length-set xs n r))
          ∙ ap (λ zs. m ∷ zs) (pop_back-set_last xs n r (omega arith))
  bag-swap_pop (x ∷ xs) (suc i) (suc n) m r e lt at last =
      let zs : List A = set (set xs i m) n r in
      let kept : pop_back (x ∷ zs) ≡ x ∷ pop_back zs =
        pop_back_cons x zs (omega (arith, length-set (set xs i m) n r, length-set xs i m)) in
      bag-cons x xs
      ∙ ap (insert x) (bag-swap_pop xs i n m r (omega arith) (omega arith) at last)
      ∙ insert_comm x r (bag (pop_back zs))
      ∙ ap (insert r) (sym (ap bag kept ∙ bag-cons x (pop_back zs)))
