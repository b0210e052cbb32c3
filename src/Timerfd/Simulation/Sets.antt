-- ===== src/Timerfd/Simulation/Sets.antt =====
-- The set of the timer thread: what insertion, erasure and the loop over the expired entries do to
-- its elements and to its order.
use penduo.Prelude.{
  ℕ, ◌+◌, ◌*◌, ◌≡◌, refl, inl, inr, Bool, true, false, not, ◌&&◌, ◌||◌, List, [], ◌∷◌, ◌==◌,
  if◌then◌else◌, update, All, Bool-cases, arith,
}
use penduo.Timestamp.{Timestamp, lt, ge}
use penduo.Timerfd.Simulation.{
  TimerEntry, precedes, equivalent, insert, erase, take_expirations, write_each,
}

unfoldable pub contains : TimerEntry → List TimerEntry → Bool
contains e [] = false
contains e (x ∷ xs) = equivalent e x || contains e xs

-- Each element stands before all later ones.
abbrev pub IsOrdered : List TimerEntry → Type 0
IsOrdered [] = Unit {0}
IsOrdered (x ∷ xs) = All (λ y. precedes x y ≡ true) xs × IsOrdered xs

precedes_trans :
    (a b c : TimerEntry) → precedes a b ≡ true → precedes b c ≡ true → precedes a c ≡ true
precedes_trans a b c h k = ground arith

All-precedes_trans :
    (a b : TimerEntry) (xs : List TimerEntry)
    → precedes a b ≡ true
    → All (λ y. precedes b y ≡ true) xs
    → All (λ y. precedes a y ≡ true) xs
All-precedes_trans a b [] h k = tt
All-precedes_trans a b (x ∷ xs) h k = (precedes_trans a b x h k.0, All-precedes_trans a b xs h k.1)

All-precedes-insert :
    (a e : TimerEntry) (xs : List TimerEntry)
    → precedes a e ≡ true
    → All (λ y. precedes a y ≡ true) xs
    → All (λ y. precedes a y ≡ true) (insert e xs)
unfolding insert
All-precedes-insert a e [] h k = (h, tt)
All-precedes-insert a e (x ∷ xs) h k = ground (arith, All-precedes-insert a e xs h k.1)

pub insert-IsOrdered :
    (e : TimerEntry) (xs : List TimerEntry) → IsOrdered xs → IsOrdered (insert e xs)
unfolding insert
insert-IsOrdered e [] o = (tt, tt)
insert-IsOrdered e (x ∷ xs) o = elim (Bool-cases (precedes e x)) [
  | inl before ↦ rw before ((before, All-precedes_trans e x xs before o.0), o)
  | inr not_before ↦ elim (Bool-cases (precedes x e)) [
    | inl after ↦
        rw (not_before, after) (All-precedes-insert x e xs after o.0, insert-IsOrdered e xs o.1)
    | inr same ↦ rw (not_before, same) o
  ]
]

pub contains-insert :
    (f e : TimerEntry) (xs : List TimerEntry)
    → contains f (insert e xs) ≡ (equivalent f e || contains f xs)
unfolding insert contains
contains-insert f e [] = refl
contains-insert f e (x ∷ xs) = ground (arith, contains-insert f e xs)

All-erase :
    (P : TimerEntry → Type 0) (e : TimerEntry) (xs : List TimerEntry)
    → All P xs
    → All P (erase e xs)
unfolding erase
All-erase P e [] k = tt
All-erase P e (x ∷ xs) k = elim (Bool-cases (equivalent e x)) [
  | inl same ↦ rw same k.1
  | inr other ↦ rw other (k.0, All-erase P e xs k.1)
]

pub erase-IsOrdered :
    (e : TimerEntry) (xs : List TimerEntry) → IsOrdered xs → IsOrdered (erase e xs)
unfolding erase
erase-IsOrdered e [] o = tt
erase-IsOrdered e (x ∷ xs) o = elim (Bool-cases (equivalent e x)) [
  | inl same ↦ rw same o.1
  | inr other ↦ rw other (All-erase _ e xs o.0, erase-IsOrdered e xs o.1)
]

-- What stands after `a` is not equivalent to it.
pub not-contains_after :
    (a f : TimerEntry) (xs : List TimerEntry)
    → equivalent f a ≡ true
    → All (λ y. precedes a y ≡ true) xs
    → contains f xs ≡ false
unfolding contains
not-contains_after a f [] h k = refl
not-contains_after a f (x ∷ xs) h k = ground (arith, not-contains_after a f xs h k.1)

equivalent_same : (f e x : TimerEntry) → equivalent e x ≡ true → equivalent f e ≡ equivalent f x
equivalent_same f e x h = ground arith

equivalent_apart :
    (f e x : TimerEntry) → equivalent e x ≡ false → equivalent f x ≡ true → equivalent f e ≡ false
equivalent_apart f e x h k = ground arith

drop_first : (a c : Bool) → (a ≡ true → c ≡ false) → c ≡ ((a || c) && not a)
drop_first true c h = h refl
drop_first false true h = refl
drop_first false false h = refl

keep_first : (a b c : Bool) → (a ≡ true → b ≡ false) → (a || (c && not b)) ≡ ((a || c) && not b)
keep_first true b c h = ground (arith, h refl)
keep_first false b c h = refl

pub contains-erase :
    (f e : TimerEntry) (xs : List TimerEntry)
    → IsOrdered xs
    → contains f (erase e xs) ≡ (contains f xs && not (equivalent f e))
unfolding erase contains
contains-erase f e [] o = refl
contains-erase f e (x ∷ xs) o = elim (Bool-cases (equivalent e x)) [
  | inl same ↦
      rw (same, equivalent_same f e x same)
        (drop_first (equivalent f x) (contains f xs) (λ h. not-contains_after x f xs h o.0))
  | inr other ↦
      rw (other, contains-erase f e xs o.1)
        (keep_first (equivalent f x) (equivalent f e) (contains f xs)
          (equivalent_apart f e x other))
]

due_of_precedes :
    (now : Timestamp) (x y : TimerEntry)
    → precedes x y ≡ true
    → ge now x.first ≡ false
    → ge now y.first ≡ false
due_of_precedes now x y h k = ground arith

skip_first : (a c d : Bool) → (a ≡ true → d ≡ false) → (c && d) ≡ ((a || c) && d)
skip_first true c d h = ground (arith, h refl)
skip_first false c d h = refl

hold_first : (a c d : Bool) → (a ≡ true → d ≡ true) → c ≡ (c && d) → (a || c) ≡ ((a || c) && d)
hold_first true c d h k = ground (arith, h refl)
hold_first false c d h k = k

-- All that an ordered set contains after an entry that is ahead is ahead too.
contains-ahead :
    (now : Timestamp) (f x : TimerEntry) (xs : List TimerEntry)
    → ge now x.first ≡ false
    → All (λ y. precedes x y ≡ true) xs
    → contains f xs ≡ (contains f xs && lt now f.first)
unfolding contains
contains-ahead now f x [] h k = refl
contains-ahead now f x (y ∷ xs) h k =
    hold_first (equivalent f y) (contains f xs) (lt now f.first) (λ e. ground (arith, k.0))
      (contains-ahead now f x xs h k.1)

-- What is not expired stays.
pub contains-take :
    (now : Timestamp) (f : TimerEntry) (xs : List TimerEntry)
    → IsOrdered xs
    → contains f (take_expirations now xs).1 ≡ (contains f xs && lt now f.first)
unfolding take_expirations contains
contains-take now f [] o = refl
contains-take now f (x ∷ xs) o = elim (Bool-cases (ge now x.first)) [
  | inl due ↦
      rw (due, contains-take now f xs o.1)
        (skip_first (equivalent f x) (contains f xs) (lt now f.first) (λ h. ground arith))
  | inr ahead ↦ rw ahead (
      hold_first (equivalent f x) (contains f xs) (lt now f.first) (λ h. ground arith)
        (contains-ahead now f x xs ahead o.0))
]

pub take-IsOrdered :
    (now : Timestamp) (xs : List TimerEntry) → IsOrdered xs → IsOrdered (take_expirations now xs).1
unfolding take_expirations
take-IsOrdered now [] o = tt
take-IsOrdered now (x ∷ xs) o = elim (Bool-cases (ge now x.first)) [
  | inl due ↦ rw due (take-IsOrdered now xs o.1)
  | inr ahead ↦ rw ahead o
]

-- How often a descriptor is due in the set.
unfoldable pub due_count : ℕ → Timestamp → List TimerEntry → ℕ
due_count fd now [] = 0
due_count fd now (x ∷ xs) =
    if x.second == fd && ge now x.first then due_count fd now xs + 1 else due_count fd now xs

ahead-due_count :
    (fd : ℕ) (now : Timestamp) (x : TimerEntry) (xs : List TimerEntry)
    → ge now x.first ≡ false
    → All (λ y. precedes x y ≡ true) xs
    → due_count fd now xs ≡ 0
unfolding due_count
ahead-due_count fd now x [] h k = refl
ahead-due_count fd now x (y ∷ xs) h k = ground (arith, k.0, ahead-due_count fd now x xs h k.1)

-- Each expired entry makes one write of eight bytes to its descriptor.
pub write_each-take :
    (fd : ℕ) (now : Timestamp) (xs : List TimerEntry) (bytes : ℕ → ℕ)
    → IsOrdered xs
    → write_each (take_expirations now xs).0 bytes fd ≡ bytes fd + 8 * due_count fd now xs
unfolding write_each take_expirations due_count
write_each-take fd now [] bytes o = omega arith
write_each-take fd now (x ∷ xs) bytes o = elim (Bool-cases (ge now x.first)) [
  | inl due ↦
      ground (arith, write_each-take fd now xs (update bytes x.second (bytes x.second + 8)) o.1)
  | inr ahead ↦ ground (arith, ahead-due_count fd now x xs ahead o.0)
]
