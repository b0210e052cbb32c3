-- ===== src/Loop/Runs.antt =====
-- Whole runs of `EventLoop::loop`.
pub mod Whole
use penduo.Prelude.{
  ℕ, ◌≡◌, refl, sym, ap, ◌∙◌, ◌⊎◌, inl, inr, Bool, true, false, not, ◌||◌, List, [], ◌∷◌, ◌++◌,
  subst, Outcome, ok, ◌>>=◌, arith, Bool-cases,
}
use penduo.Reactor
use penduo.Sockets.Ops.{Network}
use penduo.Loop.{
  Loop, Round, Progress, still_looping, returned, reactor_of, run_round, run_rounds, after_while,
  loop,
}
use penduo.Loop.Invariant.{Running}
use penduo.Loop.Rounds.{IsFit}
use penduo.Loop.Rounds.Whole.{run_round-RoundDone}

-- Whether `quit` is called in some round.
abbrev pub some_quits : List Round → Bool
some_quits [] = false
some_quits (round ∷ rounds) = round.quits || some_quits rounds

-- Each round up to the first in which `quit` is called meets what it may meet, in the loop that the
-- rounds before it leave.
abbrev pub AllFit : {net : Network} → List Round → (current : ℕ) → Loop net → Type 0
AllFit [] current w = Unit {0}
AllFit {net} (round ∷ rounds) current w =
    IsFit round w
    × (round.quits ≡ false
        → (w' : Loop net) → run_round round current w ≡ ok w'
        → AllFit rounds current w')

-- The first round in which `quit` is called, between the rounds before it and those after it.
pub record FirstQuit (rounds : List Round) : Type 0 where
  pub earlier : List Round
  pub last : Round
  pub later : List Round
  pub whole : rounds ≡ earlier ++ last ∷ later
  pub none_earlier : some_quits earlier ≡ false
  pub quits : last.quits ≡ true

-- All of the rounds, one after the other, with no test.
unfoldable pub all_rounds :
    {net : Network} → List Round → (current : ℕ) → Loop net → Outcome (Loop net)
all_rounds [] current w = ok w
all_rounds (round ∷ rounds) current w = run_round round current w >>= all_rounds rounds current

-- A loop in which `quit` was not called has run all rounds and runs on.
pub record GoesOn {net : Network} (rounds : List Round) (current : ℕ) (w : Loop net) : Type 0 where
  pub loop' : Loop net
  pub runs : loop rounds current w ≡ ok (still_looping loop')
  pub all_ran : all_rounds rounds current (record w { looping = true; quit = false }) ≡ ok loop'
  pub running : Running loop'
  pub not_told : loop'.quit ≡ false

-- A loop in which it was called has run the rounds up to that one and has returned; whatever rounds
-- come later are not run and change nothing.
pub record Returns {net : Network} (rounds : List Round) (current : ℕ) (w : Loop net) : Type 0 where
  pub first : FirstQuit rounds
  pub loop' : Loop net
  pub ran :
      all_rounds
        (first.earlier ++ first.last ∷ [])
        current
        (record w { looping = true; quit = false })
      ≡ ok loop'
  pub returns :
      (later : List Round)
      → loop (first.earlier ++ first.last ∷ later) current w
        ≡ ok (returned later (record loop' { looping = false }))
  pub running : Running (record loop' { looping = false })
  pub told : loop'.quit ≡ true

pub find_first : (rounds : List Round) → some_quits rounds ≡ true → FirstQuit rounds
find_first [] h = absurd (ground arith)
find_first (round ∷ rounds) h = elim (Bool-cases round.quits) [
  | inl quits ↦ record {
    earlier = [];
    last = round;
    later = rounds;
    whole = refl;
    none_earlier = refl;
    quits = quits;
  }
  | inr on ↦
      let f = find_first rounds (ground arith) in
      record {
        earlier = round ∷ f.earlier;
        last = f.last;
        later = f.later;
        whole = ap (λ rs. round ∷ rs) f.whole;
        none_earlier = ground (arith, f.none_earlier);
        quits = f.quits;
      }
]
