-- ===== src/Loop/Runs/Whole.antt =====
-- Runs of `EventLoop::loop` never fail and end with the first round in which `quit` is called.
use penduo.Prelude.{
  ℕ, ◌≡◌, refl, sym, ap, ◌∙◌, ◌⊎◌, inl, inr, Bool, true, false, List, [], ◌∷◌, ◌++◌, subst, ok,
  ◌>>=◌, arith, Bool-cases,
}
use penduo.Reactor
use penduo.Sockets.Ops.{Network}
use penduo.Loop.{
  Loop, Round, Progress, still_looping, returned, reactor_of, run_round, run_rounds, after_while,
  loop,
}
use penduo.Loop.Invariant.{Running}
use penduo.Loop.Rounds.Whole.{run_round-RoundDone}
use penduo.Loop.Runs.{some_quits, AllFit, find_first, all_rounds, GoesOn, Returns}

-- Only the marks of the loop are new.
restarted :
    {net : Network} (w : Loop net) → Running w → Running (record w { looping = true; quit = false })
restarted w v = record {
  settled = v.settled;
  apart = v.apart;
  own = v.own;
  timers = v.timers;
  timers_here = v.timers_here;
  accepts = v.accepts;
}

stopped : {net : Network} (w : Loop net) (b : Bool) → Running w → Running (record w { looping = b })
stopped w b v = record {
  settled = v.settled;
  apart = v.apart;
  own = v.own;
  timers = v.timers;
  timers_here = v.timers_here;
  accepts = v.accepts;
}

module _ (net : Network) (injective : (i j : ℕ) → net.to_string i ≡ net.to_string j → i ≡ j)
    (current : ℕ) where
  run_rounds_body :
      (round : Round) (rounds : List Round) (w : Loop net)
      → w.quit ≡ false
      → run_rounds (round ∷ rounds) current w
        ≡ (run_round round current w >>= run_rounds rounds current)
  unfolding run_rounds
  run_rounds_body round rounds w on = rw on refl

  run_rounds_step :
      (round : Round) (rounds : List Round) (w w₁ : Loop net)
      → w.quit ≡ false
      → run_round round current w ≡ ok w₁
      → run_rounds (round ∷ rounds) current w ≡ run_rounds rounds current w₁
  run_rounds_step round rounds w w₁ on e =
      run_rounds_body round rounds w on ∙ ap (λ o. o >>= run_rounds rounds current) e

  run_rounds_told :
      (rounds : List Round) (w : Loop net)
      → w.quit ≡ true
      → run_rounds rounds current w ≡ ok (returned rounds w)
  unfolding run_rounds
  run_rounds_told [] w told = rw told refl
  run_rounds_told (round ∷ rounds) w told = rw told refl

  run_rounds_end : (w : Loop net) → w.quit ≡ false → run_rounds [] current w ≡ ok (still_looping w)
  unfolding run_rounds
  run_rounds_end w on = rw on refl

  all_rounds_step :
      (round : Round) (rounds : List Round) (w w₁ : Loop net)
      → run_round round current w ≡ ok w₁
      → all_rounds (round ∷ rounds) current w ≡ all_rounds rounds current w₁
  unfolding all_rounds
  all_rounds_step round rounds w w₁ e = ap (λ o. o >>= all_rounds rounds current) e

  all_rounds_end : (w : Loop net) → all_rounds [] current w ≡ ok w
  unfolding all_rounds
  all_rounds_end w = refl

  -- Rounds without a call of `quit`.
  run_rounds_on :
      (rounds : List Round) (w : Loop net)
      → Running w
      → current ≡ (reactor_of w).thread_id
      → w.quit ≡ false
      → some_quits rounds ≡ false
      → AllFit rounds current w
      → (w' : Loop net) × (run_rounds rounds current w ≡ ok (still_looping w'))
        × (all_rounds rounds current w ≡ ok w')
        × Running w'
        × (w'.quit ≡ false)
  run_rounds_on [] w v here on none fit = (w, run_rounds_end w on, all_rounds_end w, v, on)
  run_rounds_on (round ∷ rounds) w v here on none fit =
      let (w₁, e₁, done) = run_round-RoundDone net injective round current w v here fit.0 in
      let (w', e, a, v', q) =
        run_rounds_on rounds w₁ done.running (here ∙ sym done.same_thread)
          (ground (arith, done.quits)) (ground arith) (fit.1 (ground arith) w₁ e₁) in
      (
        w',
        run_rounds_step round rounds w w₁ on e₁ ∙ e,
        all_rounds_step round rounds w w₁ e₁ ∙ a,
        v',
        q,
      )

  -- Rounds up to the first with a call of `quit`, whatever rounds come later.
  run_rounds_quit :
      (earlier : List Round) (last : Round) (later : List Round) (w : Loop net)
      → Running w
      → current ≡ (reactor_of w).thread_id
      → w.quit ≡ false
      → some_quits earlier ≡ false
      → last.quits ≡ true
      → AllFit (earlier ++ last ∷ later) current w
      → (w' : Loop net) × ((later' : List Round)
          → run_rounds (earlier ++ last ∷ later') current w ≡ ok (returned later' w'))
        × (all_rounds (earlier ++ last ∷ []) current w ≡ ok w')
        × Running w'
        × (w'.quit ≡ true)
  run_rounds_quit [] last later w v here on none quits fit =
      let (w₁, e₁, done) = run_round-RoundDone net injective last current w v here fit.0 in
      let told : w₁.quit ≡ true = ground (arith, done.quits) in
      (
        w₁,
        λ later'. run_rounds_step last later' w w₁ on e₁ ∙ run_rounds_told later' w₁ told,
        all_rounds_step last [] w w₁ e₁ ∙ all_rounds_end w₁,
        done.running,
        told,
      )
  run_rounds_quit (round ∷ earlier) last later w v here on none quits fit =
      let (w₁, e₁, done) = run_round-RoundDone net injective round current w v here fit.0 in
      let (w', e, a, v', told) =
        run_rounds_quit earlier last later w₁ done.running (here ∙ sym done.same_thread)
          (ground (arith, done.quits)) (ground arith) quits (fit.1 (ground arith) w₁ e₁) in
      (
        w',
        λ later'. run_rounds_step round (earlier ++ last ∷ later') w w₁ on e₁ ∙ e later',
        all_rounds_step round (earlier ++ last ∷ []) w w₁ e₁ ∙ a,
        v',
        told,
      )

  loop_enters :
      (rounds : List Round) (w : Loop net) (p : Progress net)
      → current ≡ (reactor_of w).thread_id
      → w.looping ≡ false
      → run_rounds rounds current (record w { looping = true; quit = false }) ≡ ok p
      → loop rounds current w ≡ ok (after_while p)
  unfolding loop
  loop_enters rounds w p here idle e = rw (idle, here_ok w here, e) refl
    where
      here_ok :
          (w : Loop net)
          → current ≡ (reactor_of w).thread_id
          → Reactor.assert_in_loop_thread current (reactor_of w) ≡ ok tt
      here_ok w here = ground arith

  -- A loop that is not looping, in its thread, over any rounds of which each up to the first with a call
  -- of `quit` meets what it may meet: no call fails, and the loop is well-formed after them. Without
  -- such a call it has run them all and goes on; with one it has run those up to the first with one and
  -- has returned, and whatever rounds come later are not run.
  pub loop-Running :
      (rounds : List Round) (w : Loop net)
      → Running w
      → current ≡ (reactor_of w).thread_id
      → w.looping ≡ false
      → AllFit rounds current (record w { looping = true; quit = false })
      → ((some_quits rounds ≡ false) × GoesOn rounds current w)
        ⊎ ((some_quits rounds ≡ true) × Returns rounds current w)
  loop-Running rounds w v here idle fit = elim (Bool-cases (some_quits rounds)) [
    | inl quits ↦
        let first = find_first rounds quits in
        let (w', e, a, v', told) =
          run_rounds_quit first.earlier first.last first.later
            (record w { looping = true; quit = false }) (restarted w v) here refl first.none_earlier
            first.quits
            (subst
              (λ (rs : List Round). AllFit rs current (record w { looping = true; quit = false }))
              first.whole fit) in
        inr (
          quits,
          record {
            first = first;
            loop' = w';
            ran = a;
            returns = λ later.
                loop_enters (first.earlier ++ first.last ∷ later) w (returned later w') here idle
                  (e later);
            running = stopped w' false v';
            told = told;
          },
        )
    | inr none ↦
        let (w', e, a, v', on) =
          run_rounds_on rounds (record w { looping = true; quit = false }) (restarted w v) here refl
            none fit in
        inl (
          none,
          record {
            loop' = w';
            runs = loop_enters rounds w (still_looping w') here idle e;
            all_ran = a;
            running = v';
            not_told = on;
          },
        )
  ]
