-- ===== src/Dispatch/Order.antt =====
-- `handle_event` against a plan that is made once, from the events as `poll` returned them.
use penduo.Prelude.{
  ℕ, ◌≡◌, refl, Bool, ap, ◌∙◌, inl, inr, true, false, Option, none, some, List, [], ◌∷◌, ◌++◌,
  Outcome, ok, fail, ◌>>=◌, arith, if◌then◌else◌, Bool-cases, Option-cases,
}
use penduo.Channel.{Channel}
use penduo.Reactor.{set_chan}
use penduo.Timestamp.{Timestamp}
use penduo.Dispatch.{
  World, Stage, on_close, on_error, on_read, on_write, happens, callback, argument, set_handling,
  stage, handle_event,
}

abbrev pub Plan : Type 0
Plan = List (ℕ × Option Timestamp)

-- The call that a stage makes of a channel, if any.
unfoldable pub planned : Stage → Timestamp → Channel → Plan
planned st t ch =
    if happens st ch
    then elim (callback st ch) [ none ↦ [] | some k ↦ (k, argument st t) ∷ [] ]
    else []

-- What poll(2) reports in a channel against the callback that is for it: the calls that the header's
-- four callbacks are there for, in the order of the code, written out bit by bit.
abbrev pub call_if : Bool → Option ℕ → Option Timestamp → Plan
call_if b none t = []
call_if b (some k) t = if b then (k, t) ∷ [] else []

abbrev pub expected_calls : Timestamp → Channel → Plan
expected_calls t ch =
    let e = ch.revents in
    call_if (if e.pollin then false else e.pollhup) ch.close_callback none
    ++ call_if (if e.pollerr then true else e.pollnval) ch.error_callback none
    ++ call_if (if e.pollin then true else e.pollpri) ch.read_callback (some t)
    ++ call_if e.pollout ch.write_callback none

-- Events and callbacks are the same.
pub record SameEvents (a b : Channel) : Type 0 where
  pub revents : b.revents ≡ a.revents
  pub read_callback : b.read_callback ≡ a.read_callback
  pub write_callback : b.write_callback ≡ a.write_callback
  pub error_callback : b.error_callback ≡ a.error_callback
  pub close_callback : b.close_callback ≡ a.close_callback

planned-SameEvents :
    (st : Stage) (t : Timestamp) (a b : Channel) → SameEvents a b → planned st t b ≡ planned st t a
unfolding planned
planned-SameEvents on_close t a b e = rw (e.revents, e.close_callback) refl
planned-SameEvents on_error t a b e = rw (e.revents, e.error_callback) refl
planned-SameEvents on_read t a b e = rw (e.revents, e.read_callback) refl
planned-SameEvents on_write t a b e = rw (e.revents, e.write_callback) refl

bind_case :
    {W : Type 0} (m : Outcome W) (f g last : W → Outcome W)
    → ((w : W) → m ≡ ok w → f w ≡ (g w >>= last))
    → (m >>= f) ≡ (m >>= g >>= last)
bind_case (ok w) f g last h = h w refl
bind_case (fail e) f g last h = refl

module _ {W : Type 0} (world : World W) (run : ℕ → Option Timestamp → W → Outcome W) (c : ℕ)
    (receive_time : Timestamp) where
  unfoldable pub run_plan : Plan → W → Outcome W
  run_plan [] w = ok w
  run_plan ((k, t) ∷ p) w = run k t w >>= run_plan p

  -- Callbacks leave the events and the callbacks of this channel alone.
  abbrev pub Keeps : Type 0
  Keeps =
      (k : ℕ) (t : Option Timestamp) (w w' : W)
      → run k t w ≡ ok w'
      → SameEvents ((world.reactor w).chans c) ((world.reactor w').chans c)

  abbrev stages : List Stage → (W → Outcome W) → W → Outcome W
  stages [] last w = last w
  stages (st ∷ sts) last w = stage world run c receive_time st w >>= stages sts last

  unfoldable pub plan_of : List Stage → Channel → Plan
  plan_of [] ch = []
  plan_of (st ∷ sts) ch = planned st receive_time ch ++ plan_of sts ch

  plan_of-SameEvents :
      (sts : List Stage) (a b : Channel) → SameEvents a b → plan_of sts b ≡ plan_of sts a
  unfolding plan_of
  plan_of-SameEvents [] a b e = refl
  plan_of-SameEvents (st ∷ sts) a b e =
      rw (planned-SameEvents st receive_time a b e, plan_of-SameEvents sts a b e) refl

  abbrev own : W → Channel
  own w = (world.reactor w).chans c

  -- One stage, given what the later ones do from each world that it may lead to.
  stage-plan :
      (st : Stage) (later : W → Outcome W) (rest : Plan) (last : W → Outcome W) (w : W)
      → later w ≡ (run_plan rest w >>= last)
      → ((k : ℕ) (t : Option Timestamp) (w' : W)
          → run k t w ≡ ok w'
          → later w' ≡ (run_plan rest w' >>= last))
      → (stage world run c receive_time st w >>= later)
        ≡ (run_plan (planned st receive_time (own w) ++ rest) w >>= last)
  unfolding run_plan planned
  stage-plan st later rest last w same after = elim (Bool-cases (happens st (own w))) [
    | inr quiet ↦ rw quiet same
    | inl busy ↦ elim (Option-cases (callback st (own w))) [
      | inl empty ↦ rw (busy, empty) same
      | inr (k, e) ↦
          rw (busy, e)
            (bind_case (run k (argument st receive_time) w) later (run_plan rest) last
              (after k (argument st receive_time)))
    ]
  ]

  module _ (keeps : Keeps) where
    stages-plan :
        (sts : List Stage) (last : W → Outcome W) (w : W)
        → stages sts last w ≡ (run_plan (plan_of sts (own w)) w >>= last)
    unfolding run_plan plan_of
    stages-plan [] last w = refl
    stages-plan (st ∷ sts) last w =
        stage-plan st (stages sts last) (plan_of sts (own w)) last w (stages-plan sts last w)
          (λ k t w' e.
            rw (← plan_of-SameEvents sts (own w) (own w') (keeps k t w w' e))
              (stages-plan sts last w'))

    reads_back :
        {A : Type 0} (f : Channel → A) (w : W)
        → f (own (set_handling world run c receive_time true w))
          ≡ f (record (own w) { event_handling = true })
    reads_back f w =
        ap (λ r. f (r.chans c))
          (world.reactor-put
            (set_chan (world.reactor w) c (record (own w) { event_handling = true })) w)
        ∙ ground arith

    started : (w : W) → SameEvents (own w) (own (set_handling world run c receive_time true w))
    started w = record {
      revents = reads_back (λ ch. ch.revents) w;
      read_callback = reads_back (λ ch. ch.read_callback) w;
      write_callback = reads_back (λ ch. ch.write_callback) w;
      error_callback = reads_back (λ ch. ch.error_callback) w;
      close_callback = reads_back (λ ch. ch.close_callback) w;
    }

    plan_of_stages :
        (ch : Channel)
        → plan_of (on_close ∷ on_error ∷ on_read ∷ on_write ∷ []) ch
          ≡ expected_calls receive_time ch
    unfolding plan_of planned
    plan_of_stages ch = ground arith

    -- If callbacks leave the events and the callbacks of the channel alone, `handle_event` makes the
    -- calls that the events at its start ask for, where a callback is set: close for POLLHUP without
    -- POLLIN, then error for POLLERR or POLLNVAL, then read, with the time, for POLLIN or POLLPRI, then
    -- write for POLLOUT, each at most once. It marks the channel as handling before them and unmarks it
    -- after the last.
    pub handle_event-plan :
        (w : W)
        → handle_event world run c receive_time w ≡ (
            run_plan
              (expected_calls receive_time (own w))
              (set_handling world run c receive_time true w)
            >>= λ w'. ok (set_handling world run c receive_time false w'))
    unfolding handle_event
    handle_event-plan w =
        rw
          (
            ← plan_of_stages (own w),
            ← plan_of-SameEvents (on_close ∷ on_error ∷ on_read ∷ on_write ∷ []) (own w)
                (own (set_handling world run c receive_time true w)) (started w),
          )
          (stages-plan (on_close ∷ on_error ∷ on_read ∷ on_write ∷ [])
            (λ w'. ok (set_handling world run c receive_time false w'))
            (set_handling world run c receive_time true w))
