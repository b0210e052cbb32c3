-- ===== src/Lifetime/End.antt =====
-- An event loop as it is built and as it is destroyed.
use penduo.Prelude.{ℕ, ◌≡◌, sym, ap, ◌∙◌, inl, Bool, false, ok, fail, assertion, ◌==◌, arith}
use penduo.Channel.{k_read_event, union}
use penduo.Reactor.{Reactor}
use penduo.Reactor.Invariant.{Inv}
use penduo.Reactor.Interest.{IsNew, IsEntered, Asks, enable_reading-Asks}
use penduo.Lifetime.{construct, destroy_loop}

-- A loop whose wakeup channel is entered cannot be destroyed.
destroy_loop-entered :
    (looping : Bool) (timer wakeup : ℕ) (r : Reactor)
    → Inv r
    → IsEntered r wakeup
    → destroy_loop looping timer wakeup r ≡ fail assertion
unfolding destroy_loop
destroy_loop-entered looping timer wakeup r v entered =
    ground (arith, v.mapped (r.chans wakeup).fd wakeup entered)

-- Both channels are entered, and the loop cannot be destroyed.
pub record Built (timer wakeup : ℕ) (r' : Reactor) : Type 0 where
  pub inv : Inv r'
  pub timer_entered : IsEntered r' timer
  pub wakeup_entered : IsEntered r' wakeup
  pub no_end : (looping : Bool) → destroy_loop looping timer wakeup r' ≡ fail assertion

-- In its thread, the constructor enters two new channels of different descriptors and never fails,
-- but without a call in between, the destructor then always fails an assertion.
pub construct-Built :
    (current timer wakeup : ℕ) (r : Reactor)
    → Inv r
    → current ≡ r.thread_id
    → IsNew r timer
    → IsNew r wakeup
    → ((r.chans timer).fd == (r.chans wakeup).fd) ≡ false
    → (timer == wakeup) ≡ false
    → (r' : Reactor) × (construct current timer wakeup r ≡ ok r') × Built timer wakeup r'
unfolding construct
construct-Built current timer wakeup r v here t w fds names =
    let (r₁, e₁, a₁) = enable_reading-Asks current timer r v here (inl t) in
    let still_new : IsNew r₁ wakeup = waits r₁ a₁ in
    let (r₂, e₂, a₂) =
      enable_reading-Asks current wakeup r₁ a₁.inv (ground (arith, a₁)) (inl still_new) in
    (
      r₂,
      ground (arith),
      record {
        inv = a₂.inv;
        timer_entered = kept r₁ r₂ a₁ a₂;
        wakeup_entered = a₂.own;
        no_end = λ looping. destroy_loop-entered looping timer wakeup r₂ a₂.inv a₂.own;
      },
    )
  where
    same_channel :
        (r₁ : Reactor)
        → Asks (union (r.chans timer).events k_read_event) timer r r₁
        → r₁.chans wakeup ≡ r.chans wakeup
    same_channel r₁ a = a.others wakeup names

    waits :
        (r₁ : Reactor)
        → Asks (union (r.chans timer).events k_read_event) timer r r₁
        → IsNew r₁ wakeup
    waits r₁ a = record {
      unindexed = ap (λ ch. ch.pollfds_index) (same_channel r₁ a) ∙ w.unindexed;
      free =
          ap (λ ch. r₁.channels ch.fd) (same_channel r₁ a)
          ∙ a.elsewhere (r.chans wakeup).fd fds
          ∙ w.free;
      owner = ap (λ ch. ch.loop) (same_channel r₁ a) ∙ w.owner ∙ sym a.same_self;
    }

    other_fd :
        (r₁ : Reactor)
        → Asks (union (r.chans timer).events k_read_event) timer r r₁
        → ((r₁.chans wakeup).fd == (r₁.chans timer).fd) ≡ false
    other_fd r₁ a = ground (arith, a.same_fd, ap (λ ch. ch.fd) (same_channel r₁ a))

    kept :
        (r₁ r₂ : Reactor)
        → Asks (union (r.chans timer).events k_read_event) timer r r₁
        → Asks (union (r₁.chans wakeup).events k_read_event) wakeup r₁ r₂
        → IsEntered r₂ timer
    kept r₁ r₂ a b =
        ap (λ ch. r₂.channels ch.fd) (b.others timer (ground arith))
        ∙ b.elsewhere (r₁.chans timer).fd (other_fd r₁ a)
        ∙ a.own
