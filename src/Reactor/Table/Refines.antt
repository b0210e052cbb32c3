-- ===== src/Reactor/Table/Refines.antt =====
-- The poller keeps its promise: whatever the table allows does not fail, and leads to what the table
-- says.
use penduo.Prelude.{
  ℕ, ◌≡◌, refl, sym, ap, subst, ◌∙◌, ◌⊎◌, inl, inr, negsuc, Bool, true, false, Option, none, some,
  List, [], ◌∷◌, ok, ◌>>=◌, arith, ◌==◌, ==_iff, update, Bool-cases, Option-cases,
}
use mathlib.Core.Option.{some-injective}
use penduo.Channel.{Events, Channel, any, k_none_event, k_read_event, union}
use penduo.Reactor.{Reactor}
use penduo.Reactor.Invariant.{Inv, not-mapped_of_negsuc}
use penduo.Reactor.Interest.{IsNew, IsEntered, Asks, enable_reading-Asks, disable_all-Asks}
use penduo.Reactor.Removal.{Removed, channel_remove-Removed}
use penduo.Reactor.Table.{
  Row, Table, Op, enable, disable, remove, act, acts, is_row_of, asked, is_free, perform, performs,
}

abbrev pub row_of : (ℕ → Channel) → Option ℕ → Option Row
row_of chans none = none
row_of chans (some c) = some (c, (chans c).events)

-- The poller is well-formed and stands for the table; a channel that is fresh there is as its
-- constructor left it.
pub record StandsFor (fds : ℕ → ℕ) (t : Table) (r : Reactor) : Type 0 where
  pub inv : Inv r
  pub same_rows : (fd : ℕ) → row_of r.chans (r.channels fd) ≡ t.rows fd
  pub numbered : (c : ℕ) → (r.chans c).fd ≡ fds c
  pub unindexed : (c : ℕ) → t.fresh c ≡ true → (r.chans c).pollfds_index ≡ negsuc 0
  pub quiet : (c : ℕ) → t.fresh c ≡ true → (r.chans c).events ≡ k_none_event
  pub owner : (c : ℕ) → t.fresh c ≡ true → (r.chans c).loop ≡ r.self

module _ (fds : ℕ → ℕ) (t : Table) (r : Reactor) (h : StandsFor fds t r) (c : ℕ) where
  row-IsEntered :
      is_row_of c (t.rows (fds c)) ≡ true
      → IsEntered r c × (asked (t.rows (fds c)) ≡ (r.chans c).events)
  row-IsEntered own = elim (Option-cases (r.channels (fds c))) [
    | inl e ↦ absurd (ground (arith, h.same_rows (fds c)))
    | inr (d, e) ↦
        let same : d ≡ c = ground (arith, h.same_rows (fds c)) in
        let row : t.rows (fds c) ≡ some (d, (r.chans d).events) =
          sym (h.same_rows (fds c)) ∙ ap (row_of r.chans) e in
        (ground (arith, h.numbered c), ap asked row ∙ ap (λ x. (r.chans x).events) same)
  ]

  row-IsNew : is_free (t.rows (fds c)) ≡ true → t.fresh c ≡ true → IsNew r c
  row-IsNew free fresh = record {
    unindexed = h.unindexed c fresh;
    free = elim (Option-cases (r.channels (fds c))) [
      | inl e ↦ ground (arith, h.numbered c)
      | inr (d, e) ↦ absurd (ground (arith, h.same_rows (fds c)))
    ];
    owner = h.owner c fresh;
  }

  entered_not_fresh : IsEntered r c → t.fresh c ≡ true → ⊥
  entered_not_fresh known fresh =
      not-mapped_of_negsuc r (r.chans c).fd c 0 h.inv (h.unindexed c fresh) known

  entered_apart : IsEntered r c → (d : ℕ) → t.fresh d ≡ true → (c == d) ≡ false
  entered_apart known d f = elim (Bool-cases (c == d)) [
    | inl same ↦
        absurd
          (entered_not_fresh known (subst (λ x. t.fresh x ≡ true) (sym ((==_iff c d).0 same)) f))
    | inr n ↦ n
  ]

  -- A channel in the poller under another descriptor is another channel.
  other_channel : (fd d : ℕ) → (fds c == fd) ≡ false → r.channels fd ≡ some d → (c == d) ≡ false
  other_channel fd d n m = let g = h.inv.mapped fd d m in ground (arith, g.own_fd, h.numbered d)

  -- What an update of the channel does to the rows.
  Asks-rows :
      (e : Events) (r' : Reactor)
      → Asks e c r r'
      → (fd : ℕ) → row_of r'.chans (r'.channels fd) ≡ update t.rows (fds c) (some (c, e)) fd
  Asks-rows e r' a fd = elim (Bool-cases (fds c == fd)) [
    | inl same ↦
        let own : r'.channels fd ≡ some c = ground (arith, a.own, a.same_fd, h.numbered c) in
        ground (arith, a.asked)
    | inr n ↦
        let kept : r'.channels fd ≡ r.channels fd = ground (arith, a.elsewhere fd, h.numbered c) in
        elim (Option-cases (r.channels fd)) [
          | inl e' ↦ ground (arith, h.same_rows fd)
          | inr (d, e') ↦ ground (arith, h.same_rows fd, a.others d (other_channel fd d n e'))
        ]
  ]

  Asks-StandsFor :
      (e : Events) (r' : Reactor) (fresh : ℕ → Bool)
      → Asks e c r r'
      → ((d : ℕ) → fresh d ≡ true → ((c == d) ≡ false) × (t.fresh d ≡ true))
      → StandsFor fds (record { rows = update t.rows (fds c) (some (c, e)); fresh = fresh }) r'
  Asks-StandsFor e r' fresh a older = record {
    inv = a.inv;
    same_rows = Asks-rows e r' a;
    numbered = λ d. elim (Bool-cases (c == d)) [
      | inl same ↦ ground (arith, a.same_fd, h.numbered c)
      | inr n ↦ ground (arith, a.others d n, h.numbered d)
    ];
    unindexed = λ d f. let (n, g) = older d f in ground (arith, a.others d n, h.unindexed d g);
    quiet = λ d f. let (n, g) = older d f in ground (arith, a.others d n, h.quiet d g);
    owner = λ d f. let (n, g) = older d f in ground (arith, a.others d n, a.same_self, h.owner d g);
  }

  Removed-StandsFor :
      (r' : Reactor)
      → IsEntered r c
      → Removed c r r'
      → StandsFor fds (record t { rows = update t.rows (fds c) none }) r'
  Removed-StandsFor r' known w = record {
    inv = w.inv;
    same_rows = λ fd. elim (Bool-cases (fds c == fd)) [
      | inl same ↦
          let gone : r'.channels fd ≡ none = ground (arith, w.gone, h.numbered c) in ground arith
      | inr n ↦
          let kept : r'.channels fd ≡ r.channels fd =
            ground (arith, w.elsewhere fd, h.numbered c) in
          elim (Option-cases (r.channels fd)) [
            | inl e' ↦ ground (arith, h.same_rows fd)
            | inr (d, e') ↦ ground (arith, h.same_rows fd, w.others d (other_channel fd d n e'))
          ]
    ];
    numbered = λ d. elim (Bool-cases (c == d)) [
      | inl same ↦ ground (arith, w.same_fd, h.numbered c)
      | inr n ↦ ground (arith, w.others d n, h.numbered d)
    ];
    unindexed = λ d f. w.unindexed d (entered_apart known d f) (h.unindexed d f);
    quiet = λ d f. ground (arith, w.others d (entered_apart known d f), h.quiet d f);
    owner = λ d f. ground (arith, w.others d (entered_apart known d f), w.same_self, h.owner d f);
  }

-- One operation.
abbrev Kept : (fds : ℕ → ℕ) (current : ℕ) → Op → Table → Reactor → Type 0
Kept fds current op t' r =
    (r' : Reactor) × (act current op r ≡ ok r') × StandsFor fds t' r' × (r'.thread_id ≡ r.thread_id)

module _ (fds : ℕ → ℕ) (current : ℕ) where
  enable-Kept :
      (c : ℕ) (t t' : Table) (r : Reactor)
      → StandsFor fds t r
      → current ≡ r.thread_id
      → perform fds (enable c) t ≡ some t'
      → Kept fds current (enable c) t' r
  enable-Kept c t t' r h here e = elim (Bool-cases (is_row_of c (t.rows (fds c)))) [
    | inl own ↦
        let (known, events) = row-IsEntered fds t r h c own in
        done (inr known) events (ground arith)
    | inr other ↦
        let (free, fresh) = allowed other in
        let new = row-IsNew fds t r h c free fresh in
        done (inl new) (ground (arith, h.quiet c fresh)) (ground arith)
  ]
    where
      allowed :
          is_row_of c (t.rows (fds c)) ≡ false
          → (is_free (t.rows (fds c)) ≡ true) × (t.fresh c ≡ true)
      allowed other = ground arith

      done :
          IsNew r c ⊎ IsEntered r c
          → asked (t.rows (fds c)) ≡ (r.chans c).events
          → t' ≡ record {
            rows = update t.rows (fds c) (some (c, union (asked (t.rows (fds c))) k_read_event));
            fresh = update t.fresh c false;
          }
          → Kept fds current (enable c) t' r
      done can events at =
          let (r', f, a) = enable_reading-Asks current c r h.inv here can in
          (
            r',
            f,
            subst (λ x. StandsFor fds x r')
                (sym (
                  at
                  ∙ ap
                      (λ x. record {
                        rows = update t.rows (fds c) (some (c, union x k_read_event));
                        fresh = update t.fresh c false;
                      })
                      events))
                (Asks-StandsFor fds t r h c _ r' (update t.fresh c false) a
                  (λ d g. (ground arith, ground arith))),
            a.same_thread,
          )

  disable-Kept :
      (c : ℕ) (t t' : Table) (r : Reactor)
      → StandsFor fds t r
      → current ≡ r.thread_id
      → perform fds (disable c) t ≡ some t'
      → Kept fds current (disable c) t' r
  disable-Kept c t t' r h here e = elim (Bool-cases (is_row_of c (t.rows (fds c)))) [
    | inl own ↦
        let (known, events) = row-IsEntered fds t r h c own in
        let (r', f, a) = disable_all-Asks current c r h.inv here known in
        let at : t' ≡ record t { rows = update t.rows (fds c) (some (c, k_none_event)) } =
          ground arith in
        (
          r',
          f,
          subst (λ x. StandsFor fds x r') (sym at)
              (Asks-StandsFor fds t r h c _ r' t.fresh a
                (λ d g. (entered_apart fds t r h c known d g, g))),
          a.same_thread,
        )
    | inr other ↦ absurd (ground arith)
  ]

  remove-Kept :
      (c : ℕ) (t t' : Table) (r : Reactor)
      → StandsFor fds t r
      → current ≡ r.thread_id
      → perform fds (remove c) t ≡ some t'
      → Kept fds current (remove c) t' r
  remove-Kept c t t' r h here e = elim (Bool-cases (is_row_of c (t.rows (fds c)))) [
    | inl own ↦
        let (known, events) = row-IsEntered fds t r h c own in
        let quiet : any (asked (t.rows (fds c))) ≡ false = ground arith in
        let (r', f, w) =
          channel_remove-Removed current c r h.inv here known (sym (ap any events) ∙ quiet) in
        let at : t' ≡ record t { rows = update t.rows (fds c) none } = ground arith in
        (
          r',
          f,
          subst (λ x. StandsFor fds x r') (sym at) (Removed-StandsFor fds t r h c r' known w),
          w.same_thread,
        )
    | inr other ↦ absurd (ground arith)
  ]

  act-Kept :
      (op : Op) (t t' : Table) (r : Reactor)
      → StandsFor fds t r
      → current ≡ r.thread_id
      → perform fds op t ≡ some t'
      → Kept fds current op t' r
  act-Kept (enable c) = enable-Kept c
  act-Kept (disable c) = disable-Kept c
  act-Kept (remove c) = remove-Kept c

-- A run of operations on channels, each enabled, silenced or removed in any order, that the table of
-- descriptors allows does not fail from a well-formed poller that stands for the table, on the poller's
-- own thread: it leads to a well-formed poller that stands for the table's result.
pub acts-refines :
    (fds : ℕ → ℕ) (current : ℕ) (ops : List Op) (t t' : Table) (r : Reactor)
    → StandsFor fds t r
    → current ≡ r.thread_id
    → performs fds ops t ≡ some t'
    → (r' : Reactor) × (acts current ops r ≡ ok r') × StandsFor fds t' r'
unfolding performs acts
acts-refines fds current [] t t' r h here e =
    (r, refl, subst (λ x. StandsFor fds x r) (some-injective t t' e) h)
acts-refines fds current (op ∷ ops) t t' r h here e = elim (Option-cases (perform fds op t)) [
  | inl refused ↦ absurd (ground (arith, refused))
  | inr (u, one) ↦
      let (s, f, h', thread) = act-Kept fds current op t u r h here one in
      let (r', g, done) =
        acts-refines fds current ops u t' s h' (here ∙ sym thread) (ground (arith, one)) in
      (r', ap (λ x. x >>= acts current ops) f ∙ g, done)
]
