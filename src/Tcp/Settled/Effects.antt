-- ===== src/Tcp/Settled/Effects.antt =====
-- What reading a connection comes to, from any time before the read to any time after it.
use penduo.Prelude.{ℕ, ◌≡◌, refl, sym, ◌∙◌, subst, Bool, true, some, List, [], ◌∷◌, ◌++◌}
use mathlib.Core.List.{append_assoc}
use penduo.Buffer.{ReadResult, received, failed}
use penduo.Tcp.{TcpServer, Call, message_called}
use penduo.Tcp.Marks.{Rebuffered}
use penduo.Tcp.Settled.{IsServed, Grown, waits}

-- The call has been made between the two lists of calls.
abbrev pub Since : (before : List Call) → Call → (after : List Call) → Type 0
Since before x after = (xs : List Call) × (ys : List Call) × (after ≡ (before ++ xs) ++ x ∷ ys)

-- The message callback of connection `c` has been called with `buffer`, and has left what it leaves.
abbrev pub Told : (leaves : List ℕ → List ℕ) (c : ℕ) → List ℕ → (s s' : TcpServer) → Type 0
Told leaves c buffer s s' =
    (s'.conns c ≡ record (s.conns c) { input_buffer = leaves buffer })
    × (k : ℕ) × ((s.conns c).message_callback ≡ some k)
    × Since s.calls (message_called k c buffer) s'.calls

-- At the end of the stream the connection's end is queued, and all but its buffer is as it was. Otherwise it is served on, and the message
-- callback is called with the text behind what was in the buffer, or with that alone after an error.
abbrev pub Effect :
    (special : ℕ → Bool) (leaves : List ℕ → List ℕ)
    → ReadResult
    → (c : ℕ) (s s' : TcpServer) → Type 0
Effect special leaves (received []) c s s' =
    (waits c s'.pending_functors ≡ true) × Rebuffered (s.conns c) (s'.conns c)
Effect special leaves (received (b ∷ bytes)) c s s' =
    IsServed special s' c × Told leaves c ((s.conns c).input_buffer ++ (b ∷ bytes)) s s'
Effect special leaves failed c s s' =
    IsServed special s' c × Told leaves c (s.conns c).input_buffer s s'

pub Since-before :
    (before between after : List Call) (x : Call)
    → Grown before between
    → Since between x after
    → Since before x after
Since-before before between after x (made, g) (xs, ys, at) =
    (made ++ xs, ys, at ∙ rw (g, append_assoc before made xs) refl)

pub Since-after :
    (before between after : List Call) (x : Call)
    → Grown between after
    → Since before x between
    → Since before x after
Since-after before between after x (made, g) (xs, ys, at) =
    (xs, ys ++ made, g ∙ rw at (append_assoc (before ++ xs) (x ∷ ys) made))

module _ (special : ℕ → Bool) (leaves : List ℕ → List ℕ) (c : ℕ) (s s₁ s' : TcpServer) where
  Told-before :
      (buffer buffer₁ : List ℕ)
      → buffer₁ ≡ buffer
      → s₁.conns c ≡ s.conns c
      → Grown s.calls s₁.calls
      → Told leaves c buffer₁ s₁ s'
      → Told leaves c buffer s s'
  Told-before buffer buffer₁ b e g (left, k, cb, since) = (
    left ∙ rw (e, b) refl,
    k,
    rw (← e) cb,
    Since-before s.calls s₁.calls s'.calls (message_called k c buffer) g
        (subst (λ x. Since s₁.calls (message_called k c x) s'.calls) b since),
  )

  pub Effect-before :
      (result : ReadResult)
      → s₁.conns c ≡ s.conns c
      → Grown s.calls s₁.calls
      → Effect special leaves result c s₁ s'
      → Effect special leaves result c s s'
  Effect-before (received []) e g h = (h.0, subst (λ x. Rebuffered x (s'.conns c)) e h.1)
  Effect-before (received (b ∷ bytes)) e g h = (h.0, Told-before _ _ (rw e refl) e g h.1)
  Effect-before failed e g h = (h.0, Told-before _ _ (rw e refl) e g h.1)

  pub Told-after :
      (buffer : List ℕ)
      → s'.conns c ≡ s₁.conns c
      → Grown s₁.calls s'.calls
      → Told leaves c buffer s s₁
      → Told leaves c buffer s s'
  Told-after buffer e g (left, k, cb, since) =
      (e ∙ left, k, cb, Since-after s.calls s₁.calls s'.calls (message_called k c buffer) g since)

  pub Effect-after :
      (result : ReadResult)
      → s'.conns c ≡ s₁.conns c
      → Grown s₁.calls s'.calls
      → (IsServed special s₁ c → IsServed special s' c)
      → (waits c s₁.pending_functors ≡ true → waits c s'.pending_functors ≡ true)
      → Effect special leaves result c s s₁
      → Effect special leaves result c s s'
  Effect-after (received []) e g still waits_on h =
      (waits_on h.0, subst (λ x. Rebuffered (s.conns c) x) (sym e) h.1)
  Effect-after (received (b ∷ bytes)) e g still waits_on h = (still h.0, Told-after _ e g h.1)
  Effect-after failed e g still waits_on h = (still h.0, Told-after _ e g h.1)
