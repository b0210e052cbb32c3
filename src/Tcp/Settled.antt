-- ===== src/Tcp/Settled.antt =====
-- A server between two calls of its loop: every channel in its poller is that of a connection in use, of
-- one that waits for its end, or one that the loop has for itself. `special` marks the last.
pub mod Accept
pub mod Close
pub mod Drain
pub mod Effects
pub mod Read
use penduo.Prelude.{
  ℕ, suc, ◌+◌, ◌<◌, ◌≡◌, refl, sym, subst, ◌∙◌, ◌⊎◌, inl, inr, Bool, true, false, ◌||◌, none, some,
  List, [], ◌∷◌, ◌++◌, arith, ◌==◌, ==_iff, All, Bool-cases,
}
use penduo.Channel.{k_read_event}
use penduo.Reactor.Interest.{IsEntered}
use mathlib.Core.List.{append-nil, append_assoc}
use penduo.Tcp.{TcpServer, Call}
use penduo.Tcp.Establish.{ServerInv, IsOpen, IsPlain}
use penduo.Tcp.Lifecycle.{Well}
use penduo.Tcp.Close.{IsClosing}
use penduo.Tcp.Drain.{IsDown}
use penduo.Tcp.Names.{NamesUsed}
use penduo.Tcp.Marks.{SameServer, SameServer-IsOpen, SameServer-IsClosing}

abbrev pub waits : ℕ → List ℕ → Bool
waits d [] = false
waits d (c ∷ cs) = c == d || waits d cs

-- A channel that is watched for reading and calls back its own object; that object is an open
-- connection with a message callback, unless it is special.
pub record IsServed (special : ℕ → Bool) (s : TcpServer) (d : ℕ) : Type 0 where
  pub entered : IsEntered s.reactor d
  pub watched : (s.reactor.chans d).events ≡ k_read_event
  pub plain : IsPlain d (s.reactor.chans d)
  pub is_open : special d ≡ false → IsOpen s d
  pub message : special d ≡ false → (k : ℕ) × ((s.conns d).message_callback ≡ some k)

pub record Settled (special : ℕ → Bool) (to_string : ℕ → List ℕ) (s : TcpServer) : Type 0 where
  pub well : Well s
  pub names : NamesUsed to_string s
  pub message : ℕ
  pub has_message : s.message_callback ≡ some message
  pub served :
      (fd d : ℕ)
      → s.reactor.channels fd ≡ some d
      → IsServed special s d ⊎ (waits d s.pending_functors ≡ true)

-- More calls have been made.
abbrev pub Grown : List Call → List Call → Type 0
Grown before after = (made : List Call) × (after ≡ before ++ made)

pub Grown-refl : (a : List Call) → Grown a a
Grown-refl a = ([], sym (append-nil a))

pub Grown-trans : (a b c : List Call) → Grown a b → Grown b c → Grown a c
Grown-trans a b c (xs, e) (ys, f) = (xs ++ ys, f ∙ rw e (append_assoc a xs ys))

pub waits-push_back : (c d : ℕ) (cs : List ℕ) → waits d cs ≡ true → waits d (cs ++ c ∷ []) ≡ true
waits-push_back c d [] h = ground arith
waits-push_back c d (x ∷ cs) h = ground (arith, waits-push_back c d cs)

pub waits-push_back_self : (c : ℕ) (cs : List ℕ) → waits c (cs ++ c ∷ []) ≡ true
waits-push_back_self c [] = ground arith
waits-push_back_self c (x ∷ cs) = ground (arith, waits-push_back_self c cs)

pub All-waits : (P : ℕ → Type 0) (d : ℕ) (cs : List ℕ) → waits d cs ≡ true → All P cs → P d
All-waits P d [] h all = absurd (ground arith)
All-waits P d (c ∷ cs) h all = elim (Bool-cases (c == d)) [
  | inl same ↦ subst P ((==_iff c d).0 same) all.0
  | inr other ↦ All-waits P d cs (ground arith) all.1
]

module _ (special : ℕ → Bool) (s s' : TcpServer) (m : SameServer s s') where
  pub SameServer-IsServed : (d : ℕ) → IsServed special s d → IsServed special s' d
  SameServer-IsServed d p = record {
    entered = ground (arith, p.entered, m.same_channels, m.chans d);
    watched = ground (arith, p.watched, m.chans d);
    plain = ground (arith, p.plain, m.chans d);
    is_open = λ own. SameServer-IsOpen s s' d m (p.is_open own);
    message = λ own. let (k, e) = p.message own in (k, ground (arith, m.conns d));
  }

  All-IsClosing : (cs : List ℕ) → All (IsClosing s) cs → All (IsClosing s') cs
  All-IsClosing [] h = tt
  All-IsClosing (c ∷ cs) h = (SameServer-IsClosing s s' c m h.0, All-IsClosing cs h.1)

  -- Marks, buffers and calls do not unsettle a server.
  pub SameServer-Settled :
      {to_string : ℕ → List ℕ}
      → ServerInv s'
      → Settled special to_string s
      → Settled special to_string s'
  SameServer-Settled {to_string} inv v =
      let pending : s'.pending_functors ≡ s.pending_functors = ground (arith, m.same_rest) in
      record {
        well = record {
          server_inv = inv;
          callback = v.well.callback;
          has_callback = ground (arith, m.same_rest, v.well.has_callback);
          closing = subst (All (IsClosing s')) (sym pending) (All-IsClosing _ v.well.closing);
          once = rw pending v.well.once;
        };
        names = λ n c e. ground (arith, m.same_rest, v.names n c);
        message = v.message;
        has_message = ground (arith, m.same_rest, v.has_message);
        served = λ fd d e. elim (v.served fd d (ground (arith, m.same_channels))) [
          | inl p ↦ inl (SameServer-IsServed d p)
          | inr q ↦ inr (rw pending q)
        ];
      }
