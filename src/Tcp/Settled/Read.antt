-- ===== src/Tcp/Settled/Read.antt =====
-- A settled server stays so when a connection that it serves is read.
use penduo.Prelude.{
  ℕ, ◌<◌, ◌≡◌, refl, sym, subst, ◌∙◌, inl, inr, Bool, true, false, some, List, [], ◌∷◌, ok, arith,
  ◌==◌, Bool-cases, ==_iff, length,
}
use mathlib.Core.List.{append-nil}
use penduo.Buffer.{ReadResult, received, failed, extra_size, has_nul}
use penduo.Tcp.{TcpServer, message_called, set_buffer, handle_read}
use penduo.Tcp.Establish.{ServerInv, IsPlain}
use penduo.Tcp.Close.{Closed}
use penduo.Tcp.Read.{delivered, handle_read_text, handle_read_failed, handle_read_closes}
use penduo.Tcp.Marks.{set_buffer-SameServer, delivered-SameServer}
use penduo.Tcp.Settled.Effects.{Told, Effect}
use penduo.Tcp.Settled.{
  IsServed, Settled, Grown, waits, waits-push_back, waits-push_back_self, SameServer-IsServed,
  SameServer-Settled,
}
use penduo.Tcp.Settled.Close.{Closed-IsServed, Closed-Settled}

-- What a read may bring: nothing or a text without NUL, shorter than the array, or an error.
abbrev pub IsText : ReadResult → Type 0
IsText failed = Unit {0}
IsText (received bytes) = (has_nul bytes ≡ false) × (length bytes < extra_size)

-- The server is settled after the read of connection `c`, serves what else it served, and leaves the
-- other connections alone.
pub record ReadOn (special : ℕ → Bool) (to_string : ℕ → List ℕ) (leaves : List ℕ → List ℕ)
    (result : ReadResult) (c : ℕ) (s s' : TcpServer) : Type 0 where
  pub settled : Settled special to_string s'
  pub plain : IsPlain c (s'.reactor.chans c)
  pub others : (d : ℕ) → (c == d) ≡ false → IsServed special s d → IsServed special s' d
  pub other_conns : (d : ℕ) → (c == d) ≡ false → s'.conns d ≡ s.conns d
  pub still_waits : (d : ℕ) → waits d s.pending_functors ≡ true → waits d s'.pending_functors ≡ true
  pub grown : Grown s.calls s'.calls
  pub other_revents :
      (d : ℕ) → (c == d) ≡ false → (s'.reactor.chans d).revents ≡ (s.reactor.chans d).revents
  pub effect : Effect special leaves result c s s'
  pub same_next : s'.next_object ≡ s.next_object
  pub same_thread : s'.reactor.thread_id ≡ s.reactor.thread_id
  pub same_channels : (fd : ℕ) → s'.reactor.channels fd ≡ s.reactor.channels fd

module _ (special : ℕ → Bool) (to_string : ℕ → List ℕ) (leaves : List ℕ → List ℕ) (current c : ℕ)
    (s : TcpServer) (v : Settled special to_string s) (here : current ≡ s.reactor.thread_id)
    (p : IsServed special s c) (common : special c ≡ false) where
  buffered_inv : (buffer : List ℕ) → ServerInv (set_buffer c buffer s)
  buffered_inv buffer = record {
    well_formed = v.well.server_inv.well_formed;
    fresh = v.well.server_inv.fresh;
  }

  delivered-ReadOn :
      (result : ReadResult) (k : ℕ) (buffer : List ℕ)
      → Effect special leaves result c s (delivered leaves k c buffer s)
      → ReadOn special to_string leaves result c s (delivered leaves k c buffer s)
  delivered-ReadOn result k buffer effect =
      let s' = delivered leaves k c buffer s in
      let m = delivered-SameServer leaves k c buffer s in
      record {
        settled =
            SameServer-Settled special s s' m
              (record {
                well_formed = v.well.server_inv.well_formed;
                fresh = v.well.server_inv.fresh;
              })
              v;
        plain = p.plain;
        others = λ d n. SameServer-IsServed special s s' m d;
        other_conns = λ d n. ground arith;
        still_waits = λ d h. h;
        grown = (message_called k c buffer ∷ [], refl);
        other_revents = λ d n. refl;
        effect = effect;
        same_next = refl;
        same_thread = refl;
        same_channels = λ fd. refl;
      }

  delivered-Told :
      (k : ℕ) (buffer : List ℕ)
      → (s.conns c).message_callback ≡ some k
      → IsServed special (delivered leaves k c buffer s) c
        × Told leaves c buffer s (delivered leaves k c buffer s)
  delivered-Told k buffer cb = (
    SameServer-IsServed special s _ (delivered-SameServer leaves k c buffer s) c p,
    (ground arith, k, cb, ([], [], rw (append-nil s.calls) refl)),
  )

  -- The descriptor of the connection stays in the poller.
  own_fd :
      (buffer : List ℕ) (s' : TcpServer)
      → Closed c (set_buffer c buffer s) s'
      → s'.reactor.channels (s.reactor.chans c).fd ≡ s.reactor.channels (s.reactor.chans c).fd
  own_fd buffer s' k = ground (
    arith,
    k.is_closing.entered,
    k.is_closing.own_fd,
    k.same_conns,
    p.entered,
    (p.is_open common).own_fd,
  )

  Closed-ReadOn :
      (buffer : List ℕ) (s' : TcpServer)
      → Closed c (set_buffer c buffer s) s'
      → ReadOn special to_string leaves (received []) c s s'
  Closed-ReadOn buffer s' k =
      let s₁ = set_buffer c buffer s in
      let m = set_buffer-SameServer c buffer s in
      let v₁ = SameServer-Settled special s s₁ m (buffered_inv buffer) v in
      let o = (SameServer-IsServed special s s₁ m c p).is_open common in
      record {
        settled = Closed-Settled special to_string c s₁ s' v₁ o k;
        plain = k.same_callbacks c p.plain;
        others = λ d n q.
            Closed-IsServed special to_string c s₁ s' v₁ o k d n
              (SameServer-IsServed special s s₁ m d q);
        other_conns = λ d n. ground (arith, k.same_conns);
        still_waits = λ d h. rw k.queued (waits-push_back c d s.pending_functors h);
        grown = ([], k.same_calls ∙ sym (append-nil s.calls));
        other_revents = λ d n. ground (arith, k.other_chans d n);
        same_next = ground (arith, k.same_rest);
        effect =
            (rw k.queued (waits-push_back_self c s.pending_functors), ground (arith, k.same_conns));
        same_thread = k.same_thread;
        same_channels = λ fd. elim (Bool-cases ((s.reactor.chans c).fd == fd)) [
          | inl same ↦
              subst (λ g. s'.reactor.channels g ≡ s.reactor.channels g)
                ((==_iff (s.reactor.chans c).fd fd).0 same) (own_fd buffer s' k)
          | inr other ↦ k.other_fds fd other
        ];
      }

  -- Where the read brings a text or fails, `handle_read` of a connection that is served never fails.
  pub handle_read-ReadOn :
      (result : ReadResult)
      → IsText result
      → (s' : TcpServer) × (handle_read leaves result current c s ≡ ok s')
        × ReadOn special to_string leaves result c s s'
  handle_read-ReadOn failed h =
      let (k, cb) = p.message common in
      (
        _,
        handle_read_failed leaves current c s k cb,
        delivered-ReadOn failed k _ (delivered-Told k _ cb),
      )
  handle_read-ReadOn (received []) h =
      let (s', e, k) =
        handle_read_closes leaves current c s v.well.server_inv here (p.is_open common) in
      (s', e, Closed-ReadOn _ s' k)
  handle_read-ReadOn (received (b ∷ bytes)) h =
      let (k, cb) = p.message common in
      (
        _,
        handle_read_text leaves current c s k (b ∷ bytes) cb (omega arith) h.1 h.0,
        delivered-ReadOn (received (b ∷ bytes)) k _ (delivered-Told k _ cb),
      )
