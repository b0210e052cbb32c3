-- ===== src/Tcp/Read.antt =====
-- `TcpConnection::handle_read` on each result of the read.
use penduo.Prelude.{
  ℕ, ◌<◌, ◌≡◌, refl, ◌∙◌, ℤ, pos, negsuc, false, some, List, [], ◌∷◌, ◌++◌, ok, arith, ==-refl,
  length,
}
use penduo.Buffer.{ReadResult, received, failed, extra_size, has_nul, read_fd}
use penduo.Buffer.Laws.{read_fd_text}
use penduo.Tcp.{TcpServer, message_called, set_buffer, to_size_t, handle_close, handle_read}
use penduo.Tcp.Establish.{ServerInv, IsOpen}
use penduo.Tcp.Close.{Closed, handle_close-Closed}

-- The message callback is called with `buffer`, and leaves `leaves buffer`.
abbrev pub delivered : (List ℕ → List ℕ) → ℕ → ℕ → List ℕ → TcpServer → TcpServer
delivered leaves k c buffer s =
    let s₁ = set_buffer c buffer s in
    set_buffer c (leaves buffer) (record s₁ { calls = s.calls ++ message_called k c buffer ∷ [] })

module _ (leaves : List ℕ → List ℕ) (current c : ℕ) (s : TcpServer) where
  handle_read-delivered :
      (result : ReadResult) (k : ℕ) (ret : ℤ) (buffer : List ℕ)
      → (s.conns c).message_callback ≡ some k
      → read_fd result (s.conns c).input_buffer ≡ ok (ret, buffer)
      → 0 < to_size_t ret
      → handle_read leaves result current c s ≡ ok (delivered leaves k c buffer s)
  unfolding handle_read
  handle_read-delivered result k ret buffer cb e positive = rw (==-refl c) (ground arith)

  handle_read-closed :
      (buffer : List ℕ)
      → read_fd (received []) (s.conns c).input_buffer ≡ ok (pos 0, buffer)
      → handle_read leaves (received []) current c s
        ≡ handle_close current c (set_buffer c buffer s)
  unfolding handle_read
  handle_read-closed buffer e = ground arith

  read_failed : read_fd failed (s.conns c).input_buffer ≡ ok (negsuc 0, (s.conns c).input_buffer)
  unfolding read_fd
  read_failed = refl

  pub handle_read_text :
      (k : ℕ) (bytes : List ℕ)
      → (s.conns c).message_callback ≡ some k
      → 0 < length bytes
      → length bytes < extra_size
      → has_nul bytes ≡ false
      → handle_read leaves (received bytes) current c s
        ≡ ok (delivered leaves k c ((s.conns c).input_buffer ++ bytes) s)
  handle_read_text k bytes cb some_bytes short text =
      handle_read-delivered (received bytes) k (pos (length bytes))
        ((s.conns c).input_buffer ++ bytes) cb
        (read_fd_text bytes (s.conns c).input_buffer short text) some_bytes

  pub handle_read_failed :
      (k : ℕ)
      → (s.conns c).message_callback ≡ some k
      → handle_read leaves failed current c s ≡ ok (delivered leaves k c (s.conns c).input_buffer s)
  handle_read_failed k cb =
      handle_read-delivered failed k (negsuc 0) (s.conns c).input_buffer cb read_failed
        (omega arith)

  -- With a message callback: a read that brings some text without NUL, shorter than the array, makes
  -- one call of it, with the text behind what the buffer held; a read that fails makes one too, with
  -- the old buffer.
  pub handle_read_delivers :
      (k : ℕ) (bytes : List ℕ)
      → (s.conns c).message_callback ≡ some k
      → 0 < length bytes
      → length bytes < extra_size
      → has_nul bytes ≡ false
      → (handle_read leaves (received bytes) current c s
          ≡ ok (delivered leaves k c ((s.conns c).input_buffer ++ bytes) s))
        × (handle_read leaves failed current c s
            ≡ ok (delivered leaves k c (s.conns c).input_buffer s))
  handle_read_delivers k bytes cb some_bytes short text =
      (handle_read_text k bytes cb some_bytes short text, handle_read_failed k cb)

  -- A read that returns 0 closes an open connection: its name leaves the map, its channel asks for no
  -- more events, and its `connect_destoryed` is queued once.
  pub handle_read_closes :
      ServerInv s
      → current ≡ s.reactor.thread_id
      → IsOpen s c
      → (s' : TcpServer) × (handle_read leaves (received []) current c s ≡ ok s')
        × Closed c (set_buffer c ((s.conns c).input_buffer ++ []) s) s'
  handle_read_closes v here o =
      let buffer : List ℕ = (s.conns c).input_buffer ++ [] in
      let s₁ = set_buffer c buffer s in
      let (s', e, w) =
        handle_close-Closed current c s₁ (record { well_formed = v.well_formed; fresh = v.fresh })
          here still_open in
      (
        s',
        handle_read-closed buffer (read_fd_text [] (s.conns c).input_buffer (omega arith) refl) ∙ e,
        w,
      )
    where
      still_open : IsOpen (set_buffer c ((s.conns c).input_buffer ++ []) s) c
      still_open = record {
        up = ground (arith, o);
        own_channel = ground (arith, o);
        own_fd = ground (arith, o);
        entered = o.entered;
        watched = o.watched;
        in_map = ground (arith, o);
        held = ground (arith, o);
        callback = o.callback;
        has_callback = ground (arith, o);
      }
