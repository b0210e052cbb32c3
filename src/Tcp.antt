-- ===== src/Tcp.antt =====
-- net/TcpConnection.h, net/TcpConnection.cpp, net/TcpServer.h and net/TcpServer.cpp, over the
-- reactor of the server's loop. A connection and its channel are objects in stores, under one
-- number. The user's callbacks only record that they were called, and `leaves` says what the message
-- callback leaves of the buffer.
pub mod Establish
pub mod Close
pub mod Destroy
pub mod Drain
pub mod Lifecycle
pub mod Read
pub mod Marks
pub mod Settled
pub mod Names
pub mod Report
use penduo.Prelude.{
  ℕ, suc, ◌+◌, ◌-◌, ◌^◌, ltb, ℤ, pos, negsuc, Bool, true, false, ◌&&◌, Option, none, some, List, [],
  ◌∷◌, ◌++◌, Outcome, ok, fail, bad_function, ◌>>=◌, ◌>>◌, assert, require, ◌==◌, if◌then◌else◌,
  update,
}
use penduo.Channel.{Channel, new_channel}
use penduo.Reactor
use penduo.Reactor.{Reactor, is_some, set_chan}
use penduo.Buffer.{ReadResult, read_fd}
use penduo.InetAddress.{InetAddress}
use penduo.Sockets.Ops.{Network, sockets_of}

pub data StateE : Type 0 where
  connecting connected dis_connected : StateE

abbrev pub is_connecting : StateE → Bool
is_connecting connecting = true
is_connecting _ = false

abbrev pub is_connected : StateE → Bool
is_connected connected = true
is_connected _ = false

pub record TcpConnection : Type 0 where
  pub name : List ℕ
  pub state : StateE
  pub socket_fd : ℕ
  pub channel : ℕ
  pub local_addr : InetAddress
  pub peer_addr : InetAddress
  pub connection_callback : Option ℕ
  pub close_callback : Option ℕ
  pub message_callback : Option ℕ
  pub input_buffer : List ℕ

-- What the user's callbacks see.
pub data Call : Type 0 where
  connection_called : (callback conn : ℕ) → StateE → Call
  message_called : (callback conn : ℕ) → List ℕ → Call

-- The server, its loop's reactor, the objects, the functors that wait in the loop's queue (each is
-- `connect_destoryed` of a connection), and the calls made so far.
pub record TcpServer : Type 0 where
  pub reactor : Reactor
  pub conns : ℕ → TcpConnection
  pub name : List ℕ
  pub connection_callback : Option ℕ
  pub message_callback : Option ℕ
  pub next_connect_id : ℕ
  pub connections : List ℕ → Option ℕ
  pub pending_functors : List ℕ
  pub next_object : ℕ
  pub calls : List Call

-- `TcpServer::set_connection_callback`
abbrev pub set_connection_callback : ℕ → TcpServer → TcpServer
set_connection_callback cb s = record s { connection_callback = some cb }

-- `TcpServer::set_message_callback`
abbrev pub set_message_callback : ℕ → TcpServer → TcpServer
set_message_callback cb s = record s { message_callback = some cb }

abbrev pub same_name : List ℕ → List ℕ → Bool
same_name [] [] = true
same_name (a ∷ as') (b ∷ bs) = a == b && same_name as' bs
same_name _ _ = false

abbrev pub update_name : (List ℕ → Option ℕ) → List ℕ → Option ℕ → List ℕ → Option ℕ
update_name m k v j = if same_name k j then v else m j

abbrev pub assert_in_loop_thread : ℕ → TcpServer → Outcome (Unit {0})
assert_in_loop_thread current s = require (current == s.reactor.thread_id)

-- A call of the reactor.
abbrev pub on_reactor : (Reactor → Outcome Reactor) → TcpServer → Outcome TcpServer
on_reactor f s = f s.reactor >>= λ r. ok (record s { reactor = r })

abbrev pub set_state : ℕ → StateE → TcpServer → TcpServer
set_state c state s = record s { conns = update s.conns c (record (s.conns c) { state = state }) }

-- `connection_callback_(shared_from_this())`
abbrev pub call_connection : Option ℕ → ℕ → TcpServer → Outcome TcpServer
call_connection none c s = fail bad_function
call_connection (some k) c s =
    ok (record s { calls = s.calls ++ connection_called k c (s.conns c).state ∷ [] })

-- `TcpConnection::TcpConnection`, with its socket and channel.
abbrev pub new_connection_object :
    (name : List ℕ) (socket_fd c : ℕ) (local_addr peer_addr : InetAddress) → TcpConnection
new_connection_object name socket_fd c local_addr peer_addr = record {
  name = name;
  state = connecting;
  socket_fd = socket_fd;
  channel = c;
  local_addr = local_addr;
  peer_addr = peer_addr;
  connection_callback = none;
  close_callback = none;
  message_callback = none;
  input_buffer = [];
}

unfoldable pub connect_establish : ℕ → ℕ → TcpServer → Outcome TcpServer
connect_establish current c s = do
  assert_in_loop_thread current s
  assert (is_connecting (s.conns c).state)
  let s₁ = set_state c connected s
  assert (is_connected (s₁.conns c).state)
  s₂ ← on_reactor (Reactor.enable_reading current (s₁.conns c).channel) s₁
  call_connection (s₂.conns c).connection_callback c s₂

unfoldable pub connect_destoryed : ℕ → ℕ → TcpServer → Outcome TcpServer
connect_destoryed current c s = do
  assert_in_loop_thread current s
  assert (is_connected (s.conns c).state)
  let s₁ = set_state c dis_connected s
  s₂ ← on_reactor (Reactor.disable_all current (s₁.conns c).channel) s₁
  s₃ ← call_connection (s₂.conns c).connection_callback c s₂
  on_reactor (Reactor.channel_remove current (s₃.conns c).channel) s₃

-- `TcpServer::remove_connection`; the functor is queued from the loop's own thread.
unfoldable pub remove_connection : ℕ → ℕ → TcpServer → Outcome TcpServer
remove_connection current c s = do
  assert_in_loop_thread current s
  assert (is_some (s.connections (s.conns c).name))
  ok (record s {
    connections = update_name s.connections (s.conns c).name none;
    pending_functors = s.pending_functors ++ c ∷ [];
  })

abbrev pub call_close : Option ℕ → ℕ → TcpServer → Outcome TcpServer
call_close none current s = ok s
call_close (some c) current s = remove_connection current c s

unfoldable pub handle_close : ℕ → ℕ → TcpServer → Outcome TcpServer
handle_close current c s = do
  assert_in_loop_thread current s
  assert (is_connected (s.conns c).state)
  s₁ ← on_reactor (Reactor.disable_all current (s.conns c).channel) s
  call_close (s₁.conns c).close_callback current s₁

-- `size_t n = ...`, from the signed result
abbrev pub to_size_t : ℤ → ℕ
to_size_t (pos n) = n
to_size_t (negsuc n) = 2 ^ 64 - 1 - n

abbrev pub set_buffer : ℕ → List ℕ → TcpServer → TcpServer
set_buffer c buffer s = record s {
  conns = update s.conns c (record (s.conns c) { input_buffer = buffer });
}

-- `message_callback_(shared_from_this(), &input_buffer_, receive_time)`
abbrev pub call_message : (List ℕ → List ℕ) → Option ℕ → ℕ → TcpServer → Outcome TcpServer
call_message leaves none c s = fail bad_function
call_message leaves (some k) c s =
    let buffer = (s.conns c).input_buffer in
    ok (
      set_buffer c (leaves buffer) (record s { calls = s.calls ++ message_called k c buffer ∷ [] }))

-- `TcpConnection::handle_read`. The third branch, `handle_error`, only logs.
unfoldable pub handle_read : (List ℕ → List ℕ) → ReadResult → ℕ → ℕ → TcpServer → Outcome TcpServer
handle_read leaves result current c s = read_fd result (s.conns c).input_buffer >>= λ (ret, buffer).
    let n = to_size_t ret in
    let s₁ = set_buffer c buffer s in
    if ltb 0 n
    then call_message leaves (s₁.conns c).message_callback c s₁
    else if n == 0
    then handle_close current c s₁
    else ok s₁

-- The name of the next connection; `to_string` is the library's.
abbrev pub next_name : (ℕ → List ℕ) → TcpServer → List ℕ
next_name to_string s = s.name ++ b'#' ∷ to_string (s.next_connect_id + 1)

-- The objects that `TcpServer::new_connection` makes, before `connect_establish`.
unfoldable pub made :
    (to_string : ℕ → List ℕ) (socket_fd : ℕ) (local_addr peer_addr : InetAddress)
    → TcpServer
    → TcpServer
made to_string socket_fd local_addr peer_addr s =
    let c = s.next_object in
    let name = next_name to_string s in
    let conn = record (new_connection_object name socket_fd c local_addr peer_addr) {
      connection_callback = s.connection_callback;
      message_callback = s.message_callback;
      close_callback = some c;
    } in
    let chan = record (new_channel s.reactor.self socket_fd) { read_callback = some c } in
    record s {
      next_connect_id = s.next_connect_id + 1;
      next_object = suc c;
      conns = update s.conns c conn;
      reactor = set_chan s.reactor c chan;
      connections = update_name s.connections name (some c);
    }

-- The line that is logged has the peer's address in it, whose text may end the process.
unfoldable pub new_connection :
    (net : Network) (current socket_fd : ℕ) (peer_addr : InetAddress)
    → TcpServer × net.W
    → Outcome (TcpServer × net.W)
new_connection net current socket_fd peer_addr (s, w) = do
  assert_in_loop_thread current s
  text ← (sockets_of net).to_ip_port peer_addr
  let (local_addr, w') = (sockets_of net).get_local_addr (pos socket_fd) w
  let s₁ = made net.to_string socket_fd local_addr peer_addr s
  s₂ ← connect_establish current s.next_object s₁
  ok (s₂, w')

-- The part of `do_pending_functors` that runs the functors.
unfoldable pub run_functors : ℕ → List ℕ → TcpServer → Outcome TcpServer
run_functors current [] s = ok s
run_functors current (c ∷ cs) s = connect_destoryed current c s >>= run_functors current cs

unfoldable pub do_pending_functors : ℕ → TcpServer → Outcome TcpServer
unfolding run_functors
do_pending_functors current s = do
  assert_in_loop_thread current s
  run_functors current s.pending_functors (record s { pending_functors = [] })
