-- ===== src/Examples/Servers.antt =====
-- A server with two connections on the channels of the poller's examples, and what a read brings.
use penduo.Prelude.{
  ℕ, Bool-cases, sym, ◌+◌, ◌<◌, ◌≡◌, ◌⊎◌, refl, inl, inr, pos, true, false, Option, none, some,
  List, [], ◌∷◌, ◌++◌, ok, fail, assertion, undefined, arith, ◌==◌, if◌then◌else◌, length,
}
use penduo.Buffer.{received, failed, extra_size, has_nul, read_fd}
use penduo.Buffer.Laws.{read_fd_received}
use penduo.InetAddress.{zero_address, get_local_addr}
use penduo.Sockets.{eagain}
use penduo.Examples.Networks.{strokes, small_network, peer_address}
use penduo.Tcp.{
  TcpServer, TcpConnection, new_connection_object, connected, update_name, same_name, handle_close,
  connect_destoryed, handle_read, new_connection,
}
use penduo.Tcp.Establish.{ServerInv, IsOpen, Accepted, new_connection-Accepted}
use penduo.Tcp.Close.{IsClosing, Closed, handle_close-Closed}
use penduo.Tcp.Destroy.{Destroyed, connect_destoryed-Destroyed}
use penduo.Tcp.Read.{delivered, handle_read_delivers}
use penduo.Tcp.Names.{NamesUsed, eq_of_same_name}
use penduo.Examples.Poller.{two, two-Inv, one_silent, one_silent-Inv}

abbrev name_of : ℕ → List ℕ
name_of c = b'e' ∷ b'#' ∷ (if c == 0 then b'|' ∷ [] else b'|' ∷ b'|' ∷ [])

abbrev conn : ℕ → TcpConnection
conn c = record (new_connection_object (name_of c) (10 + c) c zero_address zero_address) {
  state = connected;
  connection_callback = some 4;
  message_callback = some 5;
  close_callback = some c;
}

abbrev no_names : List ℕ → Option ℕ
no_names n = none

abbrev pub echo : TcpServer
echo = record {
  reactor = two;
  conns = conn;
  name = b'e' ∷ [];
  connection_callback = some 4;
  message_callback = some 5;
  next_connect_id = 2;
  connections = update_name (update_name no_names (name_of 0) (some 0)) (name_of 1) (some 1);
  pending_functors = [];
  next_object = 2;
  calls = [];
}

abbrev pub half_closed : TcpServer
half_closed = record echo {
  reactor = one_silent;
  connections = update_name no_names (name_of 1) (some 1);
  pending_functors = [];
}

pub echo-ServerInv : ServerInv echo
echo-ServerInv = record { well_formed = two-Inv; fresh = λ fd d e. ground arith }

half_closed-ServerInv : ServerInv half_closed
half_closed-ServerInv = record { well_formed = one_silent-Inv; fresh = λ fd d e. ground arith }

pub echo-IsOpen : IsOpen echo 1
echo-IsOpen = record {
  up = refl;
  own_channel = refl;
  own_fd = refl;
  entered = refl;
  watched = refl;
  in_map = refl;
  held = refl;
  callback = 4;
  has_callback = refl;
}

half_closed-IsClosing : IsClosing half_closed 0
half_closed-IsClosing = record {
  up = refl;
  own_channel = refl;
  own_fd = refl;
  entered = refl;
  unwatched = refl;
  held = refl;
  callback = 4;
  has_callback = refl;
}

new_connection-Accepted_example :
    (s' : TcpServer) × (new_connection small_network 7 12 peer_address (echo, (2, eagain))
      ≡ ok (s', (2, eagain)))
    × Accepted small_network 12 peer_address (2, eagain) echo s'
unfolding get_local_addr
new_connection-Accepted_example =
    new_connection-Accepted small_network 7 12 4 peer_address echo (2, eagain) echo-ServerInv refl
      refl refl (inl refl)

handle_close-Closed_example : (s' : TcpServer) × (handle_close 7 1 echo ≡ ok s') × Closed 1 echo s'
handle_close-Closed_example = handle_close-Closed 7 1 echo echo-ServerInv refl echo-IsOpen

connect_destoryed-Destroyed_example :
    (s' : TcpServer) × (connect_destoryed 7 0 half_closed ≡ ok s') × Destroyed 0 half_closed s'
connect_destoryed-Destroyed_example =
    connect_destoryed-Destroyed 7 0 half_closed half_closed-ServerInv refl half_closed-IsClosing

-- The message callback takes everything.
abbrev takes_all : List ℕ → List ℕ
takes_all buffer = []

abbrev hello : List ℕ
hello = b'h' ∷ b'i' ∷ []

handle_read_delivers_example :
    (handle_read takes_all (received hello) 7 1 echo
      ≡ ok (delivered takes_all 5 1 ((echo.conns 1).input_buffer ++ hello) echo))
    × (handle_read takes_all failed 7 1 echo
        ≡ ok (delivered takes_all 5 1 (echo.conns 1).input_buffer echo))
unfolding length
handle_read_delivers_example =
    handle_read_delivers takes_all 7 1 echo 5 hello refl (omega arith) (omega arith) refl

echo-NamesUsed : NamesUsed strokes echo
unfolding strokes
echo-NamesUsed n c e = elim (Bool-cases (same_name (name_of 1) n)) [
  | inl q ↦ (2, omega arith, sym (eq_of_same_name (name_of 1) n q))
  | inr other ↦ elim (Bool-cases (same_name (name_of 0) n)) [
    | inl q ↦ (1, omega arith, sym (eq_of_same_name (name_of 0) n q))
    | inr neither ↦ absurd (ground arith)
  ]
]

read_fd_received_example :
    ((has_nul hello ≡ false)
      × (length hello < extra_size)
      × (read_fd (received hello) [] ≡ ok (pos (length hello), [] ++ hello)))
    ⊎ ((has_nul hello ≡ true) × (read_fd (received hello) [] ≡ fail assertion))
    ⊎ ((has_nul hello ≡ false)
        × (length hello ≡ extra_size)
        × (read_fd (received hello) [] ≡ fail undefined))
unfolding length
read_fd_received_example = read_fd_received hello [] (omega arith)
