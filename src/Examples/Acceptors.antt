-- ===== src/Examples/Acceptors.antt =====
-- The server of the examples with an acceptor, whose channel is number 2.
use penduo.Prelude.{ℕ, ◌<◌, ◌≡◌, refl, inl, pos, false, some, ok, arith}
use penduo.Reactor.Interest.{IsNew}
use penduo.Sockets.{System, eagain, af_inet}
use penduo.Tcp.{TcpServer, new_connection}
use penduo.Tcp.Establish.{ServerInv}
use penduo.Acceptor.{Acceptor, Serving, new_server}
use penduo.InetAddress.{InetAddress, zero_address}
use penduo.Sockets.Ops.{Network}
use penduo.Acceptor.Serve.{Fresh, Serves, new_server-Serves}
use penduo.Examples.Poller.{two, two-Inv}
use penduo.Examples.Servers.{echo}
use penduo.Examples.Networks.{network_of}
use penduo.Examples.Threads.{small_system}

-- A system in which descriptor 13 is there to be accepted.
abbrev busy_system : System
busy_system = record small_system { accept = λ fd w. (pos 13, w) }

abbrev pub busy_network : Network
busy_network = network_of busy_system

abbrev echo_three : TcpServer
echo_three = record echo { next_object = 3 }

abbrev pub door : (net : Network) → Acceptor net.W
door net = record {
  socket_fd = 12;
  accept_channel = 2;
  listening = false;
  new_connection_callback = some (new_connection net 7);
}

abbrev pub serving : (net : Network) → net.W → Serving net
serving net w = record { acceptor = door net; server = echo_three; started = false; system = w }

echo_three-ServerInv : ServerInv echo_three
echo_three-ServerInv = record { well_formed = two-Inv; fresh = λ fd d e. ground arith }

door-IsNew : IsNew two 2
door-IsNew = record { unindexed = refl; free = refl; owner = refl }

-- The address of a server on any interface.
abbrev any_address : InetAddress
any_address = record zero_address { family = af_inet }

two-known : (g d : ℕ) → two.channels g ≡ some d → d < 2
two-known g d e = ground arith

new_server-Serves_example :
    (s : Serving busy_network) × (new_server busy_network 7 any_address echo.name two echo.conns 2
        (2, eagain)
      ≡ ok s)
    × Fresh busy_network 7 echo.name two echo.conns 2 3 s
    × Serves busy_network 7 4 6 13 s
new_server-Serves_example =
    new_server-Serves busy_network 7 any_address echo.name two echo.conns 2 3 (2, eagain) two-Inv
      two-known (inl refl) refl (λ size w. (0, refl)) refl 4 6 0 13 refl refl (λ w. refl)
      (λ w. inl refl) refl refl
