-- ===== src/Examples/Lifecycles.antt =====
-- The half-closed server of the examples, whose connection 0 waits in the queue.
use penduo.Prelude.{◌≡◌, refl, arith, [], ◌∷◌, ok}
use penduo.Tcp.{TcpServer, do_pending_functors}
use penduo.Tcp.Establish.{ServerInv, IsOpen}
use penduo.Tcp.Close.{IsClosing}
use penduo.Tcp.Drain.{Drained, do_pending_functors-Drained}
use penduo.Tcp.Lifecycle.{hang_up, serve, Well, serve-Well}
use penduo.Examples.Poller.{one_silent-Inv}
use penduo.Examples.Servers.{half_closed}
use penduo.Examples.Networks.{small_network}
use penduo.Sockets.{eagain}

abbrev waiting : TcpServer
waiting = record half_closed { pending_functors = 0 ∷ [] }

waiting-ServerInv : ServerInv waiting
waiting-ServerInv = record { well_formed = one_silent-Inv; fresh = λ fd d e. ground arith }

waiting-IsClosing : IsClosing waiting 0
waiting-IsClosing = record {
  up = refl;
  own_channel = refl;
  own_fd = refl;
  entered = refl;
  unwatched = refl;
  held = refl;
  callback = 4;
  has_callback = refl;
}

waiting-Well : Well waiting
waiting-Well = record {
  server_inv = waiting-ServerInv;
  callback = 4;
  has_callback = refl;
  closing = (waiting-IsClosing, tt);
  once = (tt, tt);
}

do_pending_functors-Drained_example :
    (s' : TcpServer) × (do_pending_functors 7 waiting ≡ ok s')
    × Drained (0 ∷ []) (record waiting { pending_functors = [] }) s'
do_pending_functors-Drained_example =
    do_pending_functors-Drained 7 waiting waiting-ServerInv refl (waiting-IsClosing, tt) (tt, tt)

waiting-IsOpen : IsOpen waiting 1
waiting-IsOpen = record {
  up = refl;
  own_channel = refl;
  own_fd = refl;
  entered = refl;
  watched = refl;
  in_map = refl;
  held = refl;
  callback = 4;
  has_callback = refl;
}

serve-Well_example :
    (s' : TcpServer) × (w' : small_network.W) × (serve small_network 7
        (hang_up 1)
        (waiting, (2, eagain))
      ≡ ok (s', w'))
    × Well s'
serve-Well_example =
    serve-Well small_network 7 (hang_up 1) waiting (2, eagain) waiting-Well refl waiting-IsOpen
