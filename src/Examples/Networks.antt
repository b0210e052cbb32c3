-- ===== src/Examples/Networks.antt =====
-- A network over the small system, in which every address that a system call stores is one of IPv4.
use penduo.Prelude.{ℕ, zero, suc, ◌≡◌, refl, arith, ◌%◌, ◌^◌, ◌*◌, ◌+◌, ◌/◌, pos, List, [], ◌∷◌}
use penduo.Endian.{ByteOrder}
use penduo.Endian.Bytes.{big_endian}
use penduo.InetAddress.{InetAddress, NameCalls, zero_address}
use penduo.Sockets.{System, af_inet}
use penduo.Sockets.Ops.{Network}
use penduo.Examples.Threads.{small_system}

-- A text for a number: as many strokes.
unfoldable pub strokes : ℕ → List ℕ
strokes zero = []
strokes (suc n) = b'|' ∷ strokes n

pub strokes-injective : (i j : ℕ) → strokes i ≡ strokes j → i ≡ j
unfolding strokes
strokes-injective zero zero e = refl
strokes-injective zero (suc j) e = ground arith
strokes-injective (suc i) zero e = ground arith
strokes-injective (suc i) (suc j) e = ground (arith, strokes-injective i j)

-- A host that keeps words the highest byte first.
abbrev pub big : ByteOrder
big = record {
  memory = λ width word. big_endian width (word % 256 ^ width);
  htole16 = λ x. x % 256 * 256 + x / 256;
  htole32 = λ x. x;
  htole64 = λ x. x;
  le16toh = λ x. x % 256 * 256 + x / 256;
  le32toh = λ x. x;
  le64toh = λ x. x;
  htobe16 = λ x. x;
  htobe32 = λ x. x;
  htobe64 = λ x. x;
  be16toh = λ y. y % 256 ^ 2;
  be32toh = λ y. y % 256 ^ 4;
  be64toh = λ y. y % 256 ^ 8;
}

abbrev pub peer_address : InetAddress
peer_address = record zero_address { family = af_inet; port = 9981; word = 0x0a000001 }

abbrev pub named_calls : (sys : System) → NameCalls sys.W
named_calls sys = record {
  getsockname = λ fd addr w. (pos 0, peer_address, w);
  getpeername = λ fd addr w. (pos 0, peer_address, w);
  acceptname = λ fd addr w. peer_address;
}

abbrev pub network_of : System → Network
network_of sys = record {
  sys = sys;
  calls = named_calls sys;
  order = big;
  inet_ntop = λ family bytes size. bytes;
  to_string = strokes;
  storage = zero_address;
}

abbrev pub small_network : Network
small_network = network_of small_system
