-- ===== src/Examples/Addresses.antt =====
-- A host that keeps words the highest byte first, and addresses on it.
use penduo.Prelude.{
  ℕ, ◌+◌, ◌%◌, ◌≡◌, refl, ap, pos, negsuc, true, false, List, [], ◌∷◌, ◌++◌, ok, fail, fatal, arith,
}
use penduo.Endian.{
  host_to_network16, host_to_network32, host_to_network64, network_to_host16, network_to_host32,
  network_to_host64,
}
use penduo.Endian.Bytes.{IsByteOrder, big_endian, network_to_host-host_to_network}
use penduo.Examples.Networks.{big}
use penduo.InetAddress.{zero_address, new_inet_address, to_ip_port, NameCalls, get_local_addr}
use penduo.InetAddress.Text.{
  LeavesOnFailure, to_ip_port-new_inet_address, to_ip_port-get_local_addr,
}

big-IsByteOrder : IsByteOrder big
big-IsByteOrder = record {
  to16 = λ x h. ap (big_endian 2) (omega (arith, h));
  to32 = λ x h. ap (big_endian 4) (omega (arith, h));
  to64 = λ x h. ap (big_endian 8) (omega (arith, h));
  from16 = λ y. refl;
  from32 = λ y. refl;
  from64 = λ y. refl;
  small16 = λ y. omega arith;
  small32 = λ y. omega arith;
  small64 = λ y. omega arith;
}

network_to_host-host_to_network_example :
    (network_to_host16 big (host_to_network16 big 9981) ≡ 9981)
    × (network_to_host32 big (host_to_network32 big 0x7f000001) ≡ 0x7f000001)
    × (network_to_host64 big (host_to_network64 big 5) ≡ 5)
network_to_host-host_to_network_example =
    network_to_host-host_to_network big 9981 0x7f000001 5 big-IsByteOrder (omega arith)
      (omega arith) (omega arith)

-- An `inet_ntop` that shows the bytes as they are, and numbers in one digit.
abbrev bytes_shown : (family : ℕ) (bytes : List ℕ) (size : ℕ) → List ℕ
bytes_shown family bytes size = bytes

abbrev last_digit : ℕ → List ℕ
last_digit n = (48 + n % 10) ∷ []

to_ip_port-new_inet_address_example :
    to_ip_port big bytes_shown last_digit (new_inet_address big zero_address 9981 true false)
    ≡ ok (b'[' ∷ (127 ∷ 0 ∷ 0 ∷ 1 ∷ []) ++ b']' ∷ b':' ∷ last_digit 9981)
to_ip_port-new_inet_address_example =
    to_ip_port-new_inet_address big big-IsByteOrder bytes_shown last_digit zero_address 9981 true
      false (omega arith)

-- A system in which descriptors have no name.
abbrev nameless : NameCalls ℕ
nameless = record {
  getsockname = λ fd addr w. (negsuc 0, addr, w);
  getpeername = λ fd addr w. (negsuc 0, addr, w);
  acceptname = λ fd addr w. addr;
}

nameless-LeavesOnFailure : LeavesOnFailure nameless
nameless-LeavesOnFailure = record { leaves = λ fd addr w n e. refl }

to_ip_port-get_local_addr_example :
    to_ip_port big bytes_shown last_digit (get_local_addr nameless (pos 3) 0).0 ≡ fail fatal
to_ip_port-get_local_addr_example =
    to_ip_port-get_local_addr big bytes_shown last_digit nameless (pos 3) 0 0
      nameless-LeavesOnFailure refl
