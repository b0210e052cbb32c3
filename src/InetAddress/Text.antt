-- ===== src/InetAddress/Text.antt =====
-- The text of an address.
use mathlib.Core.List.{reverse}
use penduo.Prelude.{
  ℕ, ◌^◌, ◌<◌, ◌≡◌, refl, ◌⊎◌, inl, inr, ℤ, negsuc, Bool, true, false, List, [], ◌∷◌, ◌++◌, ok,
  fail, fatal, if◌then◌else◌, arith,
}
use penduo.Endian.{ByteOrder, network_to_host16, host_to_network16}
use penduo.Endian.Bytes.{IsByteOrder, little_endian, network_to_host-host_to_network}
use penduo.Sockets.{af_inet, af_inet6}
use penduo.InetAddress.{
  InetAddress, in6addr_any, in6addr_loopback, inaddr_any, inaddr_loopback, zero_address,
  new_inet_address, to_ip_port, with_port, NameCalls, get_local_addr,
}

-- The bytes of the address that the constructor stands for.
abbrev pub ip_bytes : (loopback_only ipv6 : Bool) → List ℕ
ip_bytes true true = in6addr_loopback
ip_bytes false true = in6addr_any
ip_bytes true false = 127 ∷ 0 ∷ 0 ∷ 1 ∷ []
ip_bytes false false = 0 ∷ 0 ∷ 0 ∷ 0 ∷ []

abbrev pub family_of : Bool → ℕ
family_of ipv6 = if ipv6 then af_inet6 else af_inet

module _ (order : ByteOrder) (k : IsByteOrder order)
    (inet_ntop : (family : ℕ) (bytes : List ℕ) (size : ℕ) → List ℕ) (to_string : ℕ → List ℕ) where
  port_back :
      (port : ℕ) → port < 2 ^ 16 → network_to_host16 order (host_to_network16 order port) ≡ port
  port_back port h =
      (network_to_host-host_to_network order port 0 0 k h (omega arith) (omega arith)).0

  memory_loopback : order.memory 4 (order.htobe32 inaddr_loopback) ≡ 127 ∷ 0 ∷ 0 ∷ 1 ∷ []
  unfolding little_endian reverse
  memory_loopback = k.to32 inaddr_loopback (omega arith)

  memory_any : order.memory 4 (order.htobe32 inaddr_any) ≡ 0 ∷ 0 ∷ 0 ∷ 0 ∷ []
  unfolding little_endian reverse
  memory_any = k.to32 inaddr_any (omega arith)

  -- Over macros of `endian.h` that do what their manual says, the text of an address that is made from a
  -- 16-bit port is `[ip]:port`: the port is that number, and the ip is what `inet_ntop` makes of the
  -- address's bytes in the order of the network, for both families, loopback or not.
  pub to_ip_port-new_inet_address :
      (storage : InetAddress) (port : ℕ) (loopback_only ipv6 : Bool)
      → port < 2 ^ 16
      → to_ip_port order inet_ntop to_string
          (new_inet_address order storage port loopback_only ipv6)
        ≡ ok (
            b'[' ∷ inet_ntop (family_of ipv6) (ip_bytes loopback_only ipv6) 64
            ++ b']' ∷ b':' ∷ to_string port)
  unfolding to_ip_port new_inet_address
  to_ip_port-new_inet_address storage port true true h = rw (port_back port h) refl
  to_ip_port-new_inet_address storage port false true h = rw (port_back port h) refl
  to_ip_port-new_inet_address storage port true false h =
      rw (port_back port h, memory_loopback) refl
  to_ip_port-new_inet_address storage port false false h = rw (port_back port h, memory_any) refl

-- An address of one of the two families.
abbrev pub HasFamily : InetAddress → Type 0
HasFamily addr = (addr.family ≡ af_inet) ⊎ (addr.family ≡ af_inet6)

pub to_ip_port_total :
    (order : ByteOrder) (inet_ntop : (family : ℕ) (bytes : List ℕ) (size : ℕ) → List ℕ)
    (to_string : ℕ → List ℕ) (addr : InetAddress)
    → HasFamily addr
    → (text : List ℕ) × (to_ip_port order inet_ntop to_string addr ≡ ok text)
unfolding to_ip_port
to_ip_port_total order inet_ntop to_string addr (inl e) = (
  with_port order inet_ntop to_string addr (inet_ntop af_inet (order.memory 4 addr.word) 64),
  rw e refl,
)
to_ip_port_total order inet_ntop to_string addr (inr e) =
    (with_port order inet_ntop to_string addr (inet_ntop af_inet6 addr.ip6 64), rw e refl)

-- getsockname(2): where it fails, the address is as it was.
pub record LeavesOnFailure {W : Type 0} (calls : NameCalls W) : Type 0 where
  pub leaves :
      (fd : ℤ) (addr : InetAddress) (w : W) (n : ℕ)
      → (calls.getsockname fd addr w).0 ≡ negsuc n
      → (calls.getsockname fd addr w).1 ≡ addr

-- Where `getsockname` fails and leaves the address alone, `get_local_addr` returns an address of no
-- family, whose text aborts the process.
pub to_ip_port-get_local_addr :
    (order : ByteOrder) (inet_ntop : (family : ℕ) (bytes : List ℕ) (size : ℕ) → List ℕ)
    (to_string : ℕ → List ℕ) {W : Type 0} (calls : NameCalls W) (fd : ℤ) (w : W) (n : ℕ)
    → LeavesOnFailure calls
    → (calls.getsockname fd zero_address w).0 ≡ negsuc n
    → to_ip_port order inet_ntop to_string (get_local_addr calls fd w).0 ≡ fail fatal
unfolding to_ip_port get_local_addr
to_ip_port-get_local_addr order inet_ntop to_string calls fd w n k e =
    rw (k.leaves fd zero_address w n e) refl
