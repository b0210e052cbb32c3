-- ===== src/Endian.antt =====
-- net/Endian.h: words in the byte order of the network. What the system's headers have is a parameter.
pub mod Bytes
use penduo.Prelude.{ℕ, List, Bool, true, false}

-- The macros, with the way in which the host keeps a word of some bytes in memory.
pub record ByteOrder : Type 0 where
  pub memory : (width word : ℕ) → List ℕ
  pub htobe16 : ℕ → ℕ
  pub htole16 : ℕ → ℕ
  pub be16toh : ℕ → ℕ
  pub le16toh : ℕ → ℕ
  pub htobe32 : ℕ → ℕ
  pub htole32 : ℕ → ℕ
  pub be32toh : ℕ → ℕ
  pub le32toh : ℕ → ℕ
  pub htobe64 : ℕ → ℕ
  pub htole64 : ℕ → ℕ
  pub be64toh : ℕ → ℕ
  pub le64toh : ℕ → ℕ

-- What `libkern/OSByteOrder.h` has for them.
pub record OsByteOrder : Type 0 where
  pub host_memory : (width word : ℕ) → List ℕ
  pub os_swap_host_to_big_int16 : ℕ → ℕ
  pub os_swap_host_to_little_int16 : ℕ → ℕ
  pub os_swap_big_to_host_int16 : ℕ → ℕ
  pub os_swap_little_to_host_int16 : ℕ → ℕ
  pub os_swap_host_to_big_int32 : ℕ → ℕ
  pub os_swap_host_to_little_int32 : ℕ → ℕ
  pub os_swap_big_to_host_int32 : ℕ → ℕ
  pub os_swap_little_to_host_int32 : ℕ → ℕ
  pub os_swap_host_to_big_int64 : ℕ → ℕ
  pub os_swap_host_to_little_int64 : ℕ → ℕ
  pub os_swap_big_to_host_int64 : ℕ → ℕ
  pub os_swap_little_to_host_int64 : ℕ → ℕ

-- The macros that are defined on `__APPLE__`.
abbrev pub apple : OsByteOrder → ByteOrder
apple os = record {
  memory = os.host_memory;
  htobe16 = os.os_swap_host_to_big_int16;
  htole16 = os.os_swap_host_to_little_int16;
  be16toh = os.os_swap_big_to_host_int16;
  le16toh = os.os_swap_little_to_host_int16;
  htobe32 = os.os_swap_host_to_big_int32;
  htole32 = os.os_swap_host_to_little_int32;
  be32toh = os.os_swap_big_to_host_int32;
  le32toh = os.os_swap_little_to_host_int32;
  htobe64 = os.os_swap_host_to_big_int64;
  htole64 = os.os_swap_host_to_little_int64;
  be64toh = os.os_swap_big_to_host_int64;
  le64toh = os.os_swap_little_to_host_int64;
}

-- The macros, which are those of `endian.h` elsewhere.
abbrev pub byte_order : (is_apple : Bool) → OsByteOrder → (endian_h : ByteOrder) → ByteOrder
byte_order true os endian_h = apple os
byte_order false os endian_h = endian_h

module _ (order : ByteOrder) where
  abbrev pub host_to_network64 : ℕ → ℕ
  host_to_network64 host64 = order.htobe64 host64

  abbrev pub host_to_network32 : ℕ → ℕ
  host_to_network32 host32 = order.htobe32 host32

  abbrev pub host_to_network16 : ℕ → ℕ
  host_to_network16 host16 = order.htobe16 host16

  abbrev pub network_to_host64 : ℕ → ℕ
  network_to_host64 net64 = order.be64toh net64

  abbrev pub network_to_host32 : ℕ → ℕ
  network_to_host32 net32 = order.be32toh net32

  abbrev pub network_to_host16 : ℕ → ℕ
  network_to_host16 net16 = order.be16toh net16
