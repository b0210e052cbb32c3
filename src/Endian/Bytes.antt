-- ===== src/Endian/Bytes.antt =====
-- What the macros do to the bytes of a word, and the round trips that follow.
use mathlib.Core.List.{reverse, reverse-reverse}
use penduo.Prelude.{ℕ, zero, suc, ◌*◌, ◌/◌, ◌%◌, ◌^◌, ◌<◌, ◌≡◌, sym, ap, ◌∙◌, List, [], ◌∷◌, arith}
use penduo.Endian.{
  ByteOrder, host_to_network16, host_to_network32, host_to_network64, network_to_host16,
  network_to_host32, network_to_host64,
}

-- The bytes of a word, the lowest first.
unfoldable pub little_endian : (width word : ℕ) → List ℕ
little_endian zero w = []
little_endian (suc n) w = (w % 256) ∷ little_endian n (w / 256)

-- The highest first, as on the network.
abbrev pub big_endian : (width word : ℕ) → List ℕ
big_endian n w = reverse (little_endian n w)

-- `endian.h`: a word for the network has in memory the bytes of the host's word, the highest first,
-- and a word from the network stands for the number with its bytes in that order.
pub record IsByteOrder (order : ByteOrder) : Type 0 where
  pub to16 : (x : ℕ) → x < 2 ^ 16 → order.memory 2 (order.htobe16 x) ≡ big_endian 2 x
  pub to32 : (x : ℕ) → x < 2 ^ 32 → order.memory 4 (order.htobe32 x) ≡ big_endian 4 x
  pub to64 : (x : ℕ) → x < 2 ^ 64 → order.memory 8 (order.htobe64 x) ≡ big_endian 8 x
  pub from16 : (y : ℕ) → big_endian 2 (order.be16toh y) ≡ order.memory 2 y
  pub from32 : (y : ℕ) → big_endian 4 (order.be32toh y) ≡ order.memory 4 y
  pub from64 : (y : ℕ) → big_endian 8 (order.be64toh y) ≡ order.memory 8 y
  pub small16 : (y : ℕ) → order.be16toh y < 2 ^ 16
  pub small32 : (y : ℕ) → order.be32toh y < 2 ^ 32
  pub small64 : (y : ℕ) → order.be64toh y < 2 ^ 64

-- 256 ^ n
limit : ℕ → ℕ
limit zero = 1
limit (suc n) = 256 * limit n

little_endian_injective :
    (n x y : ℕ) → x < limit n → y < limit n → little_endian n x ≡ little_endian n y → x ≡ y
unfolding little_endian limit
little_endian_injective zero x y p q e = omega arith
little_endian_injective (suc n) x y p q e =
    ground (arith, little_endian_injective n (x / 256) (y / 256) (omega arith) (omega arith))

big_endian_injective :
    (n x y : ℕ) → x < limit n → y < limit n → big_endian n x ≡ big_endian n y → x ≡ y
big_endian_injective n x y p q e =
    little_endian_injective n x y p q (
      sym (reverse-reverse (little_endian n x))
      ∙ ap reverse e
      ∙ reverse-reverse (little_endian n y))

-- Over macros that do what their manual says, a word of each width that goes to the network and comes
-- back is the same.
pub network_to_host-host_to_network :
    (order : ByteOrder) (x16 x32 x64 : ℕ)
    → IsByteOrder order
    → x16 < 2 ^ 16
    → x32 < 2 ^ 32
    → x64 < 2 ^ 64
    → (network_to_host16 order (host_to_network16 order x16) ≡ x16)
      × (network_to_host32 order (host_to_network32 order x32) ≡ x32)
      × (network_to_host64 order (host_to_network64 order x64) ≡ x64)
unfolding limit
network_to_host-host_to_network order x16 x32 x64 k h16 h32 h64 = (
  big_endian_injective 2 _ x16 (k.small16 _) h16 (k.from16 _ ∙ k.to16 x16 h16),
  big_endian_injective 4 _ x32 (k.small32 _) h32 (k.from32 _ ∙ k.to32 x32 h32),
  big_endian_injective 8 _ x64 (k.small64 _) h64 (k.from64 _ ∙ k.to64 x64 h64),
)
