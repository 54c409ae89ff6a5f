-- ===== src/Packets/Frame/Size.antt =====
-- The length field: what `encode_packet_size` writes, in plain arithmetic.
use native.Mathlib.Nat.{pow-suc}
use lmc_rs.Prelude.{
  ◌*◌, ℕ, zero, suc, ◌+◌, ◌/◌, ◌%◌, ◌^◌, ◌≤◌, ◌<◌, ◌≡◌, none, some, List, [], ◌∷◌, arith, ltb,
  length, if◌then◌else◌,
}
use lmc_rs.Prelude.Bits.{set_top_bit}
use lmc_rs.Packets.Frame.{encode_packet_size}

-- The groups of seven bits of `v`, lowest first, for `v` below 128 ^ (k + 1).
unfoldable pub size_field : ℕ → ℕ → List ℕ
size_field zero v = v % 128 ∷ []
size_field (suc k) v =
    let rest = size_field k (v / 128) in if ltb v 128 then v ∷ [] else (v % 128 + 128) ∷ rest

pub encode_packet_size-size_field :
    (k v : ℕ) → v < 128 ^ suc k → encode_packet_size (suc k) v ≡ some (size_field k v)
unfolding encode_packet_size size_field
encode_packet_size-size_field zero v h = ground arith
encode_packet_size-size_field (suc k) v h =
    ground (arith, set_top_bit (v % 128), encode_packet_size-size_field k (v / 128) (omega arith))

pow_grows : (k : ℕ) → (1 ≤ 128 ^ k) × (128 ^ suc k ≡ 128 ^ k * 128)
pow_grows zero = omega arith
pow_grows (suc k) = (omega (arith, pow_grows k), pow-suc 128 (suc k))

-- With `k` bytes of room the panic is met exactly by the sizes from 128 ^ k on.
encode_packet_size-none : (k v : ℕ) → 128 ^ k ≤ v → encode_packet_size k v ≡ none
unfolding encode_packet_size
encode_packet_size-none zero v h = ground arith
encode_packet_size-none (suc k) v h =
    ground (arith, pow_grows k, encode_packet_size-none k (v / 128) (omega (arith, pow_grows k)))

pub length-size_field :
    (k v : ℕ) → (1 ≤ length (size_field k v)) × (length (size_field k v) ≤ suc k)
unfolding size_field
length-size_field zero v = omega arith
length-size_field (suc k) v = ground (arith, length-size_field k (v / 128))
