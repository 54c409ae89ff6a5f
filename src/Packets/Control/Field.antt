-- ===== src/Packets/Control/Field.antt =====
-- The first byte of a packet: its type and its flags.
use lmc_rs.Prelude.{ℕ, ◌+◌, ◌*◌, ◌<◌, ◌≡◌, some, arith}
use lmc_rs.Prelude.Bits.{or_nibbles, high_nibble, low_nibble}
use lmc_rs.Packets.Control.{
  PacketType, type_code, ControlField, from_type_and_flags, packet_type, flags,
}

pub type_code-lt : (t : PacketType) → type_code t < 16
type_code-lt PacketType.connect = omega arith
type_code-lt _ = omega arith

abbrev pub first_byte : PacketType → ℕ → ℕ
first_byte t f = type_code t * 16 + f

pub from_type_and_flags_lem :
    (t : PacketType) (f : ℕ)
    → f < 16
    → from_type_and_flags t f ≡ some (record { byte = first_byte t f })
unfolding from_type_and_flags
from_type_and_flags_lem t f h = ground (arith, type_code-lt t, or_nibbles (type_code t) f)

pub packet_type_lem :
    (t : PacketType) (f : ℕ) → f < 16 → packet_type (record { byte = first_byte t f }) ≡ type_code t
unfolding packet_type
packet_type_lem t f h =
    omega (arith, type_code-lt t, high_nibble (first_byte t f) (omega (arith, type_code-lt t)))

pub flags_lem : (t : PacketType) (f : ℕ) → f < 16 → flags (record { byte = first_byte t f }) ≡ f
unfolding flags
flags_lem t f h =
    omega (arith, type_code-lt t, low_nibble (first_byte t f) (omega (arith, type_code-lt t)))

pub flags-lt : (c : ControlField) → c.byte < 256 → flags c < 256
unfolding flags
flags-lt c h = omega (arith, low_nibble c.byte h)
