-- ===== src/Packets/Control.antt =====
-- `PacketType`, `ControlField` and `PublishFlags` of src/transceiver/packets.rs.
pub mod Field
pub mod Flags
use lmc_rs.Prelude.{
  ℕ, ◌*◌, ◌/◌, ◌%◌, ◌^◌, ◌-◌, Bool, not, Option, none, some, bit_and, bit_or, ltb, leb, ◌==◌,
  if◌then◌else◌,
}
use lmc_rs.Errors.{
  Qos, at_most_once, at_least_once, exactly_once, qos_code, Decoded, ok, err, malformed_packet,
}

pub data PacketType : Type 0 where
  connect conn_ack publish pub_ack pub_rec pub_rel pub_comp : PacketType
  subscribe sub_ack unsubscribe unsub_ack ping_req ping_resp disconnect : PacketType

-- `t as u8`
abbrev pub type_code : PacketType → ℕ
type_code connect = 1
type_code conn_ack = 2
type_code publish = 3
type_code pub_ack = 4
type_code pub_rec = 5
type_code pub_rel = 6
type_code pub_comp = 7
type_code subscribe = 8
type_code sub_ack = 9
type_code unsubscribe = 10
type_code unsub_ack = 11
type_code ping_req = 12
type_code ping_resp = 13
type_code disconnect = 14

pub record ControlField : Type 0 where
  pub byte : ℕ

-- `none` is the panic on invalid flags.
unfoldable pub from_type_and_flags : PacketType → ℕ → Option ControlField
from_type_and_flags t flags =
    if leb 16 flags then none else some (record { byte = bit_or (type_code t * 2 ^ 4 % 256) flags })

unfoldable pub packet_type : ControlField → ℕ
packet_type c = bit_and c.byte 0xf0 / 2 ^ 4

unfoldable pub flags : ControlField → ℕ
flags c = bit_and c.byte 0x0f

pub record PublishFlags : Type 0 where
  pub bits : ℕ

abbrev pub dup_bit : ℕ
dup_bit = 8

abbrev pub qos_mask : ℕ
qos_mask = 6

abbrev pub retain_bit : ℕ
retain_bit = 1

abbrev pub all_bits : ℕ
all_bits = bit_or (bit_or retain_bit qos_mask) dup_bit

-- `PublishFlags::new`
unfoldable pub new : Bool → Qos → Bool → PublishFlags
new dup qos retain =
    let ret = qos_code qos * 2 % 256 in
    let ret' = if dup then bit_or ret dup_bit else ret in
    record { bits = if retain then bit_or ret' retain_bit else ret' }

unfoldable pub was_retained : PublishFlags → Bool
was_retained f = not (bit_and f.bits retain_bit == 0)

unfoldable pub is_dup : PublishFlags → Bool
is_dup f = not (bit_and f.bits dup_bit == 0)

-- `none` is the panic on the value 3.
unfoldable pub qos : PublishFlags → Option Qos
qos f =
    let code = bit_and f.bits qos_mask / 2 in
    if code == 0
    then some at_most_once
    else if code == 1
    then some at_least_once
    else if code == 2
    then some exactly_once
    else none

abbrev pub into_inner : PublishFlags → ℕ
into_inner f = f.bits

-- `TryFrom<u8>`; `255 - all_bits` is `!Self::ALL_BITS`.
unfoldable pub try_from : ℕ → Decoded PublishFlags
try_from value =
    if not (bit_and value (255 - all_bits) == 0)
    then err malformed_packet
    else if ltb (qos_code exactly_once) (bit_and value qos_mask / 2)
    then err malformed_packet
    else ok (record { bits = value })
