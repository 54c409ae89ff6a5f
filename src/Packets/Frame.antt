-- ===== src/Packets/Frame.antt =====
-- The fixed header and the trait `Encode` of src/transceiver/packets.rs.
pub mod Size
pub mod Make
use lmc_rs.Prelude.{
  ℕ, zero, suc, ◌+◌, ◌/◌, ◌%◌, ◌-◌, Option, none, some, List, [], ◌∷◌, ◌++◌, bit_or, length, leb,
  if◌then◌else◌, ◌>>=◌, ◌>>◌,
}
use lmc_rs.ByteIo
use lmc_rs.ByteIo.{ByteWriter, finish_and_check}
use lmc_rs.Packets.Control.{PacketType, from_type_and_flags}

abbrev pub max_header_size : ℕ
max_header_size = 5

abbrev with_group : ℕ → Option (List ℕ) → Option (List ℕ)
with_group b none = none
with_group b (some rest) = some (b ∷ rest)

-- The bytes that `encode_packet_size` leaves in `dst[..n]`, for its result `n` and a `dst` of the
-- given length; `sz & 0x7f` is `sz % 128` and `(sz & !0x7f) >> 7` is `sz / 128`. `none` is the panic.
unfoldable pub encode_packet_size : ℕ → ℕ → Option (List ℕ)
encode_packet_size zero sz = none
encode_packet_size (suc room) sz =
    let rest = with_group (bit_or (sz % 128) 0x80) (encode_packet_size room (sz / 128)) in
    if leb (sz / 128) 0 then some (sz % 128 ∷ []) else rest

-- The traits `Packet` and `Encode`. `none` is a panic; `encode` gives the flags beside the writer.
pub record Encode (P : Type 0) : Type 0 where
  pub packet_type : PacketType
  pub compute_size : P → Option ℕ
  pub encode : P → ByteWriter → Option (ℕ × ByteWriter)

-- `make_packet_t`, and with it `make_packet` and `make_arc_packet`: the container is a byte list.
unfoldable pub make_packet : {P : Type 0} ⦃e : Encode P⦄ → P → Option (List ℕ)
make_packet ⦃e⦄ p = do
  content_sz ← e.compute_size p
  size_bytes ← encode_packet_size (max_header_size - 1) content_sz
  (flags, wr) ← e.encode p (ByteIo.new content_sz)
  finish_and_check wr
  ctrl ← from_type_and_flags e.packet_type flags
  some (ctrl.byte ∷ size_bytes ++ wr.written)
