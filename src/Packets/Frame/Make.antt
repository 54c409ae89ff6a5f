-- ===== src/Packets/Frame/Make.antt =====
-- What `make_packet` gives for a packet whose `encode` writes its `compute_size` bytes.
use lmc_rs.Prelude.{ℕ, ◌+◌, ◌*◌, ◌^◌, ◌≤◌, ◌<◌, ◌≡◌, some, List, arith, ◌∷◌, ◌++◌, length}
use lmc_rs.ByteIo
use lmc_rs.ByteIo.{ByteWriter, finish_and_check}
use lmc_rs.ByteIo.Writing.{advance}
use lmc_rs.Packets.Control.{PacketType, type_code}
use lmc_rs.Packets.Control.Field.{from_type_and_flags_lem}
use lmc_rs.Packets.Frame.{Encode, make_packet}
use lmc_rs.Packets.Frame.Size.{size_field, encode_packet_size-size_field}

-- `p` is written as `flags` and `body`.
pub record Encodes {P : Type 0} ⦃e : Encode P⦄ (p : P) (flags : ℕ) (body : List ℕ) : Type 0 where
  pub sized : e.compute_size p ≡ some (length body)
  pub writes :
      (wr : ByteWriter) → length body ≤ wr.space → e.encode p wr ≡ some (flags, advance wr body)

unfoldable pub max_content : ℕ
max_content = 128 ^ 4

unfoldable pub frame : PacketType → ℕ → List ℕ → List ℕ
frame ty flags body = (type_code ty * 16 + flags) ∷ size_field 3 (length body) ++ body

pub make_packet-frame :
    {P : Type 0} ⦃e : Encode P⦄ (p : P) {flags : ℕ} {body : List ℕ}
    → Encodes p flags body
    → flags < 16
    → length body < max_content
    → make_packet p ≡ some (frame e.packet_type flags body)
unfolding make_packet frame max_content finish_and_check
make_packet-frame ⦃e⦄ p {flags} {body} h hf hl = rw (
  h.sized,
  encode_packet_size-size_field 3 (length body) hl,
  h.writes (ByteIo.new (length body)) (omega arith),
  full,
  from_type_and_flags_lem e.packet_type flags hf,
)
  where
    full : finish_and_check (advance (ByteIo.new (length body)) body) ≡ some tt
    full = ground arith
