-- ===== src/PacketReader/Taking.antt =====
-- What `recv` of src/transceiver/packet_reader.rs does with the bytes it has: a packet is taken and decoded.
use lmc_rs.Prelude.{
  ltb→lt, sym, ℕ, zero, suc, ◌≤◌, ◌≡◌, ◌≢◌, refl, false, some, List, [], ◌∷◌, arith, length, All,
  drop, ltb, length-drop, inl, inr, Bool-cases,
}
use lmc_rs.Errors.{IoResult, crashed, Decoded, ok, err, panicked}
use lmc_rs.ByteIo.Reading.{IsByte}
use lmc_rs.Packets.Frame.{max_header_size}
use lmc_rs.Packets.Incoming.{IncomingPacket}
use lmc_rs.Packets.Incoming.Total.{NoPanic-from_bytes}
use lmc_rs.PacketReader.{
  PacketReader, PacketSizeInfo, parse_packet_size, store_size, decode_packet, take_packet,
  from_decoded,
}
use lmc_rs.PacketReader.Invariant.{IsValid, Within, parse_header, default-IsValid, All-drop}

-- Bytes of a fixed header take the size that they spell.
pub store_size-IsValid :
    {A : Type 0} (rd : PacketReader) (r : IoResult A)
    → All IsByte rd.bytes
    → length rd.bytes ≤ max_header_size
    → ((store_size rd (parse_packet_size rd.bytes) r).0 ≡ r)
      × IsValid (store_size rd (parse_packet_size rd.bytes) r).1
store_size-IsValid rd r raw short = elim (parse_header rd.bytes raw short) [
  | inl missing ↦ rw missing (refl, record { spelled = missing; within = short; raw = raw })
  | inr (info, found, v) ↦ rw found (
    refl,
    record { spelled = found; within = (omega arith, v.behind, v.ordered, v.read); raw = raw },
  )
]

pub bytes-store_size :
    {A : Type 0} (rd : PacketReader) (r : IoResult A)
    → All IsByte rd.bytes
    → length rd.bytes ≤ max_header_size
    → (store_size rd (parse_packet_size rd.bytes) r).1.bytes ≡ rd.bytes
bytes-store_size rd r raw short = elim (parse_header rd.bytes raw short) [
  | inl missing ↦ rw missing refl
  | inr (info, found, v) ↦ rw found refl
]

pub drop_whole : (bytes : List ℕ) (n : ℕ) → length bytes ≤ n → drop n bytes ≡ []
drop_whole [] zero h = refl
drop_whole [] (suc n) h = refl
drop_whole (b ∷ bytes) zero h = absurd (omega arith)
drop_whole (b ∷ bytes) (suc n) h = drop_whole bytes n (omega arith)

-- What was read behind the packet is kept.
pub bytes-take_packet :
    (rd : PacketReader) (info : PacketSizeInfo)
    → IsValid rd
    → rd.size ≡ some info
    → (take_packet rd info).1.bytes ≡ drop info.size rd.bytes
unfolding take_packet
bytes-take_packet rd info v e = elim (Bool-cases (ltb info.size (length rd.bytes))) [
  | inl more ↦ rw more (
      bytes-store_size (record rd { bytes = drop info.size rd.bytes }) (decode_packet rd.bytes info)
        (All-drop info.size rd.bytes v.raw)
        (omega (arith, within, length-drop info.size rd.bytes, ltb→lt _ _ more)))
  | inr exact ↦ rw exact (sym (drop_whole rd.bytes info.size (ground arith)))
]
  where
    within : Within rd.bytes (some info)
    within = rw e at (v.within)

-- A ready packet is decoded and leaves a valid reader.
pub take_packet-IsValid :
    (rd : PacketReader) (info : PacketSizeInfo)
    → IsValid rd
    → rd.size ≡ some info
    → info.size ≤ length rd.bytes
    → ((take_packet rd info).0 ≡ decode_packet rd.bytes info) × IsValid (take_packet rd info).1
unfolding take_packet
take_packet-IsValid rd info v e ready = elim (Bool-cases (ltb info.size (length rd.bytes))) [
  | inl more ↦ rw more (
      store_size-IsValid (record rd { bytes = drop info.size rd.bytes })
        (decode_packet rd.bytes info) (All-drop info.size rd.bytes v.raw) short)
  | inr exact ↦ rw exact (refl, default-IsValid)
]
  where
    within : Within rd.bytes (some info)
    within = rw e at (v.within)

    short : length (drop info.size rd.bytes) ≤ max_header_size
    short = omega (arith, within, length-drop info.size rd.bytes)

pub from_decoded-ne : (r : Decoded IncomingPacket) → r ≢ panicked → from_decoded r ≢ crashed
from_decoded-ne (ok p) h = λ q. cc
from_decoded-ne (err e) h = λ q. cc
from_decoded-ne panicked h = absurd (h refl)

pub decode_ordered :
    (bytes : List ℕ) (info : PacketSizeInfo)
    → All IsByte bytes
    → 1 ≤ length bytes
    → info.start_offset ≤ info.size
    → decode_packet bytes info ≢ crashed
unfolding decode_packet
decode_ordered [] info raw full h = absurd (omega arith)
decode_ordered (b ∷ bytes) info raw full h =
    let order : ltb info.size info.start_offset ≡ false = ground arith in
    rw order (from_decoded-ne _ ((NoPanic-from_bytes (record { byte = b }) raw.0).at _))

pub decode_packet-ne :
    (rd : PacketReader) (info : PacketSizeInfo)
    → IsValid rd
    → rd.size ≡ some info
    → decode_packet rd.bytes info ≢ crashed
decode_packet-ne rd info v e =
    let within : Within rd.bytes (some info) = rw e at v.within in
    decode_ordered rd.bytes info v.raw (omega arith) within.2
