-- ===== src/PacketReader.antt =====
-- src/transceiver/packet_reader.rs: bytes are gathered until a whole packet is there.
pub mod Length
pub mod Invariant
pub mod Taking
pub mod Recv
pub mod Frames
pub mod Prefixes
pub mod Stream
pub mod Roundtrip
pub mod Malformed
use lmc_rs.Prelude.{
  ℕ, ◌+◌, ◌-◌, ◌*◌, ◌%◌, ◌^◌, ◌≤◌, ◌≡◌, Bool, true, false, Option, none, some, List, [], ◌∷◌, ◌++◌,
  bit_and, bit_or, ltb, leb, ◌==◌, if◌then◌else◌, length, take, drop, max, All,
}
use lmc_rs.Errors.{
  PacketDecodeError, reached_max_size, Decoded, ok, err, panicked, IoError, decode_failed, IoResult,
  done, failed, crashed,
}
use lmc_rs.Transport.{Transport}
use lmc_rs.Packets.Control.{ControlField}
use lmc_rs.Packets.Frame.{max_header_size}
use lmc_rs.Packets.Incoming.{IncomingPacket, from_bytes}

pub record PacketSizeInfo : Type 0 where
  pub size : ℕ
  pub start_offset : ℕ

pub record PacketReader : Type 0 where
  pub bytes : List ℕ
  pub size : Option PacketSizeInfo

abbrev pub default : PacketReader
default = record { bytes = []; size = none }

pub data PacketReadState : Type 0 where
  incoming : IncomingPacket → PacketReadState
  connection_closed need_more_data : PacketReadState

abbrev pub max_packet_size : ℕ
max_packet_size = 512_000_000

-- `ret |= ((b & 0x7f) as usize) << shift`, on 64 bits.
abbrev pub or_group : ℕ → ℕ → ℕ → ℕ
or_group ret b shift = bit_or ret (bit_and b 0x7f * 2 ^ shift % 2 ^ 64)

-- The loop of `parse_packet_size`, over the bytes from `pos` on: the value and the new `pos`, or
-- `none` where bytes are missing.
unfoldable pub parse_length : List ℕ → ℕ → ℕ → ℕ → Option (ℕ × ℕ)
parse_length [] pos ret shift = none
parse_length (b ∷ bytes) pos ret shift =
    let rest = parse_length bytes (pos + 1) (or_group ret b shift) (shift + 7) in
    if bit_and b 0x80 == 0 then some (or_group ret b shift, pos + 1) else rest

abbrev pub check_size : Option (ℕ × ℕ) → IoResult (Option PacketSizeInfo)
check_size none = done none
check_size (some (ret, pos)) =
    if ltb max_packet_size (ret + pos)
    then failed (decode_failed reached_max_size)
    else done (some (record { size = ret + pos; start_offset = pos }))

unfoldable pub parse_packet_size : List ℕ → IoResult (Option PacketSizeInfo)
parse_packet_size bytes = check_size (parse_length (drop 1 bytes) 1 0 0)

-- `?` on the result of `parse_packet_size` behind a `self.bytes.clear()`.
abbrev pub store_size :
    {A : Type 0}
    → PacketReader
    → IoResult (Option PacketSizeInfo)
    → IoResult A
    → IoResult A × PacketReader
store_size rd (done size) r = (r, record rd { size = size })
store_size rd (failed e) r = (failed e, record rd { bytes = [] })
store_size rd crashed r = (crashed, rd)

abbrev pub from_decoded : Decoded IncomingPacket → IoResult PacketReadState
from_decoded (ok packet) = done (incoming packet)
from_decoded (err e) = failed (decode_failed e)
from_decoded panicked = crashed

-- The decoding of `bytes[start_offset..size]`; an index out of range panics. What is left unread is
-- only logged.
unfoldable pub decode_packet : List ℕ → PacketSizeInfo → IoResult PacketReadState
decode_packet [] info = crashed
decode_packet (b ∷ bytes) info =
    if ltb info.size info.start_offset
    then crashed
    else from_decoded
        (from_bytes (record { byte = b })
          (take (info.size - info.start_offset) (drop info.start_offset (b ∷ bytes)))).0

-- A packet is ready: it is decoded, and what was read behind it is kept for the next one.
unfoldable pub take_packet : PacketReader → PacketSizeInfo → IoResult PacketReadState × PacketReader
unfolding decode_packet
take_packet rd info =
    let ret = decode_packet rd.bytes info in
    if ltb info.size (length rd.bytes)
    then store_size (record rd { bytes = drop info.size rd.bytes })
        (parse_packet_size (drop info.size rd.bytes)) ret
    else (ret, record { bytes = []; size = none })

module _ (t : Transport) where
  open t use {State, read}

  abbrev pub append_read :
      PacketReader → IoResult (List ℕ) × State → IoResult Bool × PacketReader × State
  append_read rd (done bytes, s) =
      if leb (length bytes) 0
      then (done true, rd, s)
      else (done false, record rd { bytes = rd.bytes ++ bytes }, s)
  append_read rd (failed e, s) = (failed e, rd, s)
  append_read rd (crashed, s) = (crashed, rd, s)

  -- `done true` is the end of the connection.
  unfoldable pub recv_n : PacketReader → State → ℕ → IoResult Bool × PacketReader × State
  recv_n rd s n = if leb n 0 then (done false, rd, s) else append_read rd (read s n)

  abbrev pub with_state :
      State
      → IoResult PacketReadState × PacketReader
      → IoResult PacketReadState × PacketReader × State
  with_state s (r, rd) = (r, rd, s)

  -- Behind the read of the variable header and the payload.
  abbrev pub after_body :
      PacketSizeInfo
      → IoResult Bool × PacketReader × State
      → IoResult PacketReadState × PacketReader × State
  after_body info (done true, rd, s) = (done connection_closed, rd, s)
  after_body info (done false, rd, s) =
      if leb info.size (length rd.bytes)
      then with_state s (take_packet rd info)
      else (done need_more_data, rd, s)
  after_body info (failed e, rd, s) = (failed e, rd, s)
  after_body info (crashed, rd, s) = (crashed, rd, s)

  -- Behind the read of the fixed header.
  abbrev pub after_header :
      IoResult Bool × PacketReader × State → IoResult PacketReadState × PacketReader × State
  after_header (done true, rd, s) = (done connection_closed, rd, s)
  after_header (done false, rd, s) =
      with_state s (store_size rd (parse_packet_size rd.bytes) (done need_more_data))
  after_header (failed e, rd, s) = (failed e, rd, s)
  after_header (crashed, rd, s) = (crashed, rd, s)

  -- `max_header_size - len` panics below zero.
  abbrev pub recv_header : PacketReader → State → IoResult PacketReadState × PacketReader × State
  recv_header rd s =
      if ltb max_header_size (length rd.bytes)
      then (crashed, rd, s)
      else after_header (recv_n rd s (max_header_size - length rd.bytes))

  abbrev pub recv_body :
      PacketReader → State → PacketSizeInfo → IoResult PacketReadState × PacketReader × State
  recv_body rd s info = after_body info (
      if ltb (length rd.bytes) info.size
      then recv_n rd s (info.size - length rd.bytes)
      else (done false, rd, s))

  unfoldable pub recv : PacketReader → State → IoResult PacketReadState × PacketReader × State
  unfolding recv_n take_packet
  recv rd s = elim rd.size [ none ↦ recv_header rd s | some info ↦ recv_body rd s info ]
