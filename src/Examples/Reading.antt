-- ===== src/Examples/Reading.antt =====
-- Reading a packet in pieces.
use lmc_rs.Prelude.{ℕ, ◌⊎◌, ◌≢◌, ◌≡◌, refl, none, some, List, [], ◌∷◌, arith}
use lmc_rs.Errors.{done, crashed, ok}
use lmc_rs.ByteIo.{read_byte_array}
use lmc_rs.Packets.Control.{PacketType, try_from}
use lmc_rs.Packets.Control.Flags.{Classified, try_from-Classified}
use lmc_rs.Packets.Frame.Size.{size_field}
use lmc_rs.Packets.Frame.Make.{frame, max_content}
use lmc_rs.Packets.Incoming.{from_bytes}
use lmc_rs.Packets.Incoming.Total.{NoPanic, NoPanic-from_bytes}
use lmc_rs.PacketReader.{PacketSizeInfo, default, recv, need_more_data, parse_packet_size}
use lmc_rs.PacketReader.Invariant.{IsValid, default-IsValid, IsSize, parse_header}
use lmc_rs.PacketReader.Recv.{recv-IsValid}
use lmc_rs.PacketReader.Frames.{frame_info, frame-IsFrame}
use lmc_rs.PacketReader.Stream.{Outcome, recv-Outcome}
use lmc_rs.PacketReader.Malformed.{malformed, recv-malformed}
use lmc_rs.Examples.Scripted.{Script, script, unread, script_feeds}

-- PUBACK with identifier 7, and the first byte of another packet.
abbrev ack_info : PacketSizeInfo
ack_info = frame_info (0 ∷ 7 ∷ [])

abbrev ack : List ℕ
ack = frame PacketType.pub_ack 0 (0 ∷ 7 ∷ [])

abbrev arriving : Script
arriving = record { input = 0x40 ∷ 2 ∷ 0 ∷ 7 ∷ 0xd0 ∷ []; output = [] }

recv-Outcome_example :
    Outcome script unread script_feeds arriving ack ack_info
      (0xd0 ∷ [])
      (recv script default arriving)
unfolding frame max_content size_field
recv-Outcome_example =
    recv-Outcome script unread script_feeds ack (0xd0 ∷ []) ack_info
      (frame-IsFrame PacketType.pub_ack 0 (0 ∷ 7 ∷ []) (omega arith)) default arriving
      default-IsValid refl

recv-IsValid_example :
    IsValid (recv script default arriving).1 × ((recv script default arriving).0 ≢ crashed)
recv-IsValid_example = recv-IsValid script default arriving default-IsValid

recv-malformed_example :
    recv script (malformed 0x30 128 255 128 200) arriving
    ≡ (done need_more_data, malformed 0x30 128 255 128 200, arriving)
recv-malformed_example =
    recv-malformed script arriving 0x30 128 255 128 200 (omega arith) (omega arith) (omega arith)
      (omega arith)

-- A length of two bytes.
parse_header_example :
    (parse_packet_size (0x30 ∷ 200 ∷ 1 ∷ []) ≡ done none)
    ⊎ ((info : PacketSizeInfo) × (parse_packet_size (0x30 ∷ 200 ∷ 1 ∷ []) ≡ done (some info))
        × IsSize (0x30 ∷ 200 ∷ 1 ∷ []) info)
parse_header_example =
    parse_header (0x30 ∷ 200 ∷ 1 ∷ []) (omega arith, (omega arith, (omega arith, tt))) (omega arith)

NoPanic-from_bytes_example : NoPanic (from_bytes (record { byte = 0x3d }))
NoPanic-from_bytes_example = NoPanic-from_bytes (record { byte = 0x3d }) (omega arith)

try_from-Classified_example : Classified 13 (try_from 13)
try_from-Classified_example = try_from-Classified 13 (omega arith)

two_read : read_byte_array (0 ∷ 2 ∷ 65 ∷ 66 ∷ 67 ∷ []) ≡ (ok (65 ∷ 66 ∷ []), 67 ∷ [])
unfolding read_byte_array
two_read = refl
