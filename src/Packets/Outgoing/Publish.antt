-- ===== src/Packets/Outgoing/Publish.antt =====
-- PUBLISH.
use lmc_rs.Prelude.{ℕ, ◌+◌, Option, some, List, length, if◌then◌else◌, ◌>>=◌}
use lmc_rs.Errors.{at_least_once, qos_ge}
use lmc_rs.ByteIo.{from_native, ByteWriter, write_u16, write_bytes, write_bytes_no_len}
use lmc_rs.Packets.Control
use lmc_rs.Packets.Control.{PacketType, PublishFlags, into_inner}
use lmc_rs.Packets.Frame.{Encode}
use lmc_rs.Packets.Outgoing.{array_size}

pub record OutgoingPublishPacket : Type 0 where
  pub flags : PublishFlags
  pub topic : List ℕ
  pub packet_id : ℕ
  pub payload : List ℕ

unfoldable pub publish_size : OutgoingPublishPacket → Option ℕ
unfolding array_size
publish_size p = do
  qos ← Control.qos p.flags
  some (array_size p.topic + (if qos_ge qos at_least_once then 2 else 0) + length p.payload)

unfoldable pub encode_publish : OutgoingPublishPacket → ByteWriter → Option (ℕ × ByteWriter)
encode_publish p wr = do
  wr ← write_bytes p.topic wr
  qos ← Control.qos p.flags
  wr ← if qos_ge qos at_least_once then write_u16 (from_native p.packet_id) wr else some wr
  wr ← write_bytes_no_len p.payload wr
  some (into_inner p.flags, wr)

instance abbrev pub encode_publish_packet : Encode OutgoingPublishPacket
encode_publish_packet = record {
  packet_type = PacketType.publish;
  compute_size = publish_size;
  encode = encode_publish;
}
