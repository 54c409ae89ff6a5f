-- ===== src/Examples/Writing.antt =====
-- Packets that are written and read again.
use lmc_rs.Prelude.{ℕ, ◌≡◌, refl, some, List, [], ◌∷◌, ◌<◌, true, false, arith, length}
use lmc_rs.Errors.{at_least_once}
use lmc_rs.Utf8.{is_utf8}
use lmc_rs.Packets.Control
use lmc_rs.Packets.Control.{PacketType}
use lmc_rs.Packets.Frame.{make_packet}
use lmc_rs.Packets.Frame.Make.{max_content}
use lmc_rs.Packets.Outgoing.Connect.{encode_connect_packet}
use lmc_rs.Packets.Outgoing.Publish.{OutgoingPublishPacket, encode_publish_packet}
use lmc_rs.Packets.Outgoing.Requests.{
  SimplePacket, pub_rel, encode_simple_packet, encode_subscribe_packet,
}
use lmc_rs.Packets.Outgoing.Bodies.{publish_body}
use lmc_rs.Packets.Incoming.{publish}
use lmc_rs.Packets.Incoming.Decoders.{delivered}
use lmc_rs.PacketReader.Roundtrip.{
  Carries, acknowledgement, make_packet-publish, make_packet-simple,
}

abbrev message : OutgoingPublishPacket
message = record {
  flags = Control.new false at_least_once true;
  topic = 97 ∷ 47 ∷ 98 ∷ [];
  packet_id = 513;
  payload = 1 ∷ 2 ∷ [];
}

small : length (publish_body at_least_once message) < max_content
unfolding max_content
small = omega arith

message_topic : is_utf8 (97 ∷ 47 ∷ 98 ∷ []) ≡ true
unfolding is_utf8
message_topic = refl

make_packet-publish_example :
    (bytes : List ℕ) × (make_packet message ≡ some bytes)
    × Carries bytes (publish (delivered message 513))
make_packet-publish_example =
    make_packet-publish message false true at_least_once refl message_topic (omega arith) small

make_packet-simple_example :
    (bytes : List ℕ) × (make_packet {P = SimplePacket pub_rel} (record { packet_id = 300 })
      ≡ some bytes)
    × Carries bytes (acknowledgement pub_rel 300)
make_packet-simple_example = make_packet-simple {kind = pub_rel} (record { packet_id = 300 })
