-- ===== src/Packets/Outgoing/Requests.antt =====
-- PUBACK, PUBREC, PUBREL, PUBCOMP and UNSUBACK; SUBSCRIBE and UNSUBSCRIBE; PINGREQ and DISCONNECT.
use lmc_rs.Prelude.{ℕ, ◌+◌, Option, some, List, [], ◌∷◌, ◌>>=◌}
use lmc_rs.Errors.{Qos, qos_code}
use lmc_rs.ByteIo.{from_native, ByteWriter, write_u8, write_u16, write_bytes}
use lmc_rs.Packets.Control.{PacketType}
use lmc_rs.Packets.Frame.{Encode}
use lmc_rs.Packets.Outgoing.{array_size}

-- The uses of the macro `def_simple_packet`. The source has the encoder of UNSUBACK in tests only.
pub data Simple : Type 0 where
  pub_ack pub_rec pub_rel pub_comp unsub_ack : Simple

abbrev pub simple_type : Simple → PacketType
simple_type pub_ack = PacketType.pub_ack
simple_type pub_rec = PacketType.pub_rec
simple_type pub_rel = PacketType.pub_rel
simple_type pub_comp = PacketType.pub_comp
simple_type unsub_ack = PacketType.unsub_ack

abbrev pub simple_flags : Simple → ℕ
simple_flags pub_rel = 2
simple_flags _ = 0

pub record SimplePacket (kind : Simple) : Type 0 where
  pub packet_id : ℕ

unfoldable pub encode_simple :
    {kind : Simple} → SimplePacket kind → ByteWriter → Option (ℕ × ByteWriter)
encode_simple {kind} p wr = do
  wr ← write_u16 (from_native p.packet_id) wr
  some (simple_flags kind, wr)

instance abbrev pub encode_simple_packet : {kind : Simple} → Encode (SimplePacket kind)
encode_simple_packet {kind} = record {
  packet_type = simple_type kind;
  compute_size = λ p. some 2;
  encode = encode_simple;
}

-- The uses of the macro `def_empty_outgoing_packet`, and PINGRESP with its encoder for tests.
pub data Empty : Type 0 where
  ping_req disconnect ping_resp : Empty

abbrev pub empty_type : Empty → PacketType
empty_type ping_req = PacketType.ping_req
empty_type disconnect = PacketType.disconnect
empty_type ping_resp = PacketType.ping_resp

pub record EmptyPacket (kind : Empty) : Type 0 where
  mk_unit : Unit {0}

abbrev pub empty_packet : {kind : Empty} → EmptyPacket kind
empty_packet = record { mk_unit = tt }

instance abbrev pub encode_empty_packet : {kind : Empty} → Encode (EmptyPacket kind)
encode_empty_packet {kind} = record {
  packet_type = empty_type kind;
  compute_size = λ p. some 0;
  encode = λ p wr. some (0, wr);
}

pub record SubscribePacket : Type 0 where
  pub packet_id : ℕ
  pub topics : List (List ℕ × Qos)

abbrev pub subscriptions_size : List (List ℕ × Qos) → ℕ
subscriptions_size [] = 0
subscriptions_size ((topic, _) ∷ rest) = array_size topic + 1 + subscriptions_size rest

abbrev pub write_subscriptions : List (List ℕ × Qos) → ByteWriter → Option ByteWriter
write_subscriptions [] wr = some wr
write_subscriptions ((topic, qos) ∷ rest) wr = do
  wr ← write_bytes topic wr
  wr ← write_u8 (qos_code qos) wr
  write_subscriptions rest wr

unfoldable pub encode_subscribe : SubscribePacket → ByteWriter → Option (ℕ × ByteWriter)
encode_subscribe p wr = do
  wr ← write_u16 (from_native p.packet_id) wr
  wr ← write_subscriptions p.topics wr
  some (2, wr)

instance abbrev pub encode_subscribe_packet : Encode SubscribePacket
encode_subscribe_packet = record {
  packet_type = PacketType.subscribe;
  compute_size = λ p. some (2 + subscriptions_size p.topics);
  encode = encode_subscribe;
}

pub record UnsubscribePacket : Type 0 where
  pub packet_id : ℕ
  pub topics : List (List ℕ)

abbrev pub topics_size : List (List ℕ) → ℕ
topics_size [] = 0
topics_size (topic ∷ rest) = array_size topic + topics_size rest

abbrev pub write_topics : List (List ℕ) → ByteWriter → Option ByteWriter
write_topics [] wr = some wr
write_topics (topic ∷ rest) wr = do wr ← write_bytes topic wr; write_topics rest wr

unfoldable pub encode_unsubscribe : UnsubscribePacket → ByteWriter → Option (ℕ × ByteWriter)
encode_unsubscribe p wr = do
  wr ← write_u16 (from_native p.packet_id) wr
  wr ← write_topics p.topics wr
  some (2, wr)

instance abbrev pub encode_unsubscribe_packet : Encode UnsubscribePacket
encode_unsubscribe_packet = record {
  packet_type = PacketType.unsubscribe;
  compute_size = λ p. some (2 + topics_size p.topics);
  encode = encode_unsubscribe;
}
