-- ===== src/Packets/Incoming/Decoders.antt =====
-- What the decoders make of the bytes that the encoders write.
use lmc_rs.Prelude.{ℕ, ◌≡◌, Bool, true, List, [], ◌++◌, arith, length, take_append, drop_append}
use lmc_rs.Errors.{Qos, at_most_once, at_least_once, exactly_once, ok}
use lmc_rs.Utf8.{is_utf8}
use lmc_rs.ByteIo.{from_native}
use lmc_rs.ByteIo.Reading.{read_u16-append, read_utf8-append, to_native-from_native}
use lmc_rs.Packets.Control
use lmc_rs.Packets.Control.{PacketType, type_code, ControlField, PublishFlags, into_inner}
use lmc_rs.Packets.Control.Field.{first_byte, flags_lem}
use lmc_rs.Packets.Control.Flags.{Shows, new-Shows}
use lmc_rs.Packets.Outgoing.Publish.{OutgoingPublishPacket}
use lmc_rs.Packets.Outgoing.Requests.{Simple}
use lmc_rs.Packets.Outgoing.Bodies.{simple_body, publish_body}
use lmc_rs.Packets.Incoming.{IncomingPublishPacket, topic, payload, decode_publish, decode_simple}

pub decode_simple-append :
    {kind : Simple} (id : ℕ) (rest : List ℕ)
    → decode_simple {kind = kind} (simple_body id ++ rest) ≡ (ok (record { packet_id = id }), rest)
unfolding decode_simple
decode_simple-append id rest =
    rw (read_u16-append (from_native id) rest) (ground (arith, to_native-from_native id))

-- The packet that stands for a message.
abbrev pub delivered : OutgoingPublishPacket → ℕ → IncomingPublishPacket
delivered p id = record {
  topic_len = length p.topic;
  info = record { flags = p.flags; packet_id = id };
  contents = p.topic ++ p.payload;
}

pub topic-delivered : (p : OutgoingPublishPacket) (id : ℕ) → topic (delivered p id) ≡ p.topic
unfolding topic
topic-delivered p id = take_append p.topic p.payload

pub payload-delivered : (p : OutgoingPublishPacket) (id : ℕ) → payload (delivered p id) ≡ p.payload
unfolding payload
payload-delivered p id = drop_append p.topic p.payload

-- At most once the identifier is not sent, and 0 is put in its place.
abbrev pub sent_id : Qos → ℕ → ℕ
sent_id at_most_once id = 0
sent_id _ id = id

pub decode_publish-publish_body :
    (p : OutgoingPublishPacket) (dup retain : Bool) (qos : Qos)
    → p.flags ≡ Control.new dup qos retain
    → is_utf8 p.topic ≡ true
    → decode_publish
        (record { byte = first_byte PacketType.publish (into_inner p.flags) })
        (publish_body qos p)
      ≡ (ok (delivered p (sent_id qos p.packet_id)), [])
decode_publish-publish_body p dup retain qos e u = go qos shows
  where
    shows : Shows p.flags dup qos retain
    shows = rw e (new-Shows dup qos retain)

    start : ControlField
    start = record { byte = first_byte PacketType.publish (into_inner p.flags) }

    go :
        (q : Qos)
        → Shows p.flags dup q retain
        → decode_publish start (publish_body q p) ≡ (ok (delivered p (sent_id q p.packet_id)), [])
    go at_most_once (_, has_qos, _, is_valid, small) =
        unfold decode_publish in
        rw (
          flags_lem PacketType.publish p.flags.bits small,
          is_valid,
          read_utf8-append p.topic p.payload u,
          has_qos,
        )
    go at_least_once (_, has_qos, _, is_valid, small) =
        unfold decode_publish in
        rw (
          flags_lem PacketType.publish p.flags.bits small,
          is_valid,
          read_utf8-append p.topic (simple_body p.packet_id ++ p.payload) u,
          has_qos,
          read_u16-append (from_native p.packet_id) p.payload,
          to_native-from_native p.packet_id,
        )
    go exactly_once (_, has_qos, _, is_valid, small) =
        unfold decode_publish in
        rw (
          flags_lem PacketType.publish p.flags.bits small,
          is_valid,
          read_utf8-append p.topic (simple_body p.packet_id ++ p.payload) u,
          has_qos,
          read_u16-append (from_native p.packet_id) p.payload,
          to_native-from_native p.packet_id,
        )
