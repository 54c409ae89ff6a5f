-- ===== src/PacketReader/Roundtrip.antt =====
-- The way of a packet from `make_packet` to the reader of the other side.
use lmc_rs.Prelude.{◌≡◌, ◌<◌, ℕ, Bool, true, some, List, [], length, arith, ap, ◌∙◌}
use lmc_rs.Errors.{Qos, done, ok}
use lmc_rs.Utf8.{is_utf8}
use lmc_rs.Packets.Control
use lmc_rs.Packets.Control.{PacketType, into_inner, type_code, ControlField}
use lmc_rs.Packets.Control.Field.{first_byte, packet_type_lem}
use lmc_rs.Packets.Control.Flags.{Shows, new-Shows}
use lmc_rs.Packets.Frame.{make_packet}
use lmc_rs.Packets.Frame.Make.{frame, max_content, make_packet-frame}
use lmc_rs.Packets.Outgoing.Connect.{encode_connect_packet}
use lmc_rs.Packets.Outgoing.Publish.{OutgoingPublishPacket, encode_publish_packet}
use lmc_rs.Packets.Outgoing.Requests.{
  Simple, SimplePacket, pub_ack, pub_rec, pub_rel, pub_comp, unsub_ack, simple_type, simple_flags,
  encode_simple_packet,
}
use lmc_rs.Packets.Outgoing.Bodies.{
  IsShort, publish_body, publish-Encodes, simple_body, simple-Encodes,
}
use lmc_rs.Packets.Incoming.{
  IncomingPacket, acked, received, released, completed, unsubscribed, publish, from_bytes,
  decode_simple,
}
use lmc_rs.Packets.Incoming.Decoders.{
  decode_publish-publish_body, decode_simple-append, delivered, sent_id,
}
use lmc_rs.PacketReader.{PacketSizeInfo, incoming, decode_packet, from_decoded}
use lmc_rs.PacketReader.Frames.{IsFrame, frame_info, frame-IsFrame, decode_packet-frame}

-- The bytes are one whole packet that the reader decodes to `p`.
pub record Carries (bytes : List ℕ) (p : IncomingPacket) : Type 0 where
  pub info : PacketSizeInfo
  pub whole : IsFrame bytes info
  pub decoded : decode_packet bytes info ≡ done (incoming p)

from_bytes-publish :
    (p : OutgoingPublishPacket) (dup retain : Bool) (qos : Qos)
    → p.flags ≡ Control.new dup qos retain
    → is_utf8 p.topic ≡ true
    → (from_bytes
        (record { byte = first_byte PacketType.publish (into_inner p.flags) })
        (publish_body qos p)).0
      ≡ ok (publish (delivered p (sent_id qos p.packet_id)))
unfolding from_bytes
from_bytes-publish p dup retain qos e u =
    let shows : Shows p.flags dup qos retain = rw e (new-Shows dup qos retain) in
    rw (
      packet_type_lem PacketType.publish p.flags.bits shows.4,
      decode_publish-publish_body p dup retain qos e u,
    )

-- A publish packet with flags made by `new`, a valid topic of less than 65536 bytes and a content that
-- the length field can spell is encoded without a panic, and the bytes are one whole packet that the
-- reader decodes to the same flags, topic, payload and identifier, 0 standing for the identifier that
-- is not sent at most once.
pub make_packet-publish :
    (p : OutgoingPublishPacket) (dup retain : Bool) (qos : Qos)
    → p.flags ≡ Control.new dup qos retain
    → is_utf8 p.topic ≡ true
    → IsShort p.topic
    → length (publish_body qos p) < max_content
    → (bytes : List ℕ) × (make_packet p ≡ some bytes)
      × Carries bytes (publish (delivered p (sent_id qos p.packet_id)))
make_packet-publish p dup retain qos e u short fits =
    let shows : Shows p.flags dup qos retain = rw e (new-Shows dup qos retain) in
    (
      frame PacketType.publish (into_inner p.flags) (publish_body qos p),
      make_packet-frame p (publish-Encodes p qos shows.1 short) shows.4 fits,
      record {
        info = frame_info (publish_body qos p);
        whole = frame-IsFrame PacketType.publish (into_inner p.flags) (publish_body qos p) fits;
        decoded =
            decode_packet-frame PacketType.publish (into_inner p.flags) (publish_body qos p)
            ∙ ap from_decoded (from_bytes-publish p dup retain qos e u);
      },
    )

-- The packet of an acknowledgement on the other side.
abbrev pub acknowledgement : (kind : Simple) → ℕ → IncomingPacket
acknowledgement pub_ack id = acked (record { packet_id = id })
acknowledgement pub_rec id = received (record { packet_id = id })
acknowledgement pub_rel id = released (record { packet_id = id })
acknowledgement pub_comp id = completed (record { packet_id = id })
acknowledgement unsub_ack id = unsubscribed (record { packet_id = id })

simple_alone :
    {kind : Simple} (id : ℕ)
    → decode_simple {kind = kind} (simple_body id) ≡ (ok (record { packet_id = id }), [])
simple_alone id = decode_simple-append id []

from_bytes-simple :
    (kind : Simple) (id : ℕ)
    → (from_bytes
        (record { byte = first_byte (simple_type kind) (simple_flags kind) })
        (simple_body id)).0
      ≡ ok (acknowledgement kind id)
unfolding from_bytes
from_bytes-simple pub_ack id =
    rw (packet_type_lem PacketType.pub_ack 0 (omega arith), simple_alone {kind = pub_ack} id)
from_bytes-simple pub_rec id =
    rw (packet_type_lem PacketType.pub_rec 0 (omega arith), simple_alone {kind = pub_rec} id)
from_bytes-simple pub_rel id =
    rw (packet_type_lem PacketType.pub_rel 2 (omega arith), simple_alone {kind = pub_rel} id)
from_bytes-simple pub_comp id =
    rw (packet_type_lem PacketType.pub_comp 0 (omega arith), simple_alone {kind = pub_comp} id)
from_bytes-simple unsub_ack id =
    rw (packet_type_lem PacketType.unsub_ack 0 (omega arith), simple_alone {kind = unsub_ack} id)

simple_flags-lt : (kind : Simple) → simple_flags kind < 16
simple_flags-lt pub_ack = omega arith
simple_flags-lt pub_rec = omega arith
simple_flags-lt pub_rel = omega arith
simple_flags-lt pub_comp = omega arith
simple_flags-lt unsub_ack = omega arith

body_fits : (id : ℕ) → length (simple_body id) < max_content
unfolding max_content
body_fits id = omega arith

-- Each of the five acknowledgements is encoded without a panic, and the bytes are one whole packet that
-- the reader decodes to the acknowledgement of the same kind and identifier.
pub make_packet-simple :
    {kind : Simple} (p : SimplePacket kind)
    → (bytes : List ℕ) × (make_packet p ≡ some bytes)
      × Carries bytes (acknowledgement kind p.packet_id)
make_packet-simple {kind} p =
    let body = simple_body p.packet_id in
    (
      frame (simple_type kind) (simple_flags kind) body,
      make_packet-frame p (simple-Encodes p) (simple_flags-lt kind) (body_fits p.packet_id),
      record {
        info = frame_info body;
        whole = frame-IsFrame (simple_type kind) (simple_flags kind) body (body_fits p.packet_id);
        decoded =
            decode_packet-frame (simple_type kind) (simple_flags kind) body
            ∙ ap from_decoded (from_bytes-simple kind p.packet_id);
      },
    )
