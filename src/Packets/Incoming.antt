-- ===== src/Packets/Incoming.antt =====
-- The packets that the client reads, and their decoders.
pub mod SubAck
pub mod Decoders
pub mod Total
use lmc_rs.Prelude.{
  ℕ, zero, suc, ◌+◌, ◌*◌, ◌≡◌, Bool, not, Option, none, some, List, [], ◌∷◌, ◌++◌, bit_and, length,
  get_or, take, drop, ◌==◌, if◌then◌else◌,
}
use lmc_rs.Errors.{
  Qos, at_least_once, qos_ge, ServerConnectError, unacceptable_protocol_version,
  identifier_rejected, server_unavailable, bad_user_name_or_password, not_authorized, unknown,
  Decoded, ok, err, panicked, invalid_packet_id,
}
use lmc_rs.ByteIo.{
  Trivial, Reader, ◌>>=◌, pure, raise, panic, read_trivial, read_u16, read_utf8, read_remaining,
  to_native,
}
use lmc_rs.Packets.Control
use lmc_rs.Packets.Control.{PacketType, type_code, ControlField, PublishFlags, try_from}
use lmc_rs.Packets.Outgoing.Requests.{
  Simple, SimplePacket, simple_type, pub_ack, pub_rec, pub_rel, pub_comp, unsub_ack,
}
use SubAck.{SubAckPacket, decode_sub_ack}

abbrev pub lift : {A : Type 0} → Decoded A → Reader A
lift r bytes = (r, bytes)

-- CONNACK.

pub record ConnAckHeader : Type 0 where
  pub ack_flags : ℕ
  pub return_code : ℕ

instance abbrev pub conn_ack_trivial : Trivial ConnAckHeader
conn_ack_trivial = record {
  size_of = 2;
  from_memory = λ bs. record { ack_flags = get_or bs 0 0; return_code = get_or bs 1 0 };
  to_memory = λ h. h.ack_flags ∷ h.return_code ∷ [];
  length-to_memory = λ t i. 2;
  from_memory-to_memory = λ t i. t;
}

-- `Result<bool, ServerConnectError>`
pub data ConnAckPacket : Type 0 where
  granted : Bool → ConnAckPacket
  denied : ServerConnectError → ConnAckPacket

unfoldable pub conn_ack_result : ConnAckHeader → ConnAckPacket
conn_ack_result h =
    if h.return_code == 0
    then granted (not (bit_and h.ack_flags 1 == 0))
    else if h.return_code == 1
    then denied unacceptable_protocol_version
    else if h.return_code == 2
    then denied identifier_rejected
    else if h.return_code == 3
    then denied server_unavailable
    else if h.return_code == 4
    then denied bad_user_name_or_password
    else if h.return_code == 5
    then denied not_authorized
    else denied (unknown h.return_code)

unfoldable pub decode_conn_ack : Reader ConnAckPacket
decode_conn_ack = do hdr ← read_trivial; pure (conn_ack_result hdr)

-- PUBLISH. The `Arc<[u8]>` holds this header, the topic and the payload, one behind the other.

pub record PublishPacketInfo : Type 0 where
  pub flags : PublishFlags
  pub packet_id : ℕ

pub record IncomingPublishPacket : Type 0 where
  pub topic_len : ℕ
  pub info : PublishPacketInfo
  pub contents : List ℕ

unfoldable pub topic : IncomingPublishPacket → List ℕ
topic p = take p.topic_len p.contents

unfoldable pub payload : IncomingPublishPacket → List ℕ
payload p = drop p.topic_len p.contents

-- The packet identifier, which only the higher qualities of service have.
abbrev pub read_id : Option Qos → Reader ℕ
read_id none = panic
read_id (some qos) =
    if qos_ge qos at_least_once then (do id ← read_u16; pure (to_native id)) else pure 0

unfoldable pub decode_publish : ControlField → Reader IncomingPublishPacket
decode_publish ctrl_field = do
  flags ← lift (try_from (Control.flags ctrl_field))
  topic ← read_utf8
  packet_id ← read_id (Control.qos flags)
  payload ← read_remaining
  pure (record {
    topic_len = length topic;
    info = record { flags = flags; packet_id = packet_id };
    contents = topic ++ payload;
  })

-- PUBACK, PUBREC, PUBREL, PUBCOMP and UNSUBACK.
unfoldable pub decode_simple : {kind : Simple} → Reader (SimplePacket kind)
decode_simple = do id ← read_u16; pure (record { packet_id = to_native id })

-- `IncomingPacket`, by the macro `def_incoming_packets`.
pub data IncomingPacket : Type 0 where
  conn_ack : ConnAckPacket → IncomingPacket
  sub_ack : SubAckPacket → IncomingPacket
  publish : IncomingPublishPacket → IncomingPacket
  acked : SimplePacket pub_ack → IncomingPacket
  received : SimplePacket pub_rec → IncomingPacket
  released : SimplePacket pub_rel → IncomingPacket
  completed : SimplePacket pub_comp → IncomingPacket
  unsubscribed : SimplePacket unsub_ack → IncomingPacket
  ping_resp : IncomingPacket

-- `IncomingPacket::packet_type`
unfoldable pub packet_type : IncomingPacket → PacketType
packet_type (conn_ack _) = PacketType.conn_ack
packet_type (sub_ack _) = PacketType.sub_ack
packet_type (publish _) = PacketType.publish
packet_type (acked _) = PacketType.pub_ack
packet_type (received _) = PacketType.pub_rec
packet_type (released _) = PacketType.pub_rel
packet_type (completed _) = PacketType.pub_comp
packet_type (unsubscribed _) = PacketType.unsub_ack
packet_type ping_resp = PacketType.ping_resp

abbrev pub read_as : {A : Type 0} → (A → IncomingPacket) → Reader A → Reader IncomingPacket
read_as name m = do a ← m; pure (name a)

unfoldable pub from_bytes : ControlField → Reader IncomingPacket
from_bytes ctrl_field =
    let id = Control.packet_type ctrl_field in
    if id == type_code PacketType.conn_ack
    then read_as conn_ack decode_conn_ack
    else if id == type_code PacketType.sub_ack
    then read_as sub_ack decode_sub_ack
    else if id == type_code PacketType.publish
    then read_as publish (decode_publish ctrl_field)
    else if id == type_code PacketType.pub_ack
    then read_as acked decode_simple
    else if id == type_code PacketType.pub_rec
    then read_as received decode_simple
    else if id == type_code PacketType.pub_rel
    then read_as released decode_simple
    else if id == type_code PacketType.pub_comp
    then read_as completed decode_simple
    else if id == type_code PacketType.unsub_ack
    then read_as unsubscribed decode_simple
    else if id == type_code PacketType.ping_resp
    then pure ping_resp
    else raise (invalid_packet_id id)
