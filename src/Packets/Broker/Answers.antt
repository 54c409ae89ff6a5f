-- ===== src/Packets/Broker/Answers.antt =====
-- The encoders of CONNACK and SUBACK.
use lmc_rs.Prelude.{
  ℕ, ◌+◌, Option, none, some, List, [], ◌∷◌, ◌++◌, length, leb, drop, replicate, if◌then◌else◌,
  ◌>>=◌,
}
use lmc_rs.Errors.{
  qos_code, unacceptable_protocol_version, identifier_rejected, server_unavailable,
  bad_user_name_or_password, not_authorized, unknown, protocol_error,
}
use lmc_rs.ByteIo.{ByteWriter, from_native, write_trivial, write_u8, write_u16}
use lmc_rs.Packets.Control.{PacketType}
use lmc_rs.Packets.Frame.{Encode}
use lmc_rs.Packets.Incoming.{ConnAckHeader, conn_ack_trivial, ConnAckPacket, granted, denied}
use lmc_rs.Packets.Incoming.SubAck
use lmc_rs.Packets.Incoming.SubAck.{
  SubscriptionResult, SubAckPacket, SubscriptionResultList, static, dynamic, refused,
  max_static_subs, sub_results,
}

-- The header's two bytes; `none` is the panic on an error that no server sends.
unfoldable pub conn_ack_codes : ConnAckPacket → Option ConnAckHeader
conn_ack_codes (granted x) = some (record { ack_flags = if x then 1 else 0; return_code = 0 })
conn_ack_codes (denied unacceptable_protocol_version) =
    some (record { ack_flags = 0; return_code = 1 })
conn_ack_codes (denied identifier_rejected) = some (record { ack_flags = 0; return_code = 2 })
conn_ack_codes (denied server_unavailable) = some (record { ack_flags = 0; return_code = 3 })
conn_ack_codes (denied bad_user_name_or_password) = some (record { ack_flags = 0; return_code = 4 })
conn_ack_codes (denied not_authorized) = some (record { ack_flags = 0; return_code = 5 })
conn_ack_codes (denied (unknown x)) = some (record { ack_flags = 0; return_code = x })
conn_ack_codes (denied protocol_error) = none

unfoldable pub encode_conn_ack : ConnAckPacket → ByteWriter → Option (ℕ × ByteWriter)
encode_conn_ack p wr = do hdr ← conn_ack_codes p; wr ← write_trivial hdr wr; some (0, wr)

instance abbrev pub encode_conn_ack_packet : Encode ConnAckPacket
encode_conn_ack_packet = record {
  packet_type = PacketType.conn_ack;
  compute_size = λ p. some 2;
  encode = encode_conn_ack;
}

-- `SubAckPacket::new`
unfoldable pub new_sub_ack : ℕ → List SubscriptionResult → SubAckPacket
new_sub_ack id results = record {
  packet_id = id;
  results =
      if leb (length results) max_static_subs
      then static (length results)
          (results ++ drop (length results) (replicate max_static_subs refused))
      else dynamic results;
}

abbrev pub result_code : SubscriptionResult → ℕ
result_code (SubAck.granted qos) = qos_code qos
result_code refused = 128

abbrev sub_ack_size : SubscriptionResultList → ℕ
sub_ack_size (static len values) = len + 2
sub_ack_size (dynamic values) = length values + 2

abbrev pub write_results : List SubscriptionResult → ByteWriter → Option ByteWriter
write_results [] wr = some wr
write_results (r ∷ rs) wr = do wr ← write_u8 (result_code r) wr; write_results rs wr

unfoldable pub encode_sub_ack : SubAckPacket → ByteWriter → Option (ℕ × ByteWriter)
encode_sub_ack p wr = do
  wr ← write_u16 (from_native p.packet_id) wr
  results ← sub_results p
  wr ← write_results results wr
  some (0, wr)

instance abbrev pub encode_sub_ack_packet : Encode SubAckPacket
encode_sub_ack_packet = record {
  packet_type = PacketType.sub_ack;
  compute_size = λ p. some (sub_ack_size p.results);
  encode = encode_sub_ack;
}
