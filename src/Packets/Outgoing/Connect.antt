-- ===== src/Packets/Outgoing/Connect.antt =====
-- CONNECT.
use lmc_rs.Prelude.{
  ℕ, ◌+◌, ◌*◌, ◌%◌, ◌^◌, Bool, Option, none, some, List, [], ◌∷◌, bit_or, get_or, if◌then◌else◌,
  ◌>>=◌,
}
use lmc_rs.Errors.{Qos, qos_code}
use lmc_rs.ByteIo.{BigEndian, from_native, Trivial, ByteWriter, write_trivial, write_bytes}
use lmc_rs.Packets.Control.{PacketType}
use lmc_rs.Packets.Frame.{Encode}
use lmc_rs.Packets.Outgoing.{array_size, optional_size, write_optional}

abbrev pub user_name_flag : ℕ
user_name_flag = 128

abbrev pub password_flag : ℕ
password_flag = 64

abbrev pub will_retain_flag : ℕ
will_retain_flag = 32

abbrev pub will_qos_pos : ℕ
will_qos_pos = 3

abbrev pub will_flag : ℕ
will_flag = 4

abbrev pub clean_session_flag : ℕ
clean_session_flag = 2

pub record ConnectHeader : Type 0 where
  pub protocol_name_len : BigEndian
  pub protocol_name : ℕ × ℕ × ℕ × ℕ
  pub protocol_level : ℕ
  pub connect_flags : ℕ
  pub keep_alive : BigEndian

abbrev pub header_to_memory : ConnectHeader → List ℕ
header_to_memory h =
    h.protocol_name_len.first ∷ h.protocol_name_len.second ∷ h.protocol_name.0 ∷ h.protocol_name.1
    ∷ h.protocol_name.2 ∷ h.protocol_name.3 ∷ h.protocol_level ∷ h.connect_flags
    ∷ h.keep_alive.first ∷ h.keep_alive.second ∷ []

abbrev header_from_memory : List ℕ → ConnectHeader
header_from_memory bs = record {
  protocol_name_len = record { first = get_or bs 0 0; second = get_or bs 1 0 };
  protocol_name = (get_or bs 2 0, get_or bs 3 0, get_or bs 4 0, get_or bs 5 0);
  protocol_level = get_or bs 6 0;
  connect_flags = get_or bs 7 0;
  keep_alive = record { first = get_or bs 8 0; second = get_or bs 9 0 };
}

instance abbrev pub header_trivial : Trivial ConnectHeader
header_trivial = record {
  size_of = 10;
  from_memory = header_from_memory;
  to_memory = header_to_memory;
  length-to_memory = λ t i. 10;
  from_memory-to_memory = λ t i. t;
}

-- b"MQTT"
abbrev pub mqtt : ℕ × ℕ × ℕ × ℕ
mqtt = (b'M', b'Q', b'T', b'T')

-- src/options.rs
pub record LastWill : Type 0 where
  pub topic : List ℕ
  pub message : List ℕ
  pub retain : Bool
  pub qos : Qos

pub record ConnectPacket : Type 0 where
  pub clean_session : Bool
  pub keep_alive : ℕ
  pub client_id : List ℕ
  pub will : Option LastWill
  pub username : Option (List ℕ)
  pub password : Option (List ℕ)

abbrev pub will_size : Option LastWill → ℕ
will_size none = 0
will_size (some will) = array_size will.topic + array_size will.message

unfoldable pub connect_size : ConnectPacket → ℕ
unfolding array_size
connect_size p =
    10
    + array_size p.client_id
    + will_size p.will
    + optional_size p.username
    + optional_size p.password

abbrev pub set_if {ℓ} : {A : Type ℓ} → Option A → ℕ → ℕ → ℕ
set_if none bit flags = flags
set_if (some x) bit flags = bit_or flags bit

abbrev pub will_flags : Bool → Qos → ℕ → ℕ
will_flags retain qos flags =
    let flags' = bit_or (bit_or flags will_flag) (qos_code qos * 2 ^ will_qos_pos % 256) in
    if retain then bit_or flags' will_retain_flag else flags'

abbrev pub set_will : Option LastWill → ℕ → ℕ
set_will none flags = flags
set_will (some will) flags = will_flags will.retain will.qos flags

unfoldable pub connect_flags : ConnectPacket → ℕ
connect_flags p = set_if p.username user_name_flag (
    set_if p.password password_flag
      (set_will p.will (if p.clean_session then bit_or 0 clean_session_flag else 0)))

abbrev pub write_will : Option LastWill → ByteWriter → Option ByteWriter
write_will none wr = some wr
write_will (some will) wr = do wr ← write_bytes will.topic wr; write_bytes will.message wr

abbrev pub connect_header : ConnectPacket → ConnectHeader
connect_header p = record {
  protocol_name_len = from_native 4;
  protocol_name = mqtt;
  protocol_level = 4;
  connect_flags = connect_flags p;
  keep_alive = from_native p.keep_alive;
}

unfoldable pub encode_connect : ConnectPacket → ByteWriter → Option (ℕ × ByteWriter)
encode_connect p wr = do
  wr ← write_trivial (connect_header p) wr
  wr ← write_bytes p.client_id wr
  wr ← write_will p.will wr
  wr ← write_optional p.username wr
  wr ← write_optional p.password wr
  some (0, wr)

instance abbrev pub encode_connect_packet : Encode ConnectPacket
encode_connect_packet = record {
  packet_type = PacketType.connect;
  compute_size = λ p. some (connect_size p);
  encode = encode_connect;
}
