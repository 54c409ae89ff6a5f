-- ===== src/Packets/Broker/Connect.antt =====
-- `IncomingConnectPacket`.
use lmc_rs.Prelude.{
  ℕ, ◌/◌, ◌^◌, Bool, true, false, not, ◌&&◌, Option, none, some, List, bit_and, ◌==◌, if◌then◌else◌,
}
use lmc_rs.Errors.{Qos, at_most_once, at_least_once, exactly_once}
use lmc_rs.ByteIo.{
  Reader, ◌>>=◌, ◌>>◌, pure, panic, read_trivial, read_byte_array, read_utf8, to_native,
}
use lmc_rs.Packets.Control.{ControlField, flags}
use lmc_rs.Packets.Outgoing.Connect.{
  ConnectHeader, header_trivial, mqtt, user_name_flag, password_flag, will_retain_flag,
  will_qos_pos, will_flag, clean_session_flag,
}

pub record IncomingLastWill : Type 0 where
  pub topic : List ℕ
  pub message : List ℕ
  pub retain : Bool
  pub qos : Qos

pub record IncomingConnectPacket : Type 0 where
  pub clean_session : Bool
  pub keep_alive : ℕ
  pub client_id : List ℕ
  pub will : Option IncomingLastWill
  pub username : Option (List ℕ)
  pub password : Option (List ℕ)

abbrev pub assert : Bool → Reader (Unit {0})
assert true = pure tt
assert false = panic

abbrev pub is_mqtt : ℕ × ℕ × ℕ × ℕ → Bool
is_mqtt (a, b, c, d) = a == mqtt.0 && b == mqtt.1 && c == mqtt.2 && d == mqtt.3

-- A flag of the header, `(flags & bit) != 0`.
abbrev pub has : ℕ → ℕ → Bool
has bits bit = not (bit_and bits bit == 0)

unfoldable pub will_qos : ℕ → Reader Qos
will_qos bits =
    let code = bit_and (bits / 2 ^ will_qos_pos) 3 in
    if code == 0
    then pure at_most_once
    else if code == 1
    then pure at_least_once
    else if code == 2
    then pure exactly_once
    else panic

abbrev read_if : {A : Type 0} → Bool → Reader A → Reader (Option A)
read_if true m = do a ← m; pure (some a)
read_if false m = pure none

unfoldable pub read_will : ℕ → Reader IncomingLastWill
unfolding will_qos
read_will bits = do
  topic ← read_utf8
  message ← read_byte_array
  qos ← will_qos bits
  pure (record { topic = topic; message = message; retain = has bits will_retain_flag; qos = qos })

unfoldable pub decode_connect : ControlField → Reader IncomingConnectPacket
decode_connect ctrl_field = do
  assert (flags ctrl_field == 0)
  hdr ← read_trivial {T = ConnectHeader}
  assert (to_native hdr.protocol_name_len == 4)
  assert (is_mqtt hdr.protocol_name)
  assert (hdr.protocol_level == 4)
  client_id ← read_utf8
  will ← read_if (has hdr.connect_flags will_flag) (read_will hdr.connect_flags)
  username ← read_if (has hdr.connect_flags user_name_flag) read_utf8
  password ← read_if (has hdr.connect_flags password_flag) read_byte_array
  pure (record {
    clean_session = has hdr.connect_flags clean_session_flag;
    keep_alive = to_native hdr.keep_alive;
    client_id = client_id;
    will = will;
    username = username;
    password = password;
  })
