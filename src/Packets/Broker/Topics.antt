-- ===== src/Packets/Broker/Topics.antt =====
-- `IncomingSubscribePacket` and `IncomingUnsubPacket`.
use lmc_rs.Prelude.{ℕ, zero, suc, List, [], ◌∷◌, ◌++◌, length, ◌==◌, if◌then◌else◌}
use lmc_rs.Errors.{Qos, at_most_once, at_least_once, exactly_once}
use lmc_rs.ByteIo.{Reader, ◌>>=◌, ◌>>◌, pure, panic, read_u8, read_u16, read_utf8, to_native}
use lmc_rs.Packets.Control.{ControlField, flags}
use lmc_rs.Packets.Broker.Connect.{assert}

pub record IncomingSubscribePacket : Type 0 where
  pub packet_id : ℕ
  pub topics : List (List ℕ × Qos)

pub record IncomingUnsubPacket : Type 0 where
  pub packet_id : ℕ
  pub topics : List (List ℕ)

abbrev pub qos_of : ℕ → Reader Qos
qos_of code =
    if code == 0
    then pure at_most_once
    else if code == 1
    then pure at_least_once
    else if code == 2
    then pure exactly_once
    else panic

abbrev pub read_subscription : Reader (List ℕ × Qos)
read_subscription = do topic ← read_utf8; code ← read_u8; qos ← qos_of code; pure (topic, qos)

-- `while rd.remaining() > 0 { push(...) }`. Each round takes a byte or fails, so that the number of
-- bytes is fuel enough.
pub read_all : {A : Type 0} → ℕ → Reader A → List A → Reader (List A)
read_all fuel item out [] = pure out []
read_all zero item out (b ∷ bytes) = panic (b ∷ bytes)
read_all (suc fuel) item out (b ∷ bytes) =
    ◌>>=◌ item (λ a. read_all fuel item (out ++ (a ∷ []))) (b ∷ bytes)

unfoldable pub read_until_end : {A : Type 0} → Reader A → Reader (List A)
unfolding read_all
read_until_end item bytes = read_all (length bytes) item [] bytes

unfoldable pub decode_subscribe : ControlField → Reader IncomingSubscribePacket
decode_subscribe ctrl_field = do
  assert (flags ctrl_field == 2)
  id ← read_u16
  topics ← read_until_end read_subscription
  pure (record { packet_id = to_native id; topics = topics })

unfoldable pub decode_unsubscribe : ControlField → Reader IncomingUnsubPacket
decode_unsubscribe ctrl_field = do
  assert (flags ctrl_field == 2)
  id ← read_u16
  topics ← read_until_end read_utf8
  pure (record { packet_id = to_native id; topics = topics })
