-- ===== src/Client.antt =====
-- `Client` of src/lib.rs: what its methods do up to the command that they send, and the futures that they
-- await behind it. The command queue is tokio's, so that the outcome of a send is a parameter.
pub mod Delivery
pub mod Invalid
pub mod Subscribing
pub mod Host
pub mod Connecting
use lmc_rs.Prelude.{
  ℕ, Bool, true, false, Option, none, some, List, [], ◌∷◌, ◌==◌, if◌then◌else◌, ◌>>=◌,
}
use lmc_rs.Prelude.Maps.{text_eq, lookup, insert}
use lmc_rs.Errors.{
  Qos, at_most_once, at_least_once, exactly_once, qos_code, TryPublishError, PublishError,
}
use lmc_rs.Errors
use lmc_rs.Packets.Control
use lmc_rs.Packets.Frame.{make_packet}
use lmc_rs.Packets.Outgoing.Publish.{OutgoingPublishPacket, encode_publish_packet}
use lmc_rs.Subscription.Receivers.{SendResult, delivered, full, closed}
use lmc_rs.Shared.{
  ClientShared, SubscriptionState, existing, pending, take_packet_id, take_callback_id,
}
use lmc_rs.Commands.{PublishCommand, Command, fast_callback, immediate}
use lmc_rs.Commands
use lmc_rs.Futures.Publish.{
  PublishFuture, Stage, ack, rec, comp, access_notifier_map, set_notifier_map,
}
use lmc_rs.Futures.Publish

-- The topic, the payload, the quality of service and the flag to retain.
pub record Message : Type 0 where
  pub topic : List ℕ
  pub payload : List ℕ
  pub qos : Qos
  pub retain : Bool

abbrev pub packet_id_for : Qos → ClientShared → ℕ × ClientShared
packet_id_for qos s = if qos_code qos == 0 then (0, s) else take_packet_id s

abbrev pub outgoing : Message → ℕ → OutgoingPublishPacket
outgoing msg packet_id = record {
  flags = Control.new false msg.qos msg.retain;
  topic = msg.topic;
  packet_id = packet_id;
  payload = msg.payload;
}

-- `none` is a panic.
unfoldable pub make_publish_cmd : Message → ClientShared → Option (PublishCommand × ClientShared)
unfolding make_packet
make_publish_cmd msg s =
    let id = packet_id_for msg.qos s in
    make_packet (outgoing msg id.0) >>= λ packet.
    some (record { packet_id = id.0; qos = msg.qos; packet = packet }, id.1)

-- `try_publish` behind its `try_send`: `none` is `Ok(())`.
unfoldable pub try_publish_result : SendResult → Option TryPublishError
try_publish_result delivered = none
try_publish_result full = some Errors.queue_full
try_publish_result closed = some Errors.transceiver_task_terminated

-- The result of a send on the command queue, which fails once the task has ended: `none` is `Ok(())`. This is
-- all of `publish_no_wait` and `publish_qos_0` behind their command.
unfoldable pub send_result : SendResult → Option PublishError
send_result delivered = none
send_result full = none
send_result closed = some Errors.PublishError.transceiver_task_terminated

-- What `publish_qos_1` and `publish_qos_2` return behind their send; `ready` tells what the awaited future
-- reports, if there is one: whether the task has ended.
abbrev pub awaited : Option Bool → Option PublishError
awaited none = none
awaited (some false) = none
awaited (some true) = some Errors.PublishError.transceiver_task_terminated

unfoldable pub publish_result : SendResult → Option Bool → Option PublishError
unfolding send_result
publish_result sent ready = elim (send_result sent) [ none ↦ awaited ready | some e ↦ some e ]

unfoldable pub publish_no_wait : Message → ClientShared → Option (PublishCommand × ClientShared)
unfolding make_publish_cmd
publish_no_wait msg s = make_publish_cmd msg s

unfoldable pub publish_qos_0 : Message → ClientShared → Option (PublishCommand × ClientShared)
unfolding make_publish_cmd
publish_qos_0 msg s = make_publish_cmd (record msg { qos = at_most_once }) s

-- A method that awaits an event of its message makes the future before it sends the command.
abbrev pub await_stage :
    Option Stage
    → PublishCommand × ClientShared
    → PublishCommand × Option PublishFuture × ClientShared
await_stage none (cmd, s) = (cmd, none, s)
await_stage (some stage) (cmd, s) =
    let r = Publish.new cmd.packet_id (access_notifier_map stage s) in
    (cmd, some r.0, set_notifier_map stage r.1 s)

-- `publish_qos_1`; the flag is `await_ack`.
unfoldable pub publish_qos_1 :
    Message → Bool → ClientShared → Option (PublishCommand × Option PublishFuture × ClientShared)
unfolding make_publish_cmd Publish.new
publish_qos_1 msg await_ack s = make_publish_cmd (record msg { qos = at_least_once }) s >>= λ r.
    some (await_stage (if await_ack then some ack else none) r)

pub data PublishEvent : Type 0 where
  no_event received complete : PublishEvent

abbrev pub stage_of : PublishEvent → Option Stage
stage_of no_event = none
stage_of received = some rec
stage_of complete = some comp

unfoldable pub publish_qos_2 :
    Message
    → PublishEvent
    → ClientShared
    → Option (PublishCommand × Option PublishFuture × ClientShared)
unfolding make_publish_cmd Publish.new
publish_qos_2 msg await_event s = make_publish_cmd (record msg { qos = exactly_once }) s >>= λ r.
    some (await_stage (stage_of await_event) r)

-- How `subscribe` goes on: `DontWait`, `Before` and `After`.
pub data SubWait : Type 0 where
  dont_wait : Qos → SubWait
  before after : SubWait

abbrev pub begin_with : List ℕ → ClientShared → Option SubscriptionState → SubWait × ClientShared
begin_with topic s (some (existing qos)) = (dont_wait qos, s)
begin_with topic s (some (pending wakers)) = (before, s)
begin_with topic s none = (after, record s { subs = insert topic (pending []) s.subs })

-- The first part of `subscribe`, under the lock of the map.
unfoldable pub begin_subscribe : List ℕ → ClientShared → SubWait × ClientShared
begin_subscribe topic s = begin_with topic s (lookup topic s.subs)

pub data SubscriptionStatus : Type 0 where
  live waiting absent : SubscriptionStatus

abbrev pub status_of : Option SubscriptionState → SubscriptionStatus
status_of (some (existing qos)) = live
status_of (some (pending wakers)) = waiting
status_of none = absent

unfoldable pub get_subscription_status : List ℕ → ClientShared → SubscriptionStatus
get_subscription_status topic s = status_of (lookup topic s.subs)

-- The commands of `unsubscribe` and of `Callback::remove_callback` (src/subs.rs).
abbrev pub unsubscribe : List ℕ → Command
unsubscribe topic = Commands.unsub (record { topic = topic; kind = immediate })

pub record Callback : Type 0 where
  pub topic : List ℕ
  pub id : ℕ

abbrev pub remove_callback : Callback → Command
remove_callback cb = Commands.unsub (record { topic = cb.topic; kind = fast_callback cb.id })
