-- ===== src/Examples/Exchanges.antt =====
-- Acknowledgements, and a message from the client on.
use lmc_rs.Prelude.{◌≡◌, refl, none, some, [], ◌∷◌, true, false}
use lmc_rs.Errors.{done, at_most_once, at_least_once}
use lmc_rs.Packets.Outgoing.Requests.{pub_ack, pub_comp}
use lmc_rs.Packets.Incoming.{acked, completed, sub_ack}
use lmc_rs.Packets.Incoming.SubAck
use lmc_rs.Packets.Incoming.SubAck.{SubAckPacket, SubscriptionResultList, dynamic, sub_results}
use lmc_rs.Subscription.Topic.{heads}
use lmc_rs.Subscription.Tree.{get}
use lmc_rs.Subscription.Tree.Update.{valid}
use lmc_rs.Futures.Publish.{PublishFuture, ack, comp}
use lmc_rs.Futures.Subscribe.{SubscribeFuture}
use lmc_rs.Futures.Subscribe
use lmc_rs.Transceiver.Ids
use lmc_rs.Transceiver.Process.{process_packet, new_simple}
use lmc_rs.Transceiver.Process.Acks.{Settled, NotResent, process_packet-completed}
use lmc_rs.Transceiver.Process.SubAcks.{Waits, Answered, process_packet-refused}
use lmc_rs.Packets.Outgoing.Publish.{encode_publish, publish_size}
use lmc_rs.Packets.Outgoing.{array_size}
use lmc_rs.Packets.Control
use lmc_rs.Packets.Control.{from_type_and_flags, PublishFlags}
use lmc_rs.Packets.Frame.{make_packet, encode_packet_size}
use lmc_rs.ByteIo.{finish_and_check, write_u16, write_trivial, write_bytes, write_bytes_no_len}
use lmc_rs.Futures.Publish.{rec}
use lmc_rs.Futures.Publish
use lmc_rs.Futures.{not_ready, ready}
use lmc_rs.Client.Subscribing.{start, subscribe_void}
use lmc_rs.Client.Subscribing.Replaced.{poll-replaced}
use lmc_rs.Transceiver.Writing
use lmc_rs.Transceiver.Process.Received.{Replaced}
use lmc_rs.Client.Invalid.{on_subscribe-invalid}
use lmc_rs.Prelude.Maps.{insert, text_eq}
use lmc_rs.Shared.{pending}
use lmc_rs.Commands.{SubscribeCommand}
use lmc_rs.Subscription.Receivers.{void}
use lmc_rs.Subscription.Tree.{get_from, kind, invalid}
use lmc_rs.Transceiver.Step.{on_subscribe}
use lmc_rs.Client.{
  begin_subscribe, get_subscription_status, waiting, Message, publish_qos_1, make_publish_cmd,
}
use lmc_rs.Client.Delivery.{after_publish, publish_qos_1-acked}
use lmc_rs.Commands.{PublishCommand}
use lmc_rs.Shared.{ClientShared, without_waker}
use lmc_rs.Examples.Scripted.{script}
use lmc_rs.Examples.States.{shared, channels, working, topic, asked}

abbrev future : PublishFuture
future = record { packet_id = 7; result = none }

abbrev last : PublishFuture
last = record { packet_id = 6; result = none }

process_packet-completed_example :
    let r = process_packet script channels 100 (completed (new_simple pub_comp 6)) working in
    (r.0 ≡ done false)
    × (r.1.outbox ≡ working.outbox)
    × Settled comp (Ids.pub_rel 6) last 5 8 r.1
    × NotResent script (Ids.pub_rel 6) r.1
process_packet-completed_example =
    process_packet-completed script channels 100 working last 5 8 refl (λ e. cc) refl refl

abbrev subscriber : SubscribeFuture
subscriber = record { topic = topic; waker_index = some 1; result = none }

subscriber-Waits : Waits subscriber 9 working
subscriber-Waits = (refl, (none ∷ some 9 ∷ [], 1, refl, refl))

abbrev yes : SubAckPacket
yes = record { packet_id = 11; results = dynamic (SubAck.granted at_most_once ∷ []) }

abbrev no : SubAckPacket
no = record { packet_id = 11; results = dynamic (SubAck.refused ∷ []) }

yes_results : sub_results yes ≡ some (SubAck.granted at_most_once ∷ [])
unfolding sub_results
yes_results = refl

no_results : sub_results no ≡ some (SubAck.refused ∷ [])
unfolding sub_results
no_results = refl

topic_valid : valid (heads topic) ≡ true
unfolding valid heads
topic_valid = refl

process_packet-refused_example :
    let n = (process_packet script channels 100 (sub_ack no) working).1 in
    (n.subscriptions ≡ working.subscriptions) × Answered Subscribe.refused subscriber 9 8 n
process_packet-refused_example =
    process_packet-refused script channels 100 working no asked [] subscriber 9 8 refl refl
      no_results refl subscriber-Waits

poll-replaced_example :
    let s = (process_packet script channels 100 (sub_ack no) working).1.shared in
    let r = (start subscribe_void topic at_most_once s).1 in
    (Subscribe.poll 8 subscriber s.subs
      ≡ some
          (ready Subscribe.refused, record subscriber { result = some Subscribe.refused }, s.subs))
    × (Subscribe.poll 8 subscriber r.subs ≡ none)
    × (Subscribe.drop subscriber r.subs ≡ none)
poll-replaced_example =
    poll-replaced script channels 100 subscribe_void at_most_once working no asked [] subscriber 1 8
      (λ s. refl) refl refl no_results refl refl refl

abbrev hello : Message
hello = record { topic = topic; payload = 1 ∷ []; qos = at_least_once; retain = false }

abbrev hello_cmd : PublishCommand
hello_cmd = record {
  packet_id = 8;
  qos = at_least_once;
  packet = 0x32 ∷ 6 ∷ 0 ∷ 1 ∷ 97 ∷ 0 ∷ 8 ∷ 1 ∷ [];
}

abbrev hello_future : PublishFuture
hello_future = record { packet_id = 8; result = none }

abbrev hello_shared : ClientShared
hello_shared = record shared {
  next_packet_id = 9;
  notify_ack = (8, without_waker) ∷ shared.notify_ack;
}

hello_begun :
    publish_qos_1 hello true working.shared ≡ some (hello_cmd, some hello_future, hello_shared)
unfolding publish_qos_1 make_publish_cmd Control.new Control.qos make_packet publish_size array_size
    encode_publish encode_packet_size finish_and_check write_u16 write_bytes write_bytes_no_len
    write_trivial from_type_and_flags Publish.new
hello_begun = refl

publish_qos_1-acked_example :
    let n = after_publish script 200 1 hello_cmd hello_future hello_shared working in
    let r = process_packet script channels 300 (acked (new_simple pub_ack 8)) n in
    ((Publish.poll 1 hello_future hello_shared.notify_ack).0 ≡ not_ready)
    × (r.0 ≡ done false)
    × (r.1.outbox ≡ n.outbox)
    × Settled ack (Ids.publish 8) hello_future 1 2 r.1
    × NotResent script (Ids.publish 8) r.1
publish_qos_1-acked_example =
    publish_qos_1-acked script channels 200 300 hello 1 2 hello_cmd hello_future hello_shared
      working refl hello_begun

abbrev wrong : SubscribeCommand
wrong = record { topic = 35 ∷ 47 ∷ 98 ∷ []; qos = at_most_once; kind = void }

wrong_refused : get wrong.topic working.subscriptions ≡ invalid
unfolding get get_from heads kind
wrong_refused = refl

on_subscribe-invalid_example :
    let begun = record working { shared = (begin_subscribe wrong.topic working.shared).1 } in
    (on_subscribe script 100 wrong begun ≡ (done tt, begun))
    × (get_subscription_status wrong.topic begun.shared ≡ waiting)
    × (Subscribe.poll 4 (Subscribe.new wrong.topic) begun.shared.subs
        ≡ some (
          not_ready,
          record (Subscribe.new wrong.topic) { waker_index = some 0 },
          insert wrong.topic (pending (some 4 ∷ [])) begun.shared.subs,
        ))
on_subscribe-invalid_example = on_subscribe-invalid script 100 wrong 4 working refl wrong_refused
