-- ===== src/Transceiver/Process/Respects.antt =====
-- The handlers of src/transceiver/mod.rs respect what their parts respect.
use lmc_rs.Prelude.{Bool, ℕ, true, false, Option, none, some}
use lmc_rs.Prelude.Maps.{lookup}
use lmc_rs.Errors.{Qos, at_most_once, at_least_once, exactly_once}
use lmc_rs.Transport.{Transport}
use lmc_rs.Packets.Control
use lmc_rs.Packets.Outgoing.Requests.{pub_ack, pub_rec, pub_rel, pub_comp, encode_simple_packet}
use lmc_rs.Packets.Incoming.{
  IncomingPacket, IncomingPublishPacket, conn_ack, sub_ack, publish, acked, received, released,
  completed, unsubscribed, ping_resp,
}
use lmc_rs.Subscription.Receivers.{Channels}
use lmc_rs.Futures.Publish.{ack, rec, comp}
use lmc_rs.Transceiver.Ids
use lmc_rs.Transceiver.Ids.{IdType, id_eq}
use lmc_rs.Transceiver.State.{◌>>=◌, Transceiver, ◌>>◌, pure}
use lmc_rs.Transceiver.Sending.{make, queue_internal_packet, notify_stage}
use lmc_rs.Transceiver.Process.{
  when_connecting, when, new_simple, on_pub_ack, on_pub_comp, on_unsub_ack, answer_exactly_once,
  on_qos, on_publish, answer_pub_rec, on_pub_rec, on_pub_rel, first_packet, handle, process_packet,
}
use lmc_rs.Transceiver.Process.Rules.{
  Relation, Rules, Respects, bind-Respects, with_timeout-Respects, resend_or-Respects,
  clear_and-Respects, notify-Respects, make_and-Respects, on_sub_ack-Respects,
}

-- What the handling of a packet may remove or dispatch.
abbrev pub Allowed : (IdType → Type 0) → (IncomingPublishPacket → Type 0) → IncomingPacket → Type 0
Allowed Forgets Delivers (publish msg) = Delivers msg
Allowed Forgets Delivers (acked p) = Forgets (Ids.publish p.packet_id)
Allowed Forgets Delivers (received p) = Forgets (Ids.publish p.packet_id)
Allowed Forgets Delivers (released p) = Forgets (Ids.pub_rec p.packet_id)
Allowed Forgets Delivers (completed p) = Forgets (Ids.pub_rel p.packet_id)
Allowed Forgets Delivers (unsubscribed p) = Forgets (Ids.unsubscribe p.packet_id)
Allowed Forgets Delivers _ = Unit

module _ {t : Transport} {c : Channels} {R : Relation t.State} {Forgets : IdType → Type 0}
    {Delivers : IncomingPublishPacket → Type 0} (rules : Rules t c R Forgets Delivers)
    (now : ℕ) where
  answer_exactly_once-Respects :
      (msg : IncomingPublishPacket) → Delivers msg → Respects R (answer_exactly_once t c now msg)
  unfolding answer_exactly_once
  answer_exactly_once-Respects msg h m =
      resend_or-Respects rules now (lookup (Ids.pub_rec msg.info.packet_id) m.pending_packets) _
        (make_and-Respects rules (new_simple pub_rec msg.info.packet_id) _ (λ pkt.
          bind-Respects rules _ _
            (with_timeout-Respects rules now pkt (Ids.pub_rec msg.info.packet_id))
            (λ _ n. rules.delivers msg n h)))
        m

  on_qos-Respects :
      (qos : Option Qos) (msg : IncomingPublishPacket)
      → Delivers msg
      → Respects R (on_qos t c now qos msg)
  unfolding on_qos
  on_qos-Respects none msg h m = rules.stays m
  on_qos-Respects (some at_most_once) msg h m = rules.delivers msg m h
  on_qos-Respects (some at_least_once) msg h m =
      make_and-Respects rules (new_simple pub_ack msg.info.packet_id) _
        (λ pkt. bind-Respects rules _ _ (rules.sends pkt false) (λ _ n. rules.delivers msg n h)) m
  on_qos-Respects (some exactly_once) msg h m = answer_exactly_once-Respects msg h m

  answer_pub_rec-Respects : (id : ℕ) → Respects R (answer_pub_rec t c now id)
  unfolding answer_pub_rec
  answer_pub_rec-Respects id m =
      resend_or-Respects rules now (lookup (Ids.pub_rel id) m.pending_packets) _
        (make_and-Respects rules (new_simple pub_rel id) _
          (λ pkt. with_timeout-Respects rules now pkt (Ids.pub_rel id)))
        m

  on_pub_rec-Respects : (id : ℕ) → Forgets (Ids.publish id) → Respects R (on_pub_rec t c now id)
  unfolding on_pub_rec
  on_pub_rec-Respects id h = bind-Respects rules _ _ (answer_pub_rec-Respects id) (λ _.
      clear_and-Respects rules (Ids.publish id) (λ b. when b (notify_stage rec id)) h
        (notify-Respects rules rec id))

  on_pub_rel-Respects : (id : ℕ) → Forgets (Ids.pub_rec id) → Respects R (on_pub_rel t c now id)
  unfolding on_pub_rel
  on_pub_rel-Respects id h =
      clear_and-Respects rules (Ids.pub_rec id)
        (λ _. make (new_simple pub_comp id) >>= λ pkt. queue_internal_packet t pkt false) h
        (λ _.
          make_and-Respects rules (new_simple pub_comp id)
            (λ pkt. queue_internal_packet t pkt false) (λ pkt. rules.sends pkt false))

  handle-Respects :
      (pkt : IncomingPacket) → Allowed Forgets Delivers pkt → Respects R (handle t c now pkt)
  unfolding handle on_publish on_pub_ack on_pub_comp on_unsub_ack
  handle-Respects (conn_ack _) h = rules.stays
  handle-Respects (sub_ack a) h = on_sub_ack-Respects rules a
  handle-Respects (publish msg) h = on_qos-Respects (Control.qos msg.info.flags) msg h
  handle-Respects (acked p) h =
      clear_and-Respects rules (Ids.publish p.packet_id)
        (λ b. when b (notify_stage ack p.packet_id)) h (notify-Respects rules ack p.packet_id)
  handle-Respects (received p) h = on_pub_rec-Respects p.packet_id h
  handle-Respects (released p) h = on_pub_rel-Respects p.packet_id h
  handle-Respects (completed p) h =
      clear_and-Respects rules (Ids.pub_rel p.packet_id)
        (λ b. when b (notify_stage comp p.packet_id)) h (notify-Respects rules comp p.packet_id)
  handle-Respects (unsubscribed p) h =
      clear_and-Respects rules (Ids.unsubscribe p.packet_id) (λ _. pure tt) h (λ _. rules.stays)
  handle-Respects ping_resp h = rules.stays

  either-Respects :
      (b : Bool) (m : Transceiver t.State) (pkt : IncomingPacket)
      → Allowed Forgets Delivers pkt
      → R m (when_connecting b (first_packet pkt) (handle t c now pkt >> pure false) m).1
  either-Respects true m pkt h = rules.connects pkt m
  either-Respects false m pkt h =
      bind-Respects rules (handle t c now pkt) (λ _. pure false) (handle-Respects pkt h)
        (λ _. rules.stays) m

  pub process_packet-Respects :
      (pkt : IncomingPacket)
      → Allowed Forgets Delivers pkt
      → Respects R (process_packet t c now pkt)
  unfolding process_packet
  process_packet-Respects pkt h m = either-Respects m.connecting m pkt h
