-- ===== src/Transceiver/Process/Repeats.antt =====
-- `process_packet` of src/transceiver/mod.rs on repeated messages.
use lmc_rs.Prelude.{
  ℕ, suc, ◌≤◌, ◌≡◌, ◌≢◌, refl, sym, ap, subst, Bool, true, false, Option, none, some, inl, inr,
  List, arith, Bool-cases,
}
use lmc_rs.Prelude.Maps.{lookup, lookup-insert}
use lmc_rs.Errors.{Qos, at_most_once, at_least_once, exactly_once, IoResult, done, failed, crashed}
use lmc_rs.Transport.{Transport}
use lmc_rs.Packets.Control
use lmc_rs.Packets.Frame.{make_packet}
use lmc_rs.Packets.Outgoing.Requests.{pub_rec, encode_simple_packet}
use lmc_rs.Packets.Incoming.{
  IncomingPacket, IncomingPublishPacket, conn_ack, sub_ack, publish, acked, received, released,
  completed, unsubscribed, ping_resp,
}
use lmc_rs.Subscription.Receivers.{Channels}
use lmc_rs.Transceiver.Ids
use lmc_rs.Transceiver.Ids.{IdType, id_beq_lem, id_eq}
use lmc_rs.Transceiver.State.{Transceiver, continue, or_panic, ◌>>=◌, ◌>>◌, pure}
use lmc_rs.Transceiver.Sending.{
  is_some, remember, queue_internal_packet, deliver, make, queue_internal_packet_with_timeout,
}
use lmc_rs.Transceiver.Process.{
  process_packet, first_packet, answer_exactly_once, new_simple, resend_or, on_publish, on_qos,
  handle, when_connecting,
}
use lmc_rs.Transceiver.Process.Respects.{process_packet-Respects}
use lmc_rs.Transceiver.Process.ExactlyOnce.{is_repeat, held, budget, Falls, rules}

module _ (t : Transport) (c : Channels) (now : ℕ) (id : ℕ) where
  deliver-bound :
      (msg : IncomingPublishPacket) (m : Transceiver t.State)
      → budget id (deliver c msg m).1 ≤ suc (budget id m)
  unfolding deliver
  deliver-bound msg m = ground arith

  continue-bound :
      (msg : IncomingPublishPacket) (r : IoResult (Unit {0})) (n : Transceiver t.State) (k : ℕ)
      → suc (budget id n) ≤ k
      → budget id (continue r (λ _. deliver c msg) n).1 ≤ k
  continue-bound msg (done u) n k h = omega (arith, deliver-bound msg n)
  continue-bound msg (failed e) n k h = omega arith
  continue-bound msg crashed n k h = omega arith

  pure-bound :
      (r : IoResult (Unit {0})) (n : Transceiver t.State) (k : ℕ)
      → budget id n ≤ k
      → budget id (continue r (λ _. pure false) n).1 ≤ k
  pure-bound (done u) n k h = h
  pure-bound (failed e) n k h = h
  pure-bound crashed n k h = h

  budget-remember :
      (pkt : List ℕ) (m : Transceiver t.State)
      → held id m ≡ false
      → suc (budget id (remember now pkt (Ids.pub_rec id) m)) ≤ budget id m
  budget-remember pkt m h = ground (
    arith,
    lookup-insert (Ids.pub_rec id) (Ids.pub_rec id) pkt m.pending_packets,
    id_beq_lem (Ids.pub_rec id) (Ids.pub_rec id),
  )

  store_and_deliver-Falls :
      (msg : IncomingPublishPacket) (pkt : List ℕ) (m : Transceiver t.State)
      → held id m ≡ false
      → Falls id m
          ((queue_internal_packet_with_timeout t now pkt (Ids.pub_rec id) >> deliver c msg) m).1
  unfolding queue_internal_packet_with_timeout queue_internal_packet
  store_and_deliver-Falls msg pkt m h =
      continue-bound msg (queue_internal_packet_with_timeout t now pkt (Ids.pub_rec id) m).0
        (queue_internal_packet_with_timeout t now pkt (Ids.pub_rec id) m).1 (budget id m)
        (budget-remember pkt m h)

  make_and_deliver-Falls :
      (msg : IncomingPublishPacket) (o : Option (List ℕ)) (m : Transceiver t.State)
      → held id m ≡ false
      → Falls id m
          ((or_panic o >>= λ pkt.
              queue_internal_packet_with_timeout t now pkt (Ids.pub_rec id) >> deliver c msg)
            m).1
  make_and_deliver-Falls msg none m h = omega arith
  make_and_deliver-Falls msg (some pkt) m h = store_and_deliver-Falls msg pkt m h

  known-Falls :
      (msg : IncomingPublishPacket) (known : Option (List ℕ)) (m : Transceiver t.State)
      → is_some known ≡ held id m
      → Falls id m
          (resend_or t c now known
            (make (new_simple pub_rec id) >>= λ pkt.
              queue_internal_packet_with_timeout t now pkt (Ids.pub_rec id) >> deliver c msg)
            m).1
  unfolding make
  known-Falls msg none m h =
      make_and_deliver-Falls msg (make_packet (new_simple pub_rec id)) m (sym h)
  known-Falls msg (some pkt) m h = (rules t c id).sends pkt false m

module _ (t : Transport) (c : Channels) (now : ℕ) where
  answer-Falls :
      (msg : IncomingPublishPacket) (m : Transceiver t.State)
      → Falls msg.info.packet_id m (answer_exactly_once t c now msg m).1
  unfolding answer_exactly_once
  answer-Falls msg m =
      known-Falls t c now msg.info.packet_id msg
        (lookup (Ids.pub_rec msg.info.packet_id) m.pending_packets) m refl

  on_qos-Falls :
      (qos : Option Qos) (msg : IncomingPublishPacket) (m : Transceiver t.State)
      → qos ≡ some exactly_once
      → Falls msg.info.packet_id m (on_qos t c now qos msg m).1
  unfolding on_qos
  on_qos-Falls (some exactly_once) msg m e = answer-Falls msg m
  on_qos-Falls (some at_most_once) msg m e = absurd cc
  on_qos-Falls (some at_least_once) msg m e = absurd cc
  on_qos-Falls none msg m e = absurd cc

  repeat-qos :
      (id : ℕ) (msg : IncomingPublishPacket)
      → is_repeat id msg ≡ true
      → (Control.qos msg.info.flags ≡ some exactly_once) × (msg.info.packet_id ≡ id)
  repeat-qos id msg h = ground arith

  when_connecting-Falls :
      (b : Bool) (id : ℕ) (msg : IncomingPublishPacket) (m : Transceiver t.State)
      → is_repeat id msg ≡ true
      → Falls id m
          (when_connecting b
            (first_packet (publish msg))
            (handle t c now (publish msg) >> pure false)
            m).1
  unfolding handle on_publish
  when_connecting-Falls true id msg m h = (rules t c id).connects (publish msg) m
  when_connecting-Falls false id msg m h =
      let e = repeat-qos id msg h in
      let falls = on_qos-Falls (Control.qos msg.info.flags) msg m e.0 in
      pure-bound t c now id (handle t c now (publish msg) m).0 (handle t c now (publish msg) m).1
        (budget id m) (subst (λ k. Falls k m (handle t c now (publish msg) m).1) e.1 falls)

  publish-Falls :
      (id : ℕ) (msg : IncomingPublishPacket) (m : Transceiver t.State)
      → Falls id m (process_packet t c now (publish msg) m).1
  unfolding process_packet
  publish-Falls id msg m = elim (Bool-cases (is_repeat id msg)) [
    | inl e ↦ when_connecting-Falls m.connecting id msg m e
    | inr e ↦ process_packet-Respects (rules t c id) now (publish msg) e m
  ]

-- The packets that do not end the exchange of an identifier.
abbrev pub NotReleased : ℕ → IncomingPacket → Type 0
NotReleased id (released p) = p.packet_id ≢ id
NotReleased id _ = Unit

pub process_packet-Falls :
    (t : Transport) (c : Channels) (now id : ℕ) (pkt : IncomingPacket) (m : Transceiver t.State)
    → NotReleased id pkt
    → Falls id m (process_packet t c now pkt m).1
process_packet-Falls t c now id (publish msg) m h = publish-Falls t c now id msg m
process_packet-Falls t c now id (released p) m h =
    process_packet-Respects (rules t c id) now (released p) (λ e. h (ap (λ (j : IdType). j.id) e)) m
process_packet-Falls t c now id (acked p) m h =
    process_packet-Respects (rules t c id) now (acked p) (λ e. cc) m
process_packet-Falls t c now id (received p) m h =
    process_packet-Respects (rules t c id) now (received p) (λ e. cc) m
process_packet-Falls t c now id (completed p) m h =
    process_packet-Respects (rules t c id) now (completed p) (λ e. cc) m
process_packet-Falls t c now id (unsubscribed p) m h =
    process_packet-Respects (rules t c id) now (unsubscribed p) (λ e. cc) m
process_packet-Falls t c now id (conn_ack r) m h =
    process_packet-Respects (rules t c id) now (conn_ack r) tt m
process_packet-Falls t c now id (sub_ack a) m h =
    process_packet-Respects (rules t c id) now (sub_ack a) tt m
process_packet-Falls t c now id ping_resp m h =
    process_packet-Respects (rules t c id) now ping_resp tt m
