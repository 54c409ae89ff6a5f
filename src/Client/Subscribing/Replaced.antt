-- ===== src/Client/Subscribing/Replaced.antt =====
-- A `SubscribeFuture` of src/futures.rs whose topic is refused and subscribed to anew, by the task of
-- src/transceiver/mod.rs and by `Client::subscribe` of src/lib.rs, before the future is polled again.
use lmc_rs.Prelude.{ℕ, ◌≡◌, ap, ◌∙◌, none, some, List, [], ◌∷◌, arith, false}
use lmc_rs.Prelude.Maps.{
  lookup, lookup-insert, lookup-remove, nat_eq, text_eq, text_beq_lem, insert,
}
use lmc_rs.Errors.{Qos}
use lmc_rs.Transport.{Transport}
use lmc_rs.Packets.Incoming.{sub_ack}
use lmc_rs.Packets.Incoming.SubAck
use lmc_rs.Packets.Incoming.SubAck.{SubAckPacket, SubscriptionResult, sub_results}
use lmc_rs.Subscription.Receivers.{Channels}
use lmc_rs.Shared.{ClientShared, pending, Waker}
use lmc_rs.Futures.{ready}
use lmc_rs.Futures.Subscribe
use lmc_rs.Futures.Subscribe.{SubscribeFuture}
use lmc_rs.Transceiver.State.{Transceiver, PendingSub}
use lmc_rs.Transceiver.Process.{
  process_packet, handle, on_sub_ack, accept, asked_results, answer_sub,
}
use lmc_rs.Transceiver.Process.Acks.{process_packet-connected}
use lmc_rs.Client.Subscribing.{Func, start}
use lmc_rs.Client.Subscribing.Later.{LeavesSubs}
use lmc_rs.Client.Subscribing.Terminated.{start-absent}

module _ (t : Transport) (c : Channels) (now : ℕ) where
  -- The entry of a refused topic is gone.
  process_packet-forgets :
      (m : Transceiver t.State) (a : SubAckPacket) (sub : PendingSub)
      (more : List SubscriptionResult)
      → m.connecting ≡ false
      → lookup a.packet_id m.pending_subs ≡ some sub
      → sub_results a ≡ some (SubAck.refused ∷ more)
      → lookup sub.topic (process_packet t c now (sub_ack a) m).1.shared.subs ≡ none
  unfolding handle on_sub_ack accept asked_results answer_sub
  process_packet-forgets m a sub more h p e =
      ap (λ r. lookup sub.topic r.1.shared.subs) (process_packet-connected t c now (sub_ack a) m h)
      ∙ ground (
        arith,
        p,
        e,
        lookup-remove sub.topic sub.topic m.shared.subs,
        text_beq_lem sub.topic sub.topic,
      )

-- An index panics where no waker is.
kept-panics :
    (v : Waker) (f : SubscribeFuture) (i : ℕ) (s : ClientShared)
    → f.result ≡ none
    → f.waker_index ≡ some i
    → lookup f.topic s.subs ≡ some (pending [])
    → (Subscribe.poll v f s.subs ≡ none) × (Subscribe.drop f s.subs ≡ none)
unfolding Subscribe.poll Subscribe.drop
kept-panics v f i s fresh kept e = (ground (arith, fresh, kept, e), ground (arith, fresh, kept, e))

gone-refused :
    (v : Waker) (f : SubscribeFuture) (s : ClientShared)
    → f.result ≡ none
    → lookup f.topic s.subs ≡ none
    → Subscribe.poll v f s.subs
      ≡ some (ready Subscribe.refused, record f { result = some Subscribe.refused }, s.subs)
unfolding Subscribe.poll
gone-refused v f s fresh e = ground (arith, fresh, e)

-- When a SUBACK that a connected task reads refuses the pending subscription of a topic, a future that awaits it and has been polled
-- before reports the refusal if it is polled next; but if another call of `subscribe` for the topic comes
-- first, the poll of the future panics, and so does its end without one. The
-- method of that call that makes its receiver is only to leave the map of subscriptions alone.
pub poll-replaced :
    {R : Type 0} (t : Transport) (c : Channels) (now : ℕ) (func : Func R) (qos : Qos)
    (m : Transceiver t.State) (a : SubAckPacket) (sub : PendingSub) (more : List SubscriptionResult)
    (f : SubscribeFuture) (i : ℕ) (v : Waker)
    → LeavesSubs func
    → m.connecting ≡ false
    → lookup a.packet_id m.pending_subs ≡ some sub
    → sub_results a ≡ some (SubAck.refused ∷ more)
    → f.topic ≡ sub.topic
    → f.result ≡ none
    → f.waker_index ≡ some i
    → let s = (process_packet t c now (sub_ack a) m).1.shared in
      let r = (start func f.topic qos s).1 in
      (Subscribe.poll v f s.subs
        ≡ some (ready Subscribe.refused, record f { result = some Subscribe.refused }, s.subs))
      × (Subscribe.poll v f r.subs ≡ none)
      × (Subscribe.drop f r.subs ≡ none)
poll-replaced t c now func qos m a sub more f i v leaves h p e same fresh kept =
    let s = (process_packet t c now (sub_ack a) m).1.shared in
    let gone : lookup f.topic s.subs ≡ none =
      ap (λ k. lookup k s.subs) same ∙ process_packet-forgets t c now m a sub more h p e in
    let anew : lookup f.topic (start func f.topic qos s).1.subs ≡ some (pending []) =
      ap (λ r. lookup f.topic r.1.subs) (start-absent func f.topic qos s gone)
      ∙ ap (lookup f.topic) (leaves (record s { subs = insert f.topic (pending []) s.subs }))
      ∙ ground (
        arith,
        lookup-insert f.topic f.topic (pending []) s.subs,
        text_beq_lem f.topic f.topic,
      ) in
    let panics = kept-panics v f i (start func f.topic qos s).1 fresh kept anew in
    (gone-refused v f s fresh gone, panics.0, panics.1)
