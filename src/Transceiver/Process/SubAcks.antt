-- ===== src/Transceiver/Process/SubAcks.antt =====
-- SUBACK, `process_packet` of src/transceiver/mod.rs, up to the futures that wait for it.
use lmc_rs.Prelude.{
  ℕ, zero, suc, ◌≡◌, sym, ap, ◌∙◌, subst, Bool, true, false, Option, none, some, List, [], ◌∷◌,
  arith, get_elem?,
}
use lmc_rs.Prelude.Maps.{lookup, lookup-remove, lookup-insert, nat_eq, text_eq, text_beq_lem}
use lmc_rs.Errors.{Qos, IoResult, done}
use lmc_rs.Transport.{Transport}
use lmc_rs.Packets.Incoming.{sub_ack}
use lmc_rs.Packets.Incoming.SubAck
use lmc_rs.Packets.Incoming.SubAck.{SubAckPacket, SubscriptionResult, sub_results}
use lmc_rs.Subscription.Receivers.{Channels, add, set_subscribed}
use lmc_rs.Subscription.Topic.{heads}
use lmc_rs.Subscription.Tree.{get, present}
use lmc_rs.Subscription.Tree.Slots.{held}
use lmc_rs.Subscription.Tree.Update.{valid, get_or_create-get}
use lmc_rs.Shared.{Waker, existing, pending}
use lmc_rs.Futures.{ready}
use lmc_rs.Futures.Subscribe
use lmc_rs.Futures.Subscribe.{SubscribeFuture, Answer}
use lmc_rs.Transceiver.State.{
  Transceiver, PendingSub, Effect, woke, wake_all, or_panic, ◌>>=◌, continue, pure,
}
use lmc_rs.Transceiver.Process.{
  process_packet, handle, on_sub_ack, accept, asked_results, answer_sub, answer_pending,
}
use lmc_rs.Transceiver.Process.Acks.{process_packet-connected}
use lmc_rs.Transceiver.Shutdown.Futures.{was_woken}

was_woken-log :
    (w : Waker) (ws : List (Option Waker)) (log : List Effect)
    → was_woken w log ≡ true
    → was_woken w (wake_all ws log) ≡ true
was_woken-log w [] log h = h
was_woken-log w (none ∷ ws) log h = was_woken-log w ws log h
was_woken-log w (some v ∷ ws) log h = was_woken-log w ws (woke v ∷ log) (ground (arith, h))

was_woken-waiting :
    (w i : ℕ) (ws : List (Option Waker)) (log : List Effect)
    → get_elem? ws i ≡ some (some w)
    → was_woken w (wake_all ws log) ≡ true
was_woken-waiting w i [] log h = absurd cc
was_woken-waiting w zero (none ∷ ws) log h = absurd cc
was_woken-waiting w zero (some v ∷ ws) log h = was_woken-log w ws (woke v ∷ log) (ground (arith, h))
was_woken-waiting w (suc i) (none ∷ ws) log h = was_woken-waiting w i ws log h
was_woken-waiting w (suc i) (some v ∷ ws) log h = was_woken-waiting w i ws (woke v ∷ log) h

module _ {S : Type 0} where
  -- A task that waits for the answer, of which the map of subscriptions knows the waker.
  abbrev pub Waits : SubscribeFuture → Waker → Transceiver S → Type 0
  Waits f w m =
      (f.result ≡ none)
      × ((ws : List (Option Waker)) × (i : ℕ) × (lookup f.topic m.shared.subs ≡ some (pending ws))
          × (get_elem? ws i ≡ some (some w)))

  -- The task is woken, and its future reports an answer.
  abbrev pub Answered : Answer → SubscribeFuture → Waker → Waker → Transceiver S → Type 0
  Answered answer f w v n =
      (was_woken w n.log ≡ true)
      × (Subscribe.poll v f n.shared.subs
          ≡ some (ready answer, record f { result = some answer }, n.shared.subs))

  on_sub_ack-accepts :
      (m : Transceiver S) (a : SubAckPacket) (sub : PendingSub) (results : List SubscriptionResult)
      → lookup a.packet_id m.pending_subs ≡ some sub
      → sub_results a ≡ some results
      → on_sub_ack a m ≡ accept a results m
  unfolding on_sub_ack asked_results
  on_sub_ack-accepts m a sub results h e =
      ap (λ o. (or_panic (asked_results a o) >>= accept a) m) h
      ∙ ap (λ o. (or_panic o >>= accept a) m) e

  on_sub_ack-granted :
      (m : Transceiver S) (a : SubAckPacket) (sub : PendingSub) (qos : Qos)
      (more : List SubscriptionResult) (f : SubscribeFuture) (w v : Waker)
      → lookup a.packet_id m.pending_subs ≡ some sub
      → sub_results a ≡ some (SubAck.granted qos ∷ more)
      → f.topic ≡ sub.topic
      → Waits f w m
      → Answered (Subscribe.granted qos) f w v (on_sub_ack a m).1
  unfolding on_sub_ack accept asked_results answer_sub Subscribe.poll
  on_sub_ack-granted m a sub qos more f w v h e k g = ground (
    arith,
    h,
    e,
    k,
    g.0,
    g.1.2,
    lookup-insert sub.topic sub.topic (existing qos) m.shared.subs,
    text_beq_lem sub.topic sub.topic,
    was_woken-waiting w g.1.1 g.1.0 m.log g.1.3,
  )

  on_sub_ack-refused :
      (m : Transceiver S) (a : SubAckPacket) (sub : PendingSub) (more : List SubscriptionResult)
      (f : SubscribeFuture) (w v : Waker)
      → lookup a.packet_id m.pending_subs ≡ some sub
      → sub_results a ≡ some (SubAck.refused ∷ more)
      → f.topic ≡ sub.topic
      → Waits f w m
      → Answered Subscribe.refused f w v (on_sub_ack a m).1
  unfolding on_sub_ack accept asked_results answer_sub Subscribe.poll
  on_sub_ack-refused m a sub more f w v h e k g = ground (
    arith,
    h,
    e,
    k,
    g.0,
    g.1.2,
    lookup-remove sub.topic sub.topic m.shared.subs,
    text_beq_lem sub.topic sub.topic,
    was_woken-waiting w g.1.1 g.1.0 m.log g.1.3,
  )

  on_sub_ack-get :
      (m : Transceiver S) (a : SubAckPacket) (sub : PendingSub) (qos : Qos)
      (more : List SubscriptionResult)
      → lookup a.packet_id m.pending_subs ≡ some sub
      → sub_results a ≡ some (SubAck.granted qos ∷ more)
      → valid (heads sub.topic) ≡ true
      → get sub.topic (on_sub_ack a m).1.subscriptions
        ≡ present (add sub.kind (set_subscribed (held (get sub.topic m.subscriptions))))
  unfolding on_sub_ack accept asked_results answer_sub
  on_sub_ack-get m a sub qos more h e k =
      ap (λ r. get sub.topic r.1.subscriptions) (on_sub_ack-accepts m a sub _ h e)
      ∙ ap
          (λ o.
            get sub.topic
              (answer_pending (SubAck.granted qos ∷ more) o m.subscriptions m.shared.subs).0)
          h
      ∙ (get_or_create-get (λ s. add sub.kind (set_subscribed s)) sub.topic m.subscriptions).1 k

module _ (t : Transport) (c : Channels) (now : ℕ) where
  process_packet-sub_ack :
      (m : Transceiver t.State) (a : SubAckPacket) (sub : PendingSub)
      (results : List SubscriptionResult)
      → m.connecting ≡ false
      → lookup a.packet_id m.pending_subs ≡ some sub
      → sub_results a ≡ some results
      → process_packet t c now (sub_ack a) m ≡ (done false, (on_sub_ack a m).1)
  unfolding handle accept
  process_packet-sub_ack m a sub results h p e =
      let accepts = on_sub_ack-accepts m a sub results p e in
      process_packet-connected t c now (sub_ack a) m h
      ∙ ap (λ r. continue r.0 (λ _. pure false) r.1) accepts
      ∙ ap (λ (r : IoResult (Unit {0}) × Transceiver t.State). (done false, r.1)) (sym accepts)

  -- A SUBACK that grants a pending subscription with a valid topic subscribes the topic, with the receiver
  -- that asked for it besides the ones that it has; each task that waits for the answer is woken and its
  -- future reports the quality of service that the broker granted.
  pub process_packet-granted :
      (m : Transceiver t.State) (a : SubAckPacket) (sub : PendingSub) (qos : Qos)
      (more : List SubscriptionResult) (f : SubscribeFuture) (w v : Waker)
      → m.connecting ≡ false
      → lookup a.packet_id m.pending_subs ≡ some sub
      → sub_results a ≡ some (SubAck.granted qos ∷ more)
      → valid (heads sub.topic) ≡ true
      → f.topic ≡ sub.topic
      → Waits f w m
      → let n = (process_packet t c now (sub_ack a) m).1 in
        (get sub.topic n.subscriptions
          ≡ present (add sub.kind (set_subscribed (held (get sub.topic m.subscriptions)))))
        × Answered (Subscribe.granted qos) f w v n
  unfolding handle on_sub_ack accept asked_results
  process_packet-granted m a sub qos more f w v h p e k g y =
      let P = λ (r : IoResult Bool × Transceiver t.State).
        (get sub.topic r.1.subscriptions
          ≡ present (add sub.kind (set_subscribed (held (get sub.topic m.subscriptions)))))
        × Answered (Subscribe.granted qos) f w v r.1 in
      subst P (sym (process_packet-sub_ack m a sub _ h p e))
        (on_sub_ack-get m a sub qos more p e k, on_sub_ack-granted m a sub qos more f w v p e g y)

  -- A SUBACK that refuses a pending subscription leaves the tree of subscriptions as it is; each task that
  -- waits for the answer is woken and its future reports the refusal.
  pub process_packet-refused :
      (m : Transceiver t.State) (a : SubAckPacket) (sub : PendingSub)
      (more : List SubscriptionResult) (f : SubscribeFuture) (w v : Waker)
      → m.connecting ≡ false
      → lookup a.packet_id m.pending_subs ≡ some sub
      → sub_results a ≡ some (SubAck.refused ∷ more)
      → f.topic ≡ sub.topic
      → Waits f w m
      → let n = (process_packet t c now (sub_ack a) m).1 in
        (n.subscriptions ≡ m.subscriptions) × Answered Subscribe.refused f w v n
  unfolding handle on_sub_ack accept asked_results answer_sub
  process_packet-refused m a sub more f w v h p e g y =
      let P = λ (r : IoResult Bool × Transceiver t.State).
        (r.1.subscriptions ≡ m.subscriptions) × Answered Subscribe.refused f w v r.1 in
      subst P (sym (process_packet-sub_ack m a sub _ h p e))
        (ground (arith, p, e), on_sub_ack-refused m a sub more f w v p e g y)
