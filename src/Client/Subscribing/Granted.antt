-- ===== src/Client/Subscribing/Granted.antt =====
-- From `Client::subscribe` of src/lib.rs to the SUBACK that grants the subscription: the client, the
-- transceiver's task and the future together.
use lmc_rs.Prelude.{
  ℕ, ◌≡◌, refl, sym, subst, ap, ◌∙◌, true, false, none, some, Option, List, [], ◌∷◌, arith,
}
use lmc_rs.Prelude.Maps.{lookup, lookup-insert, text_eq, text_beq_lem, nat_eq, insert}
use lmc_rs.Errors.{Qos, IoResult, done, failed, crashed}
use lmc_rs.Transport.{Transport}
use lmc_rs.Packets.Frame.{make_packet}
use lmc_rs.Packets.Incoming.{sub_ack}
use lmc_rs.Packets.Incoming.SubAck
use lmc_rs.Packets.Incoming.SubAck.{SubAckPacket, SubscriptionResult, sub_results}
use lmc_rs.Packets.Outgoing.Requests.{encode_subscribe_packet}
use lmc_rs.Subscription.Receivers.{Channels, SubscriptionKind, add, set_subscribed, delivered}
use lmc_rs.Subscription.Receivers
use lmc_rs.Subscription.Topic.{heads}
use lmc_rs.Subscription.Tree.{get, absent, present}
use lmc_rs.Subscription.Tree.Slots.{held}
use lmc_rs.Subscription.Tree.Update.{valid}
use lmc_rs.Shared.{ClientShared, pending, Waker}
use lmc_rs.Commands.{SubscribeCommand}
use lmc_rs.Futures.Subscribe
use lmc_rs.Futures.Subscribe.{SubscribeFuture}
use lmc_rs.Transceiver.State.{Transceiver, Timeout, continue, modify, or_panic, ◌>>=◌}
use lmc_rs.Transceiver.Sending.{make, try_send_packet}
use lmc_rs.Transceiver.Process.{process_packet}
use lmc_rs.Transceiver.Process.SubAcks.{Answered, process_packet-granted}
use lmc_rs.Transceiver.Shutdown.Futures.{was_woken}
use lmc_rs.Transceiver.Step.{
  on_subscribe, subscribe_found, new_subscription, start_subscription, new_subscribe, new_sub,
  new_timeout, push_timeout, push_sub, take_id,
}
use lmc_rs.Client.Subscribing.{Func, awaits_broker, sends, returns, start, sent, poll}
use lmc_rs.Client.Subscribing.Later.{LeavesSubs}
use lmc_rs.Client.Subscribing.Terminated.{start-absent}

module _ (t : Transport) (now : ℕ) where
  -- The command is stored under the identifier, and the rest that a SUBACK reads is as it was.
  abbrev Stored : SubscribeCommand → Transceiver t.State → Transceiver t.State → Type 0
  Stored cmd m n =
      (pkt : List ℕ) × (lookup m.shared.next_packet_id n.pending_subs ≡ some (new_sub cmd pkt))
      × (n.shared.subs ≡ m.shared.subs)
      × (n.subscriptions ≡ m.subscriptions)
      × (n.connecting ≡ m.connecting)

  push-Stored :
      (cmd : SubscribeCommand) (m n : Transceiver t.State) (to : Timeout) (r : IoResult (Unit {0}))
      → Stored cmd m n
      → Stored cmd m (continue r (λ _. modify (push_timeout to)) n).1
  push-Stored cmd m n to (done u) h = h
  push-Stored cmd m n to (failed e) h = h
  push-Stored cmd m n to crashed h = h

  start-Stored :
      (cmd : SubscribeCommand) (pkt : List ℕ) (m : Transceiver t.State)
      → Stored cmd m (start_subscription t now cmd m.shared.next_packet_id pkt (take_id m)).1
  unfolding try_send_packet
  start-Stored cmd pkt m =
      let id = m.shared.next_packet_id in
      let n = push_sub id (new_sub cmd pkt) (take_id m) in
      let r = try_send_packet t pkt false n in
      push-Stored cmd m r.1 (new_timeout now _) r.0 (
        pkt,
        ground (arith, lookup-insert id id (new_sub cmd pkt) m.pending_subs),
        refl,
        refl,
        refl,
      )

  made-Stored :
      (cmd : SubscribeCommand) (m : Transceiver t.State) (o : Option (List ℕ))
      → let r = (or_panic o >>= start_subscription t now cmd m.shared.next_packet_id) (take_id m) in
        r.0 ≡ done tt → Stored cmd m r.1
  made-Stored cmd m none e = absurd cc
  made-Stored cmd m (some pkt) e = start-Stored cmd pkt m

  on_subscribe-Stored :
      (cmd : SubscribeCommand) (m : Transceiver t.State)
      → get cmd.topic m.subscriptions ≡ absent
      → (on_subscribe t now cmd m).0 ≡ done tt
      → Stored cmd m (on_subscribe t now cmd m).1
  unfolding on_subscribe new_subscription make
  on_subscribe-Stored cmd m h =
      subst (λ found. let r = subscribe_found t now cmd found m in r.0 ≡ done tt → Stored cmd m r.1)
        (sym h)
        (made-Stored cmd m (make_packet (new_subscribe m.shared.next_packet_id cmd.topic cmd.qos)))

-- The future of `subscribe` once it has been polled, and the state that this leaves.
abbrev pub polled : List ℕ → SubscribeFuture
polled topic = record (Subscribe.new topic) { waker_index = some 0 }

abbrev pub with_waker : {S : Type 0} → List ℕ → Waker → Transceiver S → Transceiver S
with_waker topic w m = record m {
  shared = record m.shared { subs = insert topic (pending (some w ∷ [])) m.shared.subs };
}

module _ {R : Type 0} (func : Func R) (topic : List ℕ) (hint : Qos) where
  poll-registers :
      (w : Waker) (ret : R) (s : ClientShared)
      → lookup topic s.subs ≡ some (pending [])
      → poll func topic hint w (awaits_broker ret (Subscribe.new topic)) s
        ≡ some (
          awaits_broker ret (polled topic),
          record s { subs = insert topic (pending (some w ∷ [])) s.subs },
        )
  unfolding poll Subscribe.poll
  poll-registers w ret s h = ground (arith, h)

  poll-Answered :
      {S : Type 0} (w v : Waker) (ret : R) (qos : Qos) (n : Transceiver S)
      → Answered (Subscribe.granted qos) (polled topic) w v n
      → poll func topic hint v (awaits_broker ret (polled topic)) n.shared
        ≡ some (returns ret qos, n.shared)
  unfolding poll
  poll-Answered w v ret qos n h = ground (arith, h.1)

-- What `func` gives to the call that starts the subscription, and its command.
abbrev pub given :
    {R : Type 0} → Func R → List ℕ → ClientShared → (R × SubscriptionKind) × ClientShared
given func topic s = func (record s { subs = insert topic (pending []) s.subs })

abbrev pub command_of :
    {R : Type 0} → (R × SubscriptionKind) × ClientShared → List ℕ → Qos → SubscribeCommand
command_of made topic hint = record { topic = topic; qos = hint; kind = made.0.1 }

module _ (t : Transport) (c : Channels) (now later : ℕ) {R : Type 0} (func : Func R)
    (topic : List ℕ) (hint : Qos) where
  -- The task behind the command, and behind the SUBACK.
  unfoldable pub ordered : Transceiver t.State → IoResult (Unit {0}) × Transceiver t.State
  ordered m =
      let made = given func topic m.shared in
      on_subscribe t now (command_of made topic hint) (record m { shared = made.1 })

  unfoldable pub answered : Waker → SubAckPacket → Transceiver t.State → Transceiver t.State
  answered w a m = (process_packet t c later (sub_ack a) (with_waker topic w (ordered m).1)).1

  abbrev Outcome : Waker → Waker → Qos → R → SubscriptionKind → Transceiver t.State → Type 0
  Outcome w v qos ret kind n =
      (get topic n.subscriptions ≡ present (add kind (set_subscribed Receivers.default)))
      × (was_woken w n.log ≡ true)
      × (poll func topic hint v (awaits_broker ret (polled topic)) n.shared
          ≡ some (returns ret qos, n.shared))

  stored-Outcome :
      (w v : Waker) (m o : Transceiver t.State) (ret : R) (cmd : SubscribeCommand)
      (a : SubAckPacket) (qos : Qos) (more : List SubscriptionResult)
      → cmd.topic ≡ topic
      → m.connecting ≡ false
      → get topic m.subscriptions ≡ absent
      → valid (heads topic) ≡ true
      → Stored t now cmd m o
      → lookup topic o.shared.subs ≡ some (pending [])
      → a.packet_id ≡ m.shared.next_packet_id
      → sub_results a ≡ some (SubAck.granted qos ∷ more)
      → Outcome w v qos ret cmd.kind (process_packet t c later (sub_ack a) (with_waker topic w o)).1
  stored-Outcome w v m o ret cmd a qos more e connected unknown ok s waiting id granted =
      let sub = new_sub cmd s.0 in
      let known : lookup a.packet_id o.pending_subs ≡ some sub =
        ap (λ (i : ℕ). lookup i o.pending_subs) id ∙ s.1 in
      let registered : lookup topic (insert topic (pending (some w ∷ [])) o.shared.subs)
          ≡ some (pending (some w ∷ [])) =
        ground (
          arith,
          lookup-insert topic topic (pending (some w ∷ [])) o.shared.subs,
          text_beq_lem topic topic,
        ) in
      let r =
        process_packet-granted t c later (with_waker topic w o) a sub qos more (polled topic) w v
          (s.4 ∙ connected) known granted (ap (λ (x : List ℕ). valid (heads x)) e ∙ ok) (sym e)
          (refl, (some w ∷ [], 0, registered, refl)) in
      let n = (process_packet t c later (sub_ack a) (with_waker topic w o)).1 in
      let fresh : get topic o.subscriptions ≡ absent = ap (get topic) s.3 ∙ unknown in
      (
        ap (λ (x : List ℕ). get x n.subscriptions) (sym e)
            ∙ r.0
            ∙ ap
                (λ (x : List ℕ).
                  present (add cmd.kind (set_subscribed (held (get x o.subscriptions)))))
                e
            ∙ ap (λ x. present (add cmd.kind (set_subscribed (held x)))) fresh,
        r.1.0,
        poll-Answered func topic hint w v ret qos n r.1,
      )

  -- On a topic that nobody has subscribed to, and that the tree knows to be valid: `subscribe` hands the
  -- task a command, once the queue takes it awaits the broker, and its first poll is not ready; once the
  -- task has carried out the command and reads the SUBACK that grants it, the tree has the receiver that
  -- `func` made under the topic, the waker of the poll has been woken, and the next poll returns the receiver
  -- and the quality of service that the broker granted. `func` is only to leave the map of subscriptions
  -- alone.
  pub start-granted :
      (w v : Waker) (m : Transceiver t.State) (a : SubAckPacket) (qos : Qos)
      (more : List SubscriptionResult)
      → LeavesSubs func
      → m.connecting ≡ false
      → lookup topic m.shared.subs ≡ none
      → get topic m.subscriptions ≡ absent
      → valid (heads topic) ≡ true
      → (ordered m).0 ≡ done tt
      → a.packet_id ≡ (given func topic m.shared).1.next_packet_id
      → sub_results a ≡ some (SubAck.granted qos ∷ more)
      → let made = given func topic m.shared in
        let ret = made.0.0 in
        let cmd = command_of made topic hint in
        (start func topic hint m.shared ≡ (sends ret none cmd, made.1))
        × (sent func topic hint delivered (sends ret none cmd)
            ≡ awaits_broker ret (Subscribe.new topic))
        × (poll func topic hint w (awaits_broker ret (Subscribe.new topic)) (ordered m).1.shared
            ≡ some (awaits_broker ret (polled topic), (with_waker topic w (ordered m).1).shared))
        × (get topic (answered w a m).subscriptions
            ≡ present (add made.0.1 (set_subscribed Receivers.default)))
        × (was_woken w (answered w a m).log ≡ true)
        × (poll func topic hint v (awaits_broker ret (polled topic)) (answered w a m).shared
            ≡ some (returns ret qos, (answered w a m).shared))
  unfolding sent ordered answered
  start-granted w v m a qos more leaves connected fresh unknown ok carried id granted =
      let made = given func topic m.shared in
      let cmd = command_of made topic hint in
      let s = on_subscribe-Stored t now cmd (record m { shared = made.1 }) unknown carried in
      let waiting : lookup topic (ordered m).1.shared.subs ≡ some (pending []) =
        ap (lookup topic)
          (s.2 ∙ leaves (record m.shared { subs = insert topic (pending []) m.shared.subs }))
        ∙ ground (
          arith,
          lookup-insert topic topic (pending []) m.shared.subs,
          text_beq_lem topic topic,
        ) in
      let out =
        stored-Outcome w v (record m { shared = made.1 }) (ordered m).1 made.0.0 cmd a qos more refl
          connected unknown ok s waiting id granted in
      (
        start-absent func topic hint m.shared fresh,
        refl,
        poll-registers func topic hint w made.0.0 (ordered m).1.shared waiting,
        out.0,
        out.1,
        out.2,
      )
