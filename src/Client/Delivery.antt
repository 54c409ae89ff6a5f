-- ===== src/Client/Delivery.antt =====
-- From `Client::publish_qos_1` of src/lib.rs to the acknowledgement: the client, the transceiver's task and
-- the future together.
use lmc_rs.Prelude.{
  subst, false, ℕ, ◌≡◌, ◌≢◌, sym, ap, ◌∙◌, true, Option, none, some, List, arith, ◌>>=◌,
}
use lmc_rs.Prelude.Maps.{lookup, lookup-insert, nat_eq, insert}
use lmc_rs.Errors.{IoResult, done, at_least_once}
use lmc_rs.Packets.Outgoing.Requests.{pub_ack}
use lmc_rs.Packets.Incoming.{acked}
use lmc_rs.Subscription.Receivers.{Channels}
use lmc_rs.Futures.{not_ready}
use lmc_rs.Transceiver.Process.{process_packet, new_simple}
use lmc_rs.Transceiver.Process.Acks.{Settled, NotResent, process_packet-acked}
use lmc_rs.Transport.{Transport}
use lmc_rs.Packets.Frame.{make_packet}
use lmc_rs.Packets.Outgoing.Publish.{encode_publish_packet}
use lmc_rs.Shared.{ClientShared, without_waker, with_waker, Waker}
use lmc_rs.Commands.{PublishCommand}
use lmc_rs.Futures.Publish
use lmc_rs.Futures.Publish.{PublishFuture, ack, set_notifier_map}
use lmc_rs.Client.{Message, outgoing, packet_id_for, make_publish_cmd, publish_qos_1, await_stage}
use lmc_rs.Transceiver.Ids
use lmc_rs.Transceiver.Ids.{IdType, id_beq_lem, id_eq}
use lmc_rs.Transceiver.State.{Transceiver}
use lmc_rs.Transceiver.Sending.{queue_internal_packet_with_timeout, queue_internal_packet}
use lmc_rs.Transceiver.Step.{on_publish}

-- What `publish_qos_1` leaves for the task: a command with the quality of service, and a future of its
-- identifier that the map knows.
abbrev Begun : PublishCommand → PublishFuture → ClientShared → Type 0
Begun cmd f s =
    (cmd.qos ≡ at_least_once)
    × (f.packet_id ≡ cmd.packet_id)
    × (f.result ≡ none)
    × (lookup cmd.packet_id s.notify_ack ≡ some without_waker)

abbrev command : ℕ → List ℕ → PublishCommand
command id packet = record { packet_id = id; qos = at_least_once; packet = packet }

abbrev begun :
    ℕ
    → Option (List ℕ)
    → ClientShared
    → Option (PublishCommand × Option PublishFuture × ClientShared)
begun id o s =
    (o >>= λ packet. some (command id packet, s)) >>= λ r. some (await_stage (some ack) r)

begun-Begun :
    (id : ℕ) (o : Option (List ℕ)) (s : ClientShared) (cmd : PublishCommand) (f : PublishFuture)
    (s1 : ClientShared)
    → begun id o s ≡ some (cmd, some f, s1)
    → Begun cmd f s1
unfolding Publish.new
begun-Begun id none s cmd f s1 e = absurd cc
begun-Begun id (some packet) s cmd f s1 e =
    let made : command id packet ≡ cmd = cc in
    let future : (Publish.new id s.notify_ack).0 ≡ f = cc in
    let shared : record s { notify_ack = insert id without_waker s.notify_ack } ≡ s1 = cc in
    (
      ap (λ (c : PublishCommand). c.qos) (sym made),
      ap (λ (g : PublishFuture). g.packet_id) (sym future)
          ∙ ap (λ (c : PublishCommand). c.packet_id) made,
      ap (λ (g : PublishFuture). g.result) (sym future),
      ap (λ (c : PublishCommand). lookup c.packet_id s1.notify_ack) (sym made)
          ∙ ap (λ (x : ClientShared). lookup id x.notify_ack) (sym shared)
          ∙ ground (arith, lookup-insert id id without_waker s.notify_ack),
    )

publish_qos_1-Begun :
    (msg : Message) (s : ClientShared) (cmd : PublishCommand) (f : PublishFuture)
    (s1 : ClientShared)
    → publish_qos_1 msg true s ≡ some (cmd, some f, s1)
    → Begun cmd f s1
unfolding publish_qos_1 make_publish_cmd
publish_qos_1-Begun msg s cmd f s1 e =
    let qos_1 = record msg { qos = at_least_once } in
    begun-Begun (packet_id_for at_least_once s).0
      (make_packet (outgoing qos_1 (packet_id_for at_least_once s).0))
      (packet_id_for at_least_once s).1 cmd f s1 e

-- The state of the task once the future has been polled and the command has been carried out.
abbrev pub after_publish :
    (t : Transport)
    → ℕ
    → Waker
    → PublishCommand
    → PublishFuture
    → ClientShared
    → Transceiver t.State
    → Transceiver t.State
after_publish t now w cmd f s m =
    (on_publish t now cmd
      (record m { shared = set_notifier_map ack (Publish.poll w f s.notify_ack).2 s })).1

-- The future stands with its waker, and the message is stored.
abbrev InFlight : {S : Type 0} → PublishCommand → PublishFuture → Waker → Transceiver S → Type 0
InFlight cmd f w n =
    (lookup (Ids.publish f.packet_id) n.pending_packets ≢ none)
    × (lookup f.packet_id n.shared.notify_ack ≡ some (with_waker w))

module _ (t : Transport) (now : ℕ) where
  on_publish-stores :
      (cmd : PublishCommand) (m : Transceiver t.State)
      → cmd.qos ≡ at_least_once
      → on_publish t now cmd m
        ≡ queue_internal_packet_with_timeout t now cmd.packet (Ids.publish cmd.packet_id) m
  unfolding on_publish
  on_publish-stores cmd m e = rw e

  stored-InFlight :
      (w : Waker) (cmd : PublishCommand) (f : PublishFuture) (s : ClientShared)
      (m : Transceiver t.State)
      → Begun cmd f s
      → InFlight cmd f w
          (queue_internal_packet_with_timeout t now cmd.packet
            (Ids.publish cmd.packet_id)
            (record m { shared = set_notifier_map ack (Publish.poll w f s.notify_ack).2 s })).1
  unfolding queue_internal_packet_with_timeout queue_internal_packet Publish.poll
  stored-InFlight w cmd f s m h = (
    ground (
      arith,
      h.1,
      id_beq_lem (Ids.publish cmd.packet_id) (Ids.publish cmd.packet_id),
      lookup-insert (Ids.publish cmd.packet_id) (Ids.publish cmd.packet_id) cmd.packet
          m.pending_packets,
    ),
    ground
        (arith, h.1, h.2, h.3, lookup-insert f.packet_id f.packet_id (with_waker w) s.notify_ack),
  )

module _ (t : Transport) (c : Channels) (now later : ℕ) where
  -- Where `publish_qos_1` is to await the acknowledgement and its future has been polled before the task
  -- carries out the command: that poll is not ready; once the task reads the PUBACK with the identifier of the
  -- message, the message is no longer stored and its timeout does not send it again, and the task has woken
  -- the future, whose next poll reports success. What is queued for the transport stays as it is, a copy of
  -- the message among it included.
  pub publish_qos_1-acked :
      (msg : Message) (w v : Waker) (cmd : PublishCommand) (f : PublishFuture) (s : ClientShared)
      (m : Transceiver t.State)
      → m.connecting ≡ false
      → publish_qos_1 msg true m.shared ≡ some (cmd, some f, s)
      → let n = after_publish t now w cmd f s m in
        let r = process_packet t c later (acked (new_simple pub_ack f.packet_id)) n in
        ((Publish.poll w f s.notify_ack).0 ≡ not_ready)
        × (r.0 ≡ done false)
        × (r.1.outbox ≡ n.outbox)
        × Settled ack (Ids.publish f.packet_id) f w v r.1
        × NotResent t (Ids.publish f.packet_id) r.1
  unfolding queue_internal_packet_with_timeout queue_internal_packet Publish.poll
  publish_qos_1-acked msg w v cmd f s m h e =
      let b = publish_qos_1-Begun msg m.shared cmd f s e in
      let polled = record m { shared = set_notifier_map ack (Publish.poll w f s.notify_ack).2 s } in
      let stored =
        queue_internal_packet_with_timeout t now cmd.packet (Ids.publish cmd.packet_id) polled in
      let flies = stored-InFlight t now w cmd f s m b in
      let P = λ (r : IoResult (Unit {0}) × Transceiver t.State).
        let q = process_packet t c later (acked (new_simple pub_ack f.packet_id)) r.1 in
        (q.0 ≡ done false)
        × (q.1.outbox ≡ r.1.outbox)
        × Settled ack (Ids.publish f.packet_id) f w v q.1
        × NotResent t (Ids.publish f.packet_id) q.1 in
      let settled =
        subst P (sym (on_publish-stores t now cmd polled b.0))
          (process_packet-acked t c later stored.1 f w v h flies.0 b.2 flies.1) in
      (ground (arith, b.1, b.2, b.3), settled.0, settled.1, settled.2, settled.3)
