-- ===== src/Transceiver/Process.antt =====
-- `Transceiver::process_packet`, a handler for each packet. The texts of the log are left out, and
-- `panic_in_test!` only logs outside of tests.
pub mod Rules
pub mod Respects
pub mod Timeouts
pub mod ExactlyOnce
pub mod Repeats
pub mod Acks
pub mod SubAcks
pub mod Received
use lmc_rs.Prelude.{ℕ, Bool, true, false, Option, none, some, List, [], ◌∷◌}
use lmc_rs.Prelude.Maps.{Map, nat_eq, text_eq, lookup, insert, remove}
use lmc_rs.Errors.{Qos, at_most_once, at_least_once, exactly_once, protocol_error, done}
use lmc_rs.Transport.{Transport}
use lmc_rs.Packets.Control
use lmc_rs.Packets.Outgoing.Requests.{
  Simple, SimplePacket, pub_ack, pub_rec, pub_rel, pub_comp, encode_simple_packet,
}
use lmc_rs.Packets.Incoming.{
  IncomingPacket, ConnAckPacket, granted, denied, IncomingPublishPacket, conn_ack, sub_ack, publish,
  acked, received, released, completed, unsubscribed, ping_resp,
}
use lmc_rs.Packets.Incoming.SubAck
use lmc_rs.Packets.Incoming.SubAck.{SubAckPacket, SubscriptionResult, sub_results}
use lmc_rs.Subscription.Receivers.{Channels, add, set_subscribed}
use lmc_rs.Subscription.Tree.{Node, get_or_create}
use lmc_rs.Shared.{SubscriptionState, existing, pending, Waker}
use lmc_rs.Futures.Publish.{ack, rec, comp}
use lmc_rs.Transceiver.Ids
use lmc_rs.Transceiver.Ids.{IdType, id_eq}
use lmc_rs.Transceiver.State.{
  PendingSub, Action, connect_result, pure, ◌>>=◌, ◌>>◌, or_panic, gets, wake_all,
}
use lmc_rs.Transceiver.Sending.{
  make, queue_internal_packet, queue_internal_packet_with_timeout, clear_packet_timeout,
  notify_stage, deliver,
}

-- `PubAckPacket::new` and the like.
abbrev pub new_simple : (kind : Simple) → ℕ → SimplePacket kind
new_simple kind id = record { packet_id = id }

-- The first packet. `x.0` for a CONNACK; anything else is against the protocol.
abbrev pub conn_result : IncomingPacket → ConnAckPacket
conn_result (conn_ack x) = x
conn_result _ = denied protocol_error

abbrev pub is_err : ConnAckPacket → Bool
is_err (granted _) = false
is_err (denied _) = true

-- The wakers of the tasks that wait for a subscription.
abbrev pub waiting : Option SubscriptionState → List (Option Waker)
waiting (some (pending wakers)) = wakers
waiting _ = []

-- The answer to a subscription: the tree, the shared map and the wakers. In each of the three cases of
-- a granted one the map has the quality of service afterwards.
unfoldable pub answer_sub :
    List SubscriptionResult
    → PendingSub
    → Node
    → Map (List ℕ) SubscriptionState
    → Node × Map (List ℕ) SubscriptionState × List (Option Waker)
unfolding get_or_create add
answer_sub [] sub n subs = (n, subs, [])
answer_sub (SubAck.granted qos ∷ _) sub n subs = (
  (get_or_create (λ s. add sub.kind (set_subscribed s)) sub.topic n).1,
  insert sub.topic (existing qos) subs,
  waiting (lookup sub.topic subs),
)
answer_sub (SubAck.refused ∷ _) sub n subs =
    (n, remove sub.topic subs, waiting (lookup sub.topic subs))

abbrev pub answer_pending :
    List SubscriptionResult
    → Option PendingSub
    → Node
    → Map (List ℕ) SubscriptionState
    → Node × Map (List ℕ) SubscriptionState × List (Option Waker)
answer_pending results none n subs = (n, subs, [])
answer_pending results (some sub) n subs = answer_sub results sub n subs

-- The results are asked for only where a subscription waits for them.
unfoldable pub asked_results : SubAckPacket → Option PendingSub → Option (List SubscriptionResult)
unfolding sub_results
asked_results a none = some []
asked_results a (some sub) = sub_results a

module _ {S : Type 0} where
  unfoldable pub first_packet : IncomingPacket → Action S Bool
  first_packet pkt m = (
    done (is_err (conn_result pkt)),
    record m { connecting = false; log = connect_result (conn_result pkt) ∷ m.log },
  )

  unfoldable pub accept : SubAckPacket → List SubscriptionResult → Action S (Unit {0})
  unfolding answer_sub
  accept a results m =
      let r =
        answer_pending results (lookup a.packet_id m.pending_subs) m.subscriptions m.shared.subs in
      (
        done tt,
        record m {
          pending_subs = remove a.packet_id m.pending_subs;
          subscriptions = r.0;
          shared = record m.shared { subs = r.1 };
          log = wake_all r.2 m.log;
        },
      )

  unfoldable pub on_sub_ack : SubAckPacket → Action S (Unit {0})
  unfolding accept asked_results
  on_sub_ack a m = (or_panic (asked_results a (lookup a.packet_id m.pending_subs)) >>= accept a) m

  abbrev pub when : Bool → Action S (Unit {0}) → Action S (Unit {0})
  when b act = elim b [ true ↦ act | false ↦ pure tt ]

  abbrev pub when_connecting : {A : Type 0} → Bool → Action S A → Action S A → Action S A
  when_connecting true first later = first
  when_connecting false first later = later

  unfoldable pub on_pub_ack : ℕ → Action S (Unit {0})
  unfolding clear_packet_timeout notify_stage
  on_pub_ack id =
      clear_packet_timeout (Ids.publish id) >>= λ cleared. when cleared (notify_stage ack id)

  unfoldable pub on_pub_comp : ℕ → Action S (Unit {0})
  unfolding clear_packet_timeout notify_stage
  on_pub_comp id =
      clear_packet_timeout (Ids.pub_rel id) >>= λ cleared. when cleared (notify_stage comp id)

  unfoldable pub on_unsub_ack : ℕ → Action S (Unit {0})
  unfolding clear_packet_timeout
  on_unsub_ack id = clear_packet_timeout (Ids.unsubscribe id) >>= λ cleared. pure tt

module _ (t : Transport) (c : Channels) (now : ℕ) where
  -- The packet that is stored under the identifier is sent again; if there is none it is made, sent and
  -- stored, and what follows is done.
  abbrev pub resend_or : Option (List ℕ) → Action t.State (Unit {0}) → Action t.State (Unit {0})
  resend_or none first = first
  resend_or (some pkt) first = queue_internal_packet t pkt false

  unfoldable pub answer_exactly_once : IncomingPublishPacket → Action t.State (Unit {0})
  unfolding make queue_internal_packet_with_timeout deliver queue_internal_packet
  answer_exactly_once msg = do
    known ← gets (λ m. lookup (Ids.pub_rec msg.info.packet_id) m.pending_packets)
    resend_or known (do
      pkt ← make (new_simple pub_rec msg.info.packet_id)
      queue_internal_packet_with_timeout t now pkt (Ids.pub_rec msg.info.packet_id)
      deliver c msg)

  unfoldable pub on_qos : Option Qos → IncomingPublishPacket → Action t.State (Unit {0})
  unfolding make deliver queue_internal_packet answer_exactly_once
  on_qos none msg = or_panic none
  on_qos (some at_most_once) msg = deliver c msg
  on_qos (some at_least_once) msg = do
    pkt ← make (new_simple pub_ack msg.info.packet_id)
    queue_internal_packet t pkt false
    deliver c msg
  on_qos (some exactly_once) msg = answer_exactly_once msg

  unfoldable pub on_publish : IncomingPublishPacket → Action t.State (Unit {0})
  unfolding on_qos
  on_publish msg = on_qos (Control.qos msg.info.flags) msg

  unfoldable pub answer_pub_rec : ℕ → Action t.State (Unit {0})
  unfolding make queue_internal_packet_with_timeout queue_internal_packet
  answer_pub_rec id = do
    known ← gets (λ m. lookup (Ids.pub_rel id) m.pending_packets)
    resend_or known (do
      pkt ← make (new_simple pub_rel id)
      queue_internal_packet_with_timeout t now pkt (Ids.pub_rel id))

  unfoldable pub on_pub_rec : ℕ → Action t.State (Unit {0})
  unfolding answer_pub_rec clear_packet_timeout notify_stage
  on_pub_rec id = do
    answer_pub_rec id
    cleared ← clear_packet_timeout (Ids.publish id)
    when cleared (notify_stage rec id)

  unfoldable pub on_pub_rel : ℕ → Action t.State (Unit {0})
  unfolding make queue_internal_packet clear_packet_timeout
  on_pub_rel id = do
    _ ← clear_packet_timeout (Ids.pub_rec id)
    pkt ← make (new_simple pub_comp id)
    queue_internal_packet t pkt false

  unfoldable pub handle : IncomingPacket → Action t.State (Unit {0})
  unfolding on_publish on_sub_ack on_pub_ack on_pub_rec on_pub_rel on_pub_comp on_unsub_ack
  handle (conn_ack _) = pure tt
  handle (sub_ack a) = on_sub_ack a
  handle (publish msg) = on_publish msg
  handle (acked p) = on_pub_ack p.packet_id
  handle (received p) = on_pub_rec p.packet_id
  handle (released p) = on_pub_rel p.packet_id
  handle (completed p) = on_pub_comp p.packet_id
  handle (unsubscribed p) = on_unsub_ack p.packet_id
  handle ping_resp = pure tt

  -- `true` stops the task.
  unfoldable pub process_packet : IncomingPacket → Action t.State Bool
  unfolding first_packet handle
  process_packet pkt m =
      when_connecting m.connecting (first_packet pkt) (handle pkt >> pure false) m
