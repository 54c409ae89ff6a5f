-- ===== src/Transceiver/Sending.antt =====
-- What the handlers of the transceiver's task are made of. The clock is read once, and `now` is its time;
-- the channels of the subscriptions are a parameter too.
use lmc_rs.Prelude.{ℕ, Bool, true, false, Option, none, some, List, [], ◌∷◌, ◌++◌}
use lmc_rs.Prelude.Maps.{lookup, insert, remove, text_eq}
use lmc_rs.Errors.{done}
use lmc_rs.Transport.{Transport}
use lmc_rs.Packets.Frame.{Encode, make_packet}
use lmc_rs.Packets.Incoming.{IncomingPublishPacket}
use lmc_rs.Packets.Incoming
use lmc_rs.Packets.Outgoing.Requests.{UnsubscribePacket, encode_unsubscribe_packet}
use lmc_rs.Subscription.Receivers.{Channels}
use lmc_rs.Subscription.Tree
use lmc_rs.Shared.{take_packet_id}
use lmc_rs.Futures.Publish.{Stage, access_notifier_map, set_notifier_map}
use lmc_rs.Transceiver.Ids
use lmc_rs.Transceiver.Ids.{IdType, id_eq}
use lmc_rs.Transceiver.Notify.{notify}
use lmc_rs.Transceiver.State.{Transceiver, Timeout, dispatched, Action, ◌>>=◌, or_panic, wake_all}
use lmc_rs.Transceiver.Writing
use lmc_rs.Transceiver.Writing.{Outbox}

-- `Option::is_some`
abbrev pub is_some : {A : Type 0} → Option A → Bool
is_some none = false
is_some (some a) = true

abbrev pub remember_timeout : {A : Type 0} → Option A → Timeout → List Timeout → List Timeout
remember_timeout none t ts = ts ++ (t ∷ [])
remember_timeout (some old) t ts = ts

module _ {S : Type 0} where
  unfoldable pub make : {P : Type 0} ⦃e : Encode P⦄ → P → Action S (List ℕ)
  make p = or_panic (make_packet p)

  -- The state that `queue_internal_packet_with_timeout` sends in. The error of a packet that is there
  -- already is only logged.
  abbrev pub remember : ℕ → List ℕ → IdType → Transceiver S → Transceiver S
  remember now pkt id m = record m {
    pending_packets = insert id pkt m.pending_packets;
    timeout_queue =
        remember_timeout (lookup id m.pending_packets) (record { at = now; packet_id = id })
          m.timeout_queue;
  }

  unfoldable pub clear_packet_timeout : IdType → Action S Bool
  clear_packet_timeout id m = (
    done (is_some (lookup id m.pending_packets)),
    record m { pending_packets = remove id m.pending_packets },
  )

  -- `if let Some(NotifyResult::WithWaker(waker)) = ....lock().remove(&id) { waker.wake(); }`
  unfoldable pub notify_stage : Stage → ℕ → Action S (Unit {0})
  unfolding notify
  notify_stage stage id m =
      let r = notify id (access_notifier_map stage m.shared) in
      (
        done tt,
        record m { shared = set_notifier_map stage r.1 m.shared; log = wake_all (r.0 ∷ []) m.log },
      )

  -- `self.subscriptions.dispatch(&msg)`
  unfoldable pub deliver : Channels → IncomingPublishPacket → Action S (Unit {0})
  unfolding Tree.dispatch Incoming.topic
  deliver c msg m =
      let r = Tree.dispatch c (Incoming.topic msg) m.subscriptions in
      (done tt, record m { subscriptions = r.0; log = dispatched msg r.1 ∷ m.log })

module _ (t : Transport) where
  -- `try_send_packet` and `queue_internal_packet` on the whole state.
  unfoldable pub try_send_packet : List ℕ → Bool → Action t.State (Unit {0})
  unfolding Writing.try_send_packet
  try_send_packet bytes set_dup m =
      let r = Writing.try_send_packet t bytes set_dup m.outbox m.transport in
      (r.0, record m { outbox = r.1; transport = r.2 })

  unfoldable pub queue_internal_packet : List ℕ → Bool → Action t.State (Unit {0})
  unfolding Writing.queue_internal_packet
  queue_internal_packet bytes set_dup m =
      let r = Writing.queue_internal_packet t bytes set_dup m.outbox m.transport in
      (r.0, record m { outbox = r.1; transport = r.2 })

  unfoldable pub queue_internal_packet_with_timeout :
      ℕ → List ℕ → IdType → Action t.State (Unit {0})
  unfolding queue_internal_packet
  queue_internal_packet_with_timeout now pkt id m =
      queue_internal_packet pkt false (remember now pkt id m)

  abbrev pub new_unsubscribe : ℕ → List ℕ → UnsubscribePacket
  new_unsubscribe packet_id topic = record { packet_id = packet_id; topics = topic ∷ [] }

  -- `self.shared.subs.lock().remove(topic)` and `fetch_add(1)`.
  abbrev pub forget_topic : List ℕ → Transceiver t.State → Transceiver t.State
  forget_topic topic m = record m {
    shared = (take_packet_id (record m.shared { subs = remove topic m.shared.subs })).1;
  }

  unfoldable pub unsub_immediate : ℕ → List ℕ → Action t.State (Unit {0})
  unfolding make queue_internal_packet_with_timeout
  unsub_immediate now topic m =
      let packet_id = m.shared.next_packet_id in
      (make (new_unsubscribe packet_id topic) >>= λ pkt.
      queue_internal_packet_with_timeout now pkt (Ids.unsubscribe packet_id))
        (forget_topic topic m)
