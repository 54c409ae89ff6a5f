-- ===== src/Transceiver/Step.antt =====
-- The branches of `Transceiver::task_step` that do not read or write: a command of the client and a tick of
-- the alarm. `now` is the time that the clock shows during the branch.
pub mod Rules
pub mod Ticks
pub mod Cover
pub mod Ages
pub mod Overdue
pub mod Reach
pub mod Runs
pub mod Once
use lmc_rs.Prelude.{
  ℕ, zero, suc, ◌-◌, Bool, true, false, Option, none, some, List, [], ◌∷◌, ◌++◌, length, ltb, leb,
  ◌==◌, if◌then◌else◌,
}
use lmc_rs.Prelude.Maps.{lookup, insert, nat_eq}
use lmc_rs.Errors.{Qos, at_most_once, done, crashed}
use lmc_rs.Transport.{Transport}
use lmc_rs.Packets.Control.{PacketType, type_code}
use lmc_rs.Packets.Outgoing.Requests.{SubscribePacket, encode_subscribe_packet}
use lmc_rs.Subscription.Receivers
use lmc_rs.Subscription.Receivers.{Subscription, SubscriptionKind, add, remove_fast_callback}
use lmc_rs.Subscription.Tree
use lmc_rs.Subscription.Tree.{Node, Found, invalid, absent, present, get, get_or_create}
use lmc_rs.Shared.{take_packet_id}
use lmc_rs.Commands.{
  PublishCommand, SubscribeCommand, UnsubCommand, UnsubKind, fast_callback, immediate, Command,
  publish, subscribe, unsub, disconnect,
}
use lmc_rs.Transceiver.Ids
use lmc_rs.Transceiver.Ids.{IdType, id_eq}
use lmc_rs.Transceiver.State.{Transceiver, Timeout, PendingSub, Action, pure, ◌>>=◌, ◌>>◌, modify}
use lmc_rs.Transceiver.Sending.{
  make, try_send_packet, queue_internal_packet, queue_internal_packet_with_timeout, unsub_immediate,
}

pub data TaskState : Type 0 where
  want_continue want_stop connection_closed : TaskState

-- `SubscriptionSet::clear`; `none` is `Err(())`. A subscription that is present is changed where it is.
abbrev pub clear_found : List ℕ → Found → Node → Option Bool × Node
clear_found topic invalid n = (none, n)
clear_found topic absent n = (some false, n)
clear_found topic (present s) n =
    if s.subscribed then (some true, (get_or_create Receivers.clear topic n).1) else (some false, n)

unfoldable pub clear : List ℕ → Node → Option Bool × Node
unfolding get get_or_create
clear topic n = clear_found topic (get topic n) n

abbrev pub set_subscriptions : {S : Type 0} → Node → Transceiver S → Transceiver S
set_subscriptions n m = record m { subscriptions = n }

abbrev pub push_timeout : {S : Type 0} → Timeout → Transceiver S → Transceiver S
push_timeout to m = record m { timeout_queue = m.timeout_queue ++ (to ∷ []) }

abbrev pub push_sub : {S : Type 0} → ℕ → PendingSub → Transceiver S → Transceiver S
push_sub id sub m = record m { pending_subs = insert id sub m.pending_subs }

abbrev pub take_id : {S : Type 0} → Transceiver S → Transceiver S
take_id m = record m { shared = (take_packet_id m.shared).1 }

abbrev pub new_subscribe : ℕ → List ℕ → Qos → SubscribePacket
new_subscribe packet_id topic qos = record { packet_id = packet_id; topics = (topic, qos) ∷ [] }

abbrev pub new_sub : SubscribeCommand → List ℕ → PendingSub
new_sub cmd pkt = record { topic = cmd.topic; kind = cmd.kind; packet = pkt }

-- `Timeout::now`
abbrev pub new_timeout : ℕ → IdType → Timeout
new_timeout now id = record { at = now; packet_id = id }

module _ (t : Transport) (now : ℕ) where
  unfoldable pub on_publish : PublishCommand → Action t.State (Unit {0})
  unfolding try_send_packet queue_internal_packet_with_timeout
  on_publish cmd = elim cmd.qos [
    | at_most_once ↦ try_send_packet t cmd.packet false
    | _ ↦ queue_internal_packet_with_timeout t now cmd.packet (Ids.publish cmd.packet_id)
  ]

  abbrev pub start_subscription : SubscribeCommand → ℕ → List ℕ → Action t.State (Unit {0})
  start_subscription cmd packet_id pkt = do
    modify (push_sub packet_id (new_sub cmd pkt))
    try_send_packet t pkt false
    modify (push_timeout (new_timeout now (Ids.subscribe packet_id)))

  unfoldable pub new_subscription : SubscribeCommand → Action t.State (Unit {0})
  unfolding try_send_packet make
  new_subscription cmd m =
      let packet_id = m.shared.next_packet_id in
      (make (new_subscribe packet_id cmd.topic cmd.qos) >>= start_subscription cmd packet_id)
        (take_id m)

  abbrev pub subscribe_found : SubscribeCommand → Found → Action t.State (Unit {0})
  subscribe_found cmd invalid = pure tt
  subscribe_found cmd absent = new_subscription cmd
  subscribe_found cmd (present s) =
      if s.subscribed
      then modify
          (λ m. set_subscriptions (get_or_create (add cmd.kind) cmd.topic m.subscriptions).1 m)
      else new_subscription cmd

  unfoldable pub on_subscribe : SubscribeCommand → Action t.State (Unit {0})
  unfolding get get_or_create add new_subscription
  on_subscribe cmd m = subscribe_found cmd (get cmd.topic m.subscriptions) m

  abbrev pub remove_found : List ℕ → ℕ → Found → Action t.State (Unit {0})
  remove_found topic id (present s) =
      modify
        (λ m. set_subscriptions (get_or_create (remove_fast_callback id) topic m.subscriptions).1 m)
  remove_found topic id _ = pure tt

  abbrev pub cleared : List ℕ → Option Bool × Node → Action t.State (Unit {0})
  cleared topic (some true, n) m = unsub_immediate t now topic (set_subscriptions n m)
  cleared topic (_, n) m = (done tt, set_subscriptions n m)

  unfoldable pub unsub_by : UnsubKind → List ℕ → Action t.State (Unit {0})
  unfolding get get_or_create remove_fast_callback clear unsub_immediate
  unsub_by (fast_callback id) topic m = remove_found topic id (get topic m.subscriptions) m
  unsub_by immediate topic m = cleared topic (clear topic m.subscriptions) m

  unfoldable pub on_unsub : UnsubCommand → Action t.State (Unit {0})
  unfolding unsub_by
  on_unsub cmd = unsub_by cmd.kind cmd.topic

  -- What the command queue returns; `none` is a closed queue.
  unfoldable pub on_command : Option Command → Action t.State TaskState
  unfolding on_publish on_subscribe on_unsub
  on_command (some (publish cmd)) = on_publish cmd >> pure want_continue
  on_command (some (subscribe cmd)) = on_subscribe cmd >> pure want_continue
  on_command (some (unsub cmd)) = on_unsub cmd >> pure want_continue
  on_command (some disconnect) = pure want_stop
  on_command none = modify (λ m. record m { cmd_queue_closed = true }) >> pure want_continue

  unfoldable pub ping : Action t.State (Unit {0})
  unfolding queue_internal_packet
  ping m =
      if leb m.ping_interval (now - m.last_tx)
      then queue_internal_packet t m.ping_req false (record m { last_tx = now })
      else (done tt, m)

  abbrev pub packet_of : Option PendingSub → Option (List ℕ)
  packet_of none = none
  packet_of (some sub) = some sub.packet

  -- The packet that waits under an identifier.
  abbrev pub stored : {S : Type 0} → IdType → Transceiver S → Option (List ℕ)
  stored id m =
      if type_code id.ty == type_code PacketType.subscribe
      then packet_of (lookup id.id m.pending_subs)
      else lookup id m.pending_packets

  abbrev pub resend : Timeout → Option (List ℕ) → Action t.State (Unit {0})
  resend to none = pure tt
  resend to (some pkt) =
      queue_internal_packet t pkt (type_code to.packet_id.ty == type_code PacketType.publish)
      >> modify (push_timeout (record to { at = now }))

  abbrev pub resend_front : Action t.State (Unit {0}) → List Timeout → Action t.State (Unit {0})
  resend_front next [] m = (crashed, m)
  resend_front next (to ∷ ts) m =
      if ltb (now - to.at) m.packet_resend_delay
      then (done tt, m)
      else (resend to (stored to.packet_id m) >> next) (record m { timeout_queue = ts })

  -- The rounds of `for _ in 0..timeout_count`; `front().unwrap()` panics on an empty queue.
  unfoldable pub resend_timeouts : ℕ → Action t.State (Unit {0})
  unfolding queue_internal_packet
  resend_timeouts zero m = (done tt, m)
  resend_timeouts (suc n) m = resend_front (resend_timeouts n) m.timeout_queue m

  unfoldable pub on_tick : Action t.State TaskState
  unfolding ping resend_timeouts
  on_tick m =
      if m.connecting
      then (done want_continue, m)
      else (ping >> (λ n. resend_timeouts (length n.timeout_queue) n) >> pure want_continue) m
