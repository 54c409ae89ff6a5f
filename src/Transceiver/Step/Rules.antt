-- ===== src/Transceiver/Step/Rules.antt =====
-- The relations of Process/Rules over the commands and the ticks of src/transceiver/mod.rs.
use lmc_rs.Prelude.{ℕ, Bool, true, false, Option, none, some, List, if◌then◌else◌}
use lmc_rs.Prelude.Maps.{Map, text_eq}
use lmc_rs.Errors.{at_most_once, at_least_once, exactly_once}
use lmc_rs.Transport.{Transport}
use lmc_rs.PacketReader.{PacketReader}
use lmc_rs.Packets.Incoming.{IncomingPublishPacket}
use lmc_rs.Packets.Outgoing.Requests.{encode_subscribe_packet, encode_unsubscribe_packet}
use lmc_rs.Subscription.Receivers.{Channels, Subscription, add, remove_fast_callback}
use lmc_rs.Subscription.Tree.{Node, Found, invalid, absent, present, get, get_or_create}
use lmc_rs.Shared.{ClientShared}
use lmc_rs.Commands.{
  PublishCommand, SubscribeCommand, UnsubCommand, UnsubKind, fast_callback, immediate, Command,
  publish, subscribe, unsub, disconnect,
}
use lmc_rs.Transceiver.Ids
use lmc_rs.Transceiver.Ids.{IdType}
use lmc_rs.Transceiver.State.{Transceiver, Timeout, PendingSub, ◌>>◌, modify, pure}
use lmc_rs.Transceiver.Sending.{
  try_send_packet, unsub_immediate, forget_topic, new_unsubscribe,
  queue_internal_packet_with_timeout,
}
use lmc_rs.Transceiver.Process.Rules.{
  Relation, Rules, Respects, bind-Respects, make_and-Respects, with_timeout-Respects,
}
use lmc_rs.Transceiver.Step.{
  new_sub, new_timeout, unsub_by, clear, on_publish, new_subscription, subscribe_found,
  on_subscribe, remove_found, cleared, on_unsub, on_command, take_id, push_sub, push_timeout,
  set_subscriptions, new_subscribe, want_continue, start_subscription,
}

-- A state in which other fields than those of the packets are new.
abbrev pub with_rest :
    {S : Type 0}
    → PacketReader
    → Map ℕ PendingSub
    → ClientShared
    → Node
    → Bool
    → ℕ
    → Transceiver S
    → Transceiver S
with_rest rx subs shared n closed last_tx m = record m {
  rx_pkt = rx;
  pending_subs = subs;
  shared = shared;
  subscriptions = n;
  cmd_queue_closed = closed;
  last_tx = last_tx;
}

pub record RestRules (t : Transport) (R : Relation t.State) : Type 0 where
  pub tries :
      (bytes : List ℕ) (set_dup : Bool) (m : Transceiver t.State)
      → R m (try_send_packet t bytes set_dup m).1
  pub grows : (to : Timeout) (m : Transceiver t.State) → R m (push_timeout to m)
  pub ignores :
      (rx : PacketReader) (subs : Map ℕ PendingSub) (shared : ClientShared) (n : Node)
      (closed : Bool) (last_tx : ℕ) (m : Transceiver t.State)
      → R m (with_rest rx subs shared n closed last_tx m)

module _ {t : Transport} {c : Channels} {R : Relation t.State} {Forgets : IdType → Type 0}
    {Delivers : IncomingPublishPacket → Type 0} (rules : Rules t c R Forgets Delivers)
    (rest : RestRules t R) (now : ℕ) where
  abbrev set_subs-Respects :
      (m : Transceiver t.State) (subs : Map ℕ PendingSub) → R m (record m { pending_subs = subs })
  set_subs-Respects m subs =
      rest.ignores m.rx_pkt subs m.shared m.subscriptions m.cmd_queue_closed m.last_tx m

  set_shared-Respects :
      (m : Transceiver t.State) (shared : ClientShared) → R m (record m { shared = shared })
  set_shared-Respects m shared =
      rest.ignores m.rx_pkt m.pending_subs shared m.subscriptions m.cmd_queue_closed m.last_tx m

  set_subscriptions-Respects : (n : Node) (m : Transceiver t.State) → R m (set_subscriptions n m)
  set_subscriptions-Respects n m =
      rest.ignores m.rx_pkt m.pending_subs m.shared n m.cmd_queue_closed m.last_tx m

  pub on_publish-Respects : (cmd : PublishCommand) → Respects R (on_publish t now cmd)
  unfolding on_publish
  on_publish-Respects cmd =
      elim cmd.qos
        as (λ q. Respects R (elim q [
          | at_most_once ↦ try_send_packet t cmd.packet false
          | _ ↦ queue_internal_packet_with_timeout t now cmd.packet (Ids.publish cmd.packet_id)
        ])) [
          | at_most_once ↦ rest.tries cmd.packet false
          | at_least_once ↦ with_timeout-Respects rules now cmd.packet (Ids.publish cmd.packet_id)
          | exactly_once ↦ with_timeout-Respects rules now cmd.packet (Ids.publish cmd.packet_id)
        ]

  start_subscription-Respects :
      (cmd : SubscribeCommand) (id : ℕ) (pkt : List ℕ)
      → Respects R (start_subscription t now cmd id pkt)
  start_subscription-Respects cmd id pkt =
      let sub = new_sub cmd pkt in
      let to = new_timeout now (Ids.subscribe id) in
      bind-Respects rules (modify (push_sub id sub))
        (λ _. try_send_packet t pkt false >> modify (push_timeout to))
        (λ m. set_subs-Respects m (push_sub id sub m).pending_subs)
        (λ _.
          bind-Respects rules (try_send_packet t pkt false) (λ _. modify (push_timeout to))
            (rest.tries pkt false) (λ _. rest.grows to))

  new_subscription-Respects : (cmd : SubscribeCommand) → Respects R (new_subscription t now cmd)
  unfolding new_subscription
  new_subscription-Respects cmd m =
      rules.follows m (take_id m) (new_subscription t now cmd m).1
        (set_shared-Respects m (take_id m).shared)
        (make_and-Respects rules (new_subscribe m.shared.next_packet_id cmd.topic cmd.qos)
          (start_subscription t now cmd m.shared.next_packet_id)
          (start_subscription-Respects cmd m.shared.next_packet_id) (take_id m))

  change-Respects :
      (f : Subscription → Subscription) (topic : List ℕ) (m : Transceiver t.State)
      → R m (set_subscriptions (get_or_create f topic m.subscriptions).1 m)
  change-Respects f topic m = set_subscriptions-Respects (get_or_create f topic m.subscriptions).1 m

  subscribe_found-Respects :
      (cmd : SubscribeCommand) (found : Found) → Respects R (subscribe_found t now cmd found)
  subscribe_found-Respects cmd invalid m = rules.stays m
  subscribe_found-Respects cmd absent m = new_subscription-Respects cmd m
  subscribe_found-Respects cmd (present s) m =
      elim s.subscribed
        as (λ b.
          R m
            ((if b
                then modify (λ m.
                  set_subscriptions (get_or_create (add cmd.kind) cmd.topic m.subscriptions).1 m)
                else new_subscription t now cmd)
              m).1) [
                | true ↦ change-Respects (add cmd.kind) cmd.topic m
                | false ↦ new_subscription-Respects cmd m
              ]

  unsub_immediate-Respects : (topic : List ℕ) → Respects R (unsub_immediate t now topic)
  unfolding unsub_immediate
  unsub_immediate-Respects topic m =
      rules.follows m (forget_topic t topic m) (unsub_immediate t now topic m).1
        (set_shared-Respects m (forget_topic t topic m).shared)
        (make_and-Respects rules (new_unsubscribe t m.shared.next_packet_id topic)
          (λ pkt.
            queue_internal_packet_with_timeout t now pkt (Ids.unsubscribe m.shared.next_packet_id))
          (λ pkt. with_timeout-Respects rules now pkt (Ids.unsubscribe m.shared.next_packet_id))
          (forget_topic t topic m))

  cleared-Respects : (topic : List ℕ) (r : Option Bool × Node) → Respects R (cleared t now topic r)
  cleared-Respects topic (some true, n) m =
      rules.follows m (set_subscriptions n m)
        (unsub_immediate t now topic (set_subscriptions n m)).1 (set_subscriptions-Respects n m)
        (unsub_immediate-Respects topic (set_subscriptions n m))
  cleared-Respects topic (some false, n) m = set_subscriptions-Respects n m
  cleared-Respects topic (none, n) m = set_subscriptions-Respects n m

  remove_found-Respects :
      (topic : List ℕ) (id : ℕ) (found : Found) → Respects R (remove_found t now topic id found)
  remove_found-Respects topic id (present s) m = change-Respects (remove_fast_callback id) topic m
  remove_found-Respects topic id invalid m = rules.stays m
  remove_found-Respects topic id absent m = rules.stays m

  unsub_by-Respects : (kind : UnsubKind) (topic : List ℕ) → Respects R (unsub_by t now kind topic)
  unfolding unsub_by
  unsub_by-Respects (fast_callback id) topic m =
      remove_found-Respects topic id (get topic m.subscriptions) m
  unsub_by-Respects immediate topic m = cleared-Respects topic (clear topic m.subscriptions) m

  on_unsub-Respects : (cmd : UnsubCommand) → Respects R (on_unsub t now cmd)
  unfolding on_unsub
  on_unsub-Respects cmd = unsub_by-Respects cmd.kind cmd.topic

  pub on_command-Respects : (cmd : Option Command) → Respects R (on_command t now cmd)
  unfolding on_command on_subscribe
  on_command-Respects (some (publish cmd)) =
      bind-Respects rules (on_publish t now cmd) (λ _. pure want_continue) (on_publish-Respects cmd)
        (λ _. rules.stays)
  on_command-Respects (some (subscribe cmd)) =
      bind-Respects rules (on_subscribe t now cmd) (λ _. pure want_continue)
        (λ m. subscribe_found-Respects cmd (get cmd.topic m.subscriptions) m) (λ _. rules.stays)
  on_command-Respects (some (unsub cmd)) =
      bind-Respects rules (on_unsub t now cmd) (λ _. pure want_continue) (on_unsub-Respects cmd)
        (λ _. rules.stays)
  on_command-Respects (some disconnect) = rules.stays
  on_command-Respects none =
      λ m. rest.ignores m.rx_pkt m.pending_subs m.shared m.subscriptions true m.last_tx m
