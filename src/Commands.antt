-- ===== src/Commands.antt =====
-- src/transceiver/commands.rs: what the client's handles ask of the transceiver's task.
use lmc_rs.Prelude.{ℕ, List}
use lmc_rs.Errors.{Qos}
use lmc_rs.Subscription.Receivers.{SubscriptionKind}

pub record PublishCommand : Type 0 where
  pub packet_id : ℕ
  pub qos : Qos
  pub packet : List ℕ

pub record SubscribeCommand : Type 0 where
  pub topic : List ℕ
  pub qos : Qos
  pub kind : SubscriptionKind

pub data UnsubKind : Type 0 where
  fast_callback : ℕ → UnsubKind
  immediate : UnsubKind

pub record UnsubCommand : Type 0 where
  pub topic : List ℕ
  pub kind : UnsubKind

pub data Command : Type 0 where
  publish : PublishCommand → Command
  subscribe : SubscribeCommand → Command
  unsub : UnsubCommand → Command
  disconnect : Command
