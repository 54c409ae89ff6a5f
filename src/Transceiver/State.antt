-- ===== src/Transceiver/State.antt =====
-- The state of the transceiver's task, and its actions. A time is a number of milliseconds. What the task
-- does to the rest of the program is written down in a log, the latest entry first: messages it hands to
-- receivers, wakers it wakes, the result of the connection.
use lmc_rs.Prelude.{ℕ, Bool, Option, none, some, List, [], ◌∷◌}
use lmc_rs.Prelude.Maps.{Map}
use lmc_rs.Errors.{IoResult, done, failed, crashed}
use lmc_rs.Packets.Incoming.{ConnAckPacket, IncomingPublishPacket}
use lmc_rs.Subscription.Receivers.{SubscriptionKind, Sent}
use lmc_rs.Subscription.Tree.{Node}
use lmc_rs.PacketReader.{PacketReader}
use lmc_rs.Shared.{ClientShared, Waker}
use lmc_rs.Transceiver.Ids.{IdType}
use lmc_rs.Transceiver.Writing.{Outbox}

pub record Timeout : Type 0 where
  pub at : ℕ
  pub packet_id : IdType

pub record PendingSub : Type 0 where
  pub topic : List ℕ
  pub kind : SubscriptionKind
  pub packet : List ℕ

pub data Effect : Type 0 where
  connect_result : ConnAckPacket → Effect
  dispatched : IncomingPublishPacket → List Sent → Effect
  woke : Waker → Effect

-- `connecting` tells whether `connect_sig` still holds its sender; `S` is the state of the transport.
pub record Transceiver (S : Type 0) : Type 0 where
  pub transport : S
  pub outbox : Outbox
  pub pending_packets : Map IdType (List ℕ)
  pub pending_subs : Map ℕ PendingSub
  pub rx_pkt : PacketReader
  pub connecting : Bool
  pub ping_interval : ℕ
  pub last_tx : ℕ
  pub timeout_queue : List Timeout
  pub shared : ClientShared
  pub subscriptions : Node
  pub disconnect_sent : Bool
  pub cmd_queue_closed : Bool
  pub ping_req : List ℕ
  pub packet_resend_delay : ℕ
  pub log : List Effect

abbrev pub Action : Type 0 → Type 0 → Type 0
Action S A = Transceiver S → IoResult A × Transceiver S

abbrev pub pure : {S A : Type 0} → A → Action S A
pure a m = (done a, m)

abbrev pub continue : {S A B : Type 0} → IoResult A → (A → Action S B) → Action S B
continue (done a) f m = f a m
continue (failed e) f m = (failed e, m)
continue crashed f m = (crashed, m)

infixl 5 ◌>>=◌ ◌>>◌
abbrev pub ◌>>=◌ : {S A B : Type 0} → Action S A → (A → Action S B) → Action S B
(act >>= f) m = continue (act m).0 f (act m).1

abbrev pub ◌>>◌ : {S B : Type 0} → Action S (Unit {0}) → Action S B → Action S B
act >> next = act >>= λ _. next

abbrev pub gets : {S A : Type 0} → (Transceiver S → A) → Action S A
gets f m = (done (f m), m)

abbrev pub modify : {S : Type 0} → (Transceiver S → Transceiver S) → Action S (Unit {0})
modify f m = (done tt, f m)

-- A panic.
abbrev pub or_panic : {S A : Type 0} → Option A → Action S A
or_panic none m = (crashed, m)
or_panic (some a) m = (done a, m)

-- `for opt_waker in wakers { if let Some(waker) = opt_waker { waker.wake(); } }`
abbrev pub wake_all : List (Option Waker) → List Effect → List Effect
wake_all [] log = log
wake_all (none ∷ ws) log = wake_all ws log
wake_all (some w ∷ ws) log = wake_all ws (woke w ∷ log)
