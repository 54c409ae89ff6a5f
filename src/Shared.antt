-- ===== src/Shared.antt =====
-- src/shared.rs: what the client's handles and the transceiver's task share. A waker is a number, and a
-- lock is held throughout each operation.
use lmc_rs.Prelude.{ℕ, ◌+◌, ◌%◌, ◌^◌, Option, List, []}
use lmc_rs.Prelude.Maps.{Map}
use lmc_rs.Errors.{Qos}

abbrev pub Waker : Type 0
Waker = ℕ

pub data NotifyResult : Type 0 where
  without_waker : NotifyResult
  with_waker : Waker → NotifyResult
  failed : NotifyResult

abbrev pub NotifierMap : Type 0
NotifierMap = Map ℕ NotifyResult

pub data SubscriptionState : Type 0 where
  existing : Qos → SubscriptionState
  pending : List (Option Waker) → SubscriptionState

pub record ClientShared : Type 0 where
  pub next_packet_id : ℕ
  pub notify_ack : NotifierMap
  pub notify_rec : NotifierMap
  pub notify_comp : NotifierMap
  pub subs : Map (List ℕ) SubscriptionState
  pub next_callback_id : ℕ

abbrev pub new : ClientShared
new = record {
  next_packet_id = 1;
  notify_ack = [];
  notify_rec = [];
  notify_comp = [];
  subs = [];
  next_callback_id = 0;
}

-- `fetch_add(1)` on the atomics, which wrap around: the old value is the result.
abbrev pub take_packet_id : ClientShared → ℕ × ClientShared
take_packet_id s = (s.next_packet_id, record s { next_packet_id = (s.next_packet_id + 1) % 2 ^ 16 })

abbrev pub take_callback_id : ClientShared → ℕ × ClientShared
take_callback_id s =
    (s.next_callback_id, record s { next_callback_id = (s.next_callback_id + 1) % 2 ^ 32 })
