-- ===== src/Futures/Publish.antt =====
-- `PublishFuture`. The notifier map that it works on is an argument.
pub mod Waiting
use lmc_rs.Prelude.{ℕ, Bool, true, false, Option, none, some}
use lmc_rs.Prelude.Maps.{nat_eq, lookup, insert, remove}
use lmc_rs.Shared.{
  ClientShared, NotifierMap, NotifyResult, without_waker, with_waker, failed, Waker,
}
use lmc_rs.Futures.{Poll, not_ready, ready}

-- The three `NotifierMapAccessor`s.
pub data Stage : Type 0 where
  ack rec comp : Stage

abbrev pub access_notifier_map : Stage → ClientShared → NotifierMap
access_notifier_map ack s = s.notify_ack
access_notifier_map rec s = s.notify_rec
access_notifier_map comp s = s.notify_comp

abbrev pub set_notifier_map : Stage → NotifierMap → ClientShared → ClientShared
set_notifier_map ack m s = record s { notify_ack = m }
set_notifier_map rec m s = record s { notify_rec = m }
set_notifier_map comp m s = record s { notify_comp = m }

pub record PublishFuture : Type 0 where
  pub packet_id : ℕ
  pub result : Option Bool

unfoldable pub new : ℕ → NotifierMap → PublishFuture × NotifierMap
new packet_id m =
    (record { packet_id = packet_id; result = none }, insert packet_id without_waker m)

abbrev pub poll_entry :
    Waker
    → PublishFuture
    → NotifierMap
    → Option NotifyResult
    → Poll Bool × PublishFuture × NotifierMap
poll_entry w f m (some failed) = (ready true, record f { result = some true }, m)
poll_entry w f m (some _) = (not_ready, f, insert f.packet_id (with_waker w) m)
poll_entry w f m none = (ready false, record f { result = some false }, m)

-- `true` is a failure.
unfoldable pub poll : Waker → PublishFuture → NotifierMap → Poll Bool × PublishFuture × NotifierMap
poll w f m = elim f.result [
  | some ret ↦ (ready ret, f, m)
  | none ↦ poll_entry w f m (lookup f.packet_id m)
]

unfoldable pub drop : PublishFuture → NotifierMap → NotifierMap
drop f m = elim f.result [ some ret ↦ m | none ↦ remove f.packet_id m ]
