-- ===== src/Futures/Subscribe.antt =====
-- `SubscribeFuture`. An index out of range panics.
pub mod Registered
pub mod Others
use lmc_rs.Prelude.{ℕ, Option, none, some, List, [], ◌∷◌, ◌++◌, length, set, ltb, if◌then◌else◌}
use lmc_rs.Prelude.Maps.{text_eq, Map, lookup, insert}
use lmc_rs.Errors.{Qos}
use lmc_rs.Shared.{SubscriptionState, existing, pending, Waker}
use lmc_rs.Futures.{Poll, not_ready, ready}

abbrev pub Subs : Type 0
Subs = Map (List ℕ) SubscriptionState

-- `Result<QoS, ()>`
pub data Answer : Type 0 where
  granted : Qos → Answer
  refused : Answer

pub record SubscribeFuture : Type 0 where
  pub topic : List ℕ
  pub waker_index : Option ℕ
  pub result : Option Answer

abbrev pub new : List ℕ → SubscribeFuture
new topic = record { topic = topic; waker_index = none; result = none }

abbrev pub register :
    Waker
    → SubscribeFuture
    → Subs
    → List (Option Waker)
    → Option ℕ
    → Option (Poll Answer × SubscribeFuture × Subs)
register w f m wakers (some i) =
    if ltb i (length wakers)
    then some (not_ready, f, insert f.topic (pending (set wakers i (some w))) m)
    else none
register w f m wakers none = some (
  not_ready,
  record f { waker_index = some (length wakers) },
  insert f.topic (pending (wakers ++ (some w ∷ []))) m,
)

abbrev pub poll_entry :
    Waker
    → SubscribeFuture
    → Subs
    → Option SubscriptionState
    → Option (Poll Answer × SubscribeFuture × Subs)
poll_entry w f m none = some (ready refused, record f { result = some refused }, m)
poll_entry w f m (some (existing qos)) =
    some (ready (granted qos), record f { result = some (granted qos) }, m)
poll_entry w f m (some (pending wakers)) = register w f m wakers f.waker_index

-- `none` is a panic.
unfoldable pub poll : Waker → SubscribeFuture → Subs → Option (Poll Answer × SubscribeFuture × Subs)
poll w f m = elim f.result [
  | some answer ↦ some (ready answer, f, m)
  | none ↦ poll_entry w f m (lookup f.topic m)
]

abbrev pub unregister : List ℕ → ℕ → Subs → Option SubscriptionState → Option Subs
unregister topic i m (some (pending wakers)) =
    if ltb i (length wakers) then some (insert topic (pending (set wakers i none)) m) else none
unregister topic i m _ = some m

unfoldable pub drop : SubscribeFuture → Subs → Option Subs
drop f m = elim f.result [
  | some answer ↦ some m
  | none ↦ elim f.waker_index [ none ↦ some m | some i ↦ unregister f.topic i m (lookup f.topic m) ]
]
