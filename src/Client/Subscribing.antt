-- ===== src/Client/Subscribing.antt =====
-- `Client::subscribe` of src/lib.rs as a state machine over its awaits. Between two of them the other tasks
-- may change the shared state, which is handed to every step. `func` makes the receiver and what the command
-- says of it.
pub mod Later
pub mod Terminated
pub mod Replaced
pub mod Granted
use lmc_rs.Prelude.{ℕ, Bool, Option, none, some, List, ◌>>=◌}
use lmc_rs.Errors.{Qos, SubscribeError, refused_by_broker}
use lmc_rs.Errors
use lmc_rs.Subscription.Receivers.{
  SubscriptionKind, void, lossy, unbounded, fast_callback, SendResult, delivered, full, closed,
}
use lmc_rs.Shared.{ClientShared, Waker, take_callback_id}
use lmc_rs.Commands.{SubscribeCommand}
use lmc_rs.Futures.{Poll, not_ready, ready}
use lmc_rs.Futures.Subscribe
use lmc_rs.Futures.Subscribe.{SubscribeFuture, Answer, granted, refused, Subs}
use lmc_rs.Client.{SubWait, dont_wait, before, after, begin_subscribe, Callback}

abbrev pub Func : Type 0 → Type 0
Func R = ClientShared → (R × SubscriptionKind) × ClientShared

-- What the method awaits: another task's subscription of the topic, a free spot in the command queue (with
-- the quality of service, if it is known), the answer of the broker. The last two are its result.
pub data Subscribing (R : Type 0) : Type 0 where
  awaits_other : SubscribeFuture → Subscribing R
  sends : R → Option Qos → SubscribeCommand → Subscribing R
  awaits_broker : R → SubscribeFuture → Subscribing R
  returns : R → Qos → Subscribing R
  fails : SubscribeError → Subscribing R

module _ {R : Type 0} (func : Func R) (topic : List ℕ) (qos_hint : Qos) where
  -- From the call of `func` to the send.
  abbrev pub call : Option Qos → ClientShared → Subscribing R × ClientShared
  call actual_qos s =
      let r = func s in
      (sends r.0.0 actual_qos (record { topic = topic; qos = qos_hint; kind = r.0.1 }), r.1)

  abbrev pub go_on : SubWait × ClientShared → Subscribing R × ClientShared
  go_on (dont_wait qos, s) = call (some qos) s
  go_on (before, s) = (awaits_other (Subscribe.new topic), s)
  go_on (after, s) = call none s

  -- Up to the first await.
  unfoldable pub start : ClientShared → Subscribing R × ClientShared
  unfolding begin_subscribe
  start s = go_on (begin_subscribe topic s)

  abbrev pub on_other :
      ClientShared → Poll Answer × SubscribeFuture × Subs → Subscribing R × ClientShared
  on_other s (not_ready, f, subs) = (awaits_other f, record s { subs = subs })
  on_other s (ready (granted qos), f, subs) = call (some qos) (record s { subs = subs })
  on_other s (ready refused, f, subs) = (fails refused_by_broker, record s { subs = subs })

  abbrev pub on_broker :
      R → ClientShared → Poll Answer × SubscribeFuture × Subs → Subscribing R × ClientShared
  on_broker ret s (not_ready, f, subs) = (awaits_broker ret f, record s { subs = subs })
  on_broker ret s (ready (granted qos), f, subs) = (returns ret qos, record s { subs = subs })
  on_broker ret s (ready refused, f, subs) = (fails refused_by_broker, record s { subs = subs })

  -- A poll of the method where it awaits a subscription; `none` is a panic.
  unfoldable pub poll : Waker → Subscribing R → ClientShared → Option (Subscribing R × ClientShared)
  unfolding Subscribe.poll
  poll w (awaits_other f) s = Subscribe.poll w f s.subs >>= λ r. some (on_other s r)
  poll w (awaits_broker ret f) s = Subscribe.poll w f s.subs >>= λ r. some (on_broker ret s r)
  poll w x s = some (x, s)

  abbrev pub queued : R → Option Qos → Subscribing R
  queued ret (some qos) = returns ret qos
  queued ret none = awaits_broker ret (Subscribe.new topic)

  -- The end of the send, which fails where the task has ended.
  unfoldable pub sent : SendResult → Subscribing R → Subscribing R
  sent closed (sends ret actual_qos cmd) = fails Errors.SubscribeError.transceiver_task_terminated
  sent delivered (sends ret actual_qos cmd) = queued ret actual_qos
  sent full (sends ret actual_qos cmd) = sends ret actual_qos cmd
  sent r x = x

  -- The method is dropped; `none` is a panic.
  unfoldable pub cancel : Subscribing R → ClientShared → Option ClientShared
  unfolding Subscribe.drop
  cancel (awaits_other f) s = Subscribe.drop f s.subs >>= λ subs. some (record s { subs = subs })
  cancel (awaits_broker ret f) s =
      Subscribe.drop f s.subs >>= λ subs. some (record s { subs = subs })
  cancel x s = some s

-- What the public methods hand to `subscribe`; the number of a new queue is an argument.
abbrev pub subscribe_void : Func (Unit {0})
subscribe_void s = ((tt, void), s)

abbrev pub subscribe_lossy : ℕ → Func ℕ
subscribe_lossy queue s = ((queue, lossy queue), s)

abbrev pub subscribe_unbounded : ℕ → Func ℕ
subscribe_unbounded queue s = ((queue, unbounded queue), s)

abbrev pub subscribe_fast_callback : Func ℕ
subscribe_fast_callback s =
    let r = take_callback_id s in ((r.0, fast_callback (record { id = r.0 })), r.1)

-- The handle that `subscribe_fast_callback` makes of the result.
abbrev pub callback_of : List ℕ → ℕ → Callback
callback_of topic id = record { topic = topic; id = id }
