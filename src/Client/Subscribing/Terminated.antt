-- ===== src/Client/Subscribing/Terminated.antt =====
-- `Client::subscribe` of src/lib.rs once the transceiver's task has ended.
use lmc_rs.Prelude.{ℕ, ◌≡◌, ap, subst, ◌∙◌, none, some, Option, List, [], arith, ◌>>=◌}
use lmc_rs.Prelude.Maps.{lookup, lookup-insert, text_eq, text_beq_lem, insert}
use lmc_rs.Errors.{Qos}
use lmc_rs.Errors
use lmc_rs.Subscription.Receivers.{closed}
use lmc_rs.Shared.{ClientShared, pending, Waker}
use lmc_rs.Futures.{Poll, not_ready, ready}
use lmc_rs.Futures.Subscribe
use lmc_rs.Futures.Subscribe.{SubscribeFuture, Answer, Subs}
use lmc_rs.Futures.Subscribe.Registered.{IsRegistered, Polled, poll-Polled}
use lmc_rs.Client.{begin_subscribe, begin_with}
use lmc_rs.Client.Subscribing.{
  Func, Subscribing, awaits_other, awaits_broker, sends, returns, fails, start, sent, poll, go_on,
  on_other, call,
}
use lmc_rs.Client.Subscribing.Later.{LeavesSubs, Later, IsPending, Later-IsPending}

-- The call waits on, with a future that has no answer and is registered, so that it can be polled again.
abbrev pub StillWaits : {R : Type 0} → Option (Subscribing R × ClientShared) → Type 0
StillWaits (some (awaits_other f, s)) = (f.result ≡ none) × IsRegistered f s.subs
StillWaits (some (awaits_broker ret f, s)) = ⊥
StillWaits (some (sends ret qos cmd, s)) = ⊥
StillWaits (some (returns ret qos, s)) = ⊥
StillWaits (some (fails e, s)) = ⊥
StillWaits none = ⊥

module _ {R : Type 0} (func : Func R) (topic : List ℕ) (qos : Qos) where
  pub start-absent :
      (s : ClientShared)
      → lookup topic s.subs ≡ none
      → start func topic qos s
        ≡ call func topic qos none (record s { subs = insert topic (pending []) s.subs })
  unfolding start begin_subscribe
  start-absent s h = ap (λ o. go_on func topic qos (begin_with topic s o)) h

  start-pending :
      (s : ClientShared) (ws : List (Option Waker))
      → lookup topic s.subs ≡ some (pending ws)
      → start func topic qos s ≡ (awaits_other (Subscribe.new topic), s)
  unfolding start begin_subscribe
  start-pending s ws h = ap (λ o. go_on func topic qos (begin_with topic s o)) h

  on_other-StillWaits :
      (w : Waker) (f : SubscribeFuture) (s : ClientShared) (ws : List (Option Waker))
      (r : Option (Poll Answer × SubscribeFuture × Subs))
      → Polled w f (some (pending ws)) r
      → StillWaits (r >>= λ x. some (on_other func topic qos s x))
  on_other-StillWaits w f s ws none h = h
  on_other-StillWaits w f s ws (some (not_ready, g, m)) h = (h.1, h.2)
  on_other-StillWaits w f s ws (some (ready a, g, m)) h = absurd (cc (h.0))

  poll-StillWaits :
      (w : Waker) (f : SubscribeFuture) (s : ClientShared)
      → IsPending f.topic s.subs
      → f.result ≡ none
      → IsRegistered f s.subs
      → StillWaits (poll func topic qos w (awaits_other f) s)
  unfolding poll
  poll-StillWaits w f s h e k =
      on_other-StillWaits w f s h.0 (Subscribe.poll w f s.subs)
        (subst (λ o. Polled w f o (Subscribe.poll w f s.subs)) h.1 (poll-Polled w f s.subs e k))

  -- Once the task has ended, `subscribe` on a topic that nobody has subscribed to fails, and its entry stays:
  -- whatever clients do after it with `subscribe`, and with what leaves the map of subscriptions alone, a
  -- later call for the topic waits for the subscription of that first one; and a call that waits for it, with
  -- a future of the topic that has no answer and is registered, as a new one is, still waits with such a future
  -- after it is polled, so that no such poll is ready. The methods that make receivers are only to leave the map of subscriptions alone.
  pub start-terminated :
      (w : Waker) (f : SubscribeFuture) (s r : ClientShared)
      → LeavesSubs func
      → lookup topic s.subs ≡ none
      → Later (start func topic qos s).1 r
      → f.topic ≡ topic
      → f.result ≡ none
      → IsRegistered f r.subs
      → (sent func topic qos closed (start func topic qos s).0
          ≡ fails Errors.SubscribeError.transceiver_task_terminated)
        × (start func topic qos r ≡ (awaits_other (Subscribe.new topic), r))
        × StillWaits (poll func topic qos w (awaits_other f) r)
  unfolding sent
  start-terminated w f s r k h l same fresh registered =
      let e = start-absent s h in
      let kept : lookup topic (start func topic qos s).1.subs ≡ some (pending []) =
        ap (λ r. lookup topic r.1.subs) e
        ∙ ap (lookup topic) (k (record s { subs = insert topic (pending []) s.subs }))
        ∙ ground (arith, lookup-insert topic topic (pending []) s.subs, text_beq_lem topic topic) in
      let there = Later-IsPending topic (start func topic qos s).1 r l ([], kept) in
      (
        ap (λ r. sent func topic qos closed r.0) e,
        start-pending r there.0 there.1,
        poll-StillWaits w f r (there.0, ap (λ k. lookup k r.subs) same ∙ there.1) fresh registered,
      )
