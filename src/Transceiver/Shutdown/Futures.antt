-- ===== src/Transceiver/Shutdown/Futures.antt =====
-- What the end of the task of src/transceiver/mod.rs means to the futures of src/futures.rs.
use lmc_rs.Prelude.{
  zero, suc, ℕ, ◌≡◌, ◌≢◌, refl, Bool, true, false, ◌||◌, Option, none, some, List, [], ◌∷◌, ◌++◌,
  map, arith, ◌==◌, get_elem?,
}
use lmc_rs.Prelude.Maps.{Map, lookup, nat_eq, text_eq}
use lmc_rs.Shared.{ClientShared, with_waker, Waker, SubscriptionState, pending}
use lmc_rs.Futures.{ready}
use lmc_rs.Futures.Publish
use lmc_rs.Futures.Publish.{PublishFuture, Stage, ack, rec, comp, access_notifier_map}
use lmc_rs.Futures.Publish.Waiting.{elem, elem-fail_notify_map, lookup-fail_notify_map}
use lmc_rs.Futures.Subscribe
use lmc_rs.Futures.Subscribe.{SubscribeFuture, refused}
use lmc_rs.Transceiver.Notify.{fail_notify_map}
use lmc_rs.Transceiver.State.{Transceiver, Effect, woke, connect_result, dispatched, wake_all}
use lmc_rs.Transceiver.Shutdown.{
  LoopEnd, connection_closed, stopped, io_error, end_task, shut_down, release, drained, wakers_of,
  present_wakers,
}

-- Whether a waker has been woken.
abbrev pub was_woken : Waker → List Effect → Bool
was_woken w [] = false
was_woken w (woke v ∷ log) = v == w || was_woken w log
was_woken w (connect_result r ∷ log) = was_woken w log
was_woken w (dispatched msg sent ∷ log) = was_woken w log

was_woken-wake_all :
    (w : Waker) (ws : List Waker) (log : List Effect)
    → was_woken w (wake_all (map some ws) log) ≡ (elem w ws || was_woken w log)
was_woken-wake_all w [] log = refl
was_woken-wake_all w (v ∷ ws) log = ground (arith, was_woken-wake_all w ws (woke v ∷ log))

elem-append : (w : Waker) (us vs : List Waker) → elem w (us ++ vs) ≡ (elem w us || elem w vs)
elem-append w [] vs = refl
elem-append w (u ∷ us) vs = ground (arith, elem-append w us vs)

elem-parts :
    (w : Waker) (a b c d : List Waker)
    → elem w (a ++ (b ++ (c ++ d))) ≡ (elem w a || (elem w b || (elem w c || elem w d)))
elem-parts w a b c d =
    ground (arith, elem-append w a (b ++ (c ++ d)), elem-append w b (c ++ d), elem-append w c d)

elem-present_wakers :
    (w : Waker) (i : ℕ) (ws : List (Option Waker))
    → get_elem? ws i ≡ some (some w)
    → elem w (present_wakers ws) ≡ true
elem-present_wakers w i [] h = absurd cc
elem-present_wakers w zero (v ∷ ws) h = ground (arith, h)
elem-present_wakers w (suc i) (none ∷ ws) h = elem-present_wakers w i ws h
elem-present_wakers w (suc i) (some v ∷ ws) h = ground (arith, elem-present_wakers w i ws h)

elem-drained :
    (w : Waker) (i : ℕ) (topic : List ℕ) (ws : List (Option Waker))
    (subs : Map (List ℕ) SubscriptionState)
    → lookup topic subs ≡ some (pending ws)
    → get_elem? ws i ≡ some (some w)
    → elem w (drained subs) ≡ true
elem-drained w i topic ws [] h e = absurd cc
elem-drained w i topic ws ((k, sub) ∷ subs) h e = ground (
  arith,
  h,
  e,
  elem-append w (wakers_of sub) (drained subs),
  elem-drained w i topic ws subs,
  elem-present_wakers w i ws,
)

access-release :
    (stage : Stage) (s : ClientShared)
    → access_notifier_map stage (release s).0 ≡ (fail_notify_map (access_notifier_map stage s)).0
unfolding release
access-release ack s = refl
access-release rec s = refl
access-release comp s = refl

elem-release :
    (stage : Stage) (w : Waker) (s : ClientShared)
    → elem w (fail_notify_map (access_notifier_map stage s)).1 ≡ true
    → elem w (release s).1 ≡ true
unfolding release
elem-release ack w s h = ground (
  arith,
  h,
  elem-parts w (fail_notify_map s.notify_ack).1 (fail_notify_map s.notify_rec).1
      (fail_notify_map s.notify_comp).1 (drained s.subs),
)
elem-release rec w s h = ground (
  arith,
  h,
  elem-parts w (fail_notify_map s.notify_ack).1 (fail_notify_map s.notify_rec).1
      (fail_notify_map s.notify_comp).1 (drained s.subs),
)
elem-release comp w s h = ground (
  arith,
  h,
  elem-parts w (fail_notify_map s.notify_ack).1 (fail_notify_map s.notify_rec).1
      (fail_notify_map s.notify_comp).1 (drained s.subs),
)

elem-release_subs :
    (w : Waker) (s : ClientShared) → elem w (drained s.subs) ≡ true → elem w (release s).1 ≡ true
unfolding release
elem-release_subs w s h = ground (
  arith,
  h,
  elem-parts w (fail_notify_map s.notify_ack).1 (fail_notify_map s.notify_rec).1
      (fail_notify_map s.notify_comp).1 (drained s.subs),
)

module _ {S : Type 0} where
  shut_down-publish :
      (ret : Option Bool) (m : Transceiver S) (stage : Stage) (f : PublishFuture) (w v : Waker)
      → f.result ≡ none
      → lookup f.packet_id (access_notifier_map stage m.shared) ≡ some (with_waker w)
      → let n = (shut_down ret m).1 in
        (was_woken w n.log ≡ true)
        × ((Publish.poll v f (access_notifier_map stage n.shared)).0 ≡ ready true)
  unfolding shut_down Publish.poll
  shut_down-publish ret m stage f w v h e = ground (
    arith,
    h,
    e,
    was_woken-wake_all w (release m.shared).1 m.log,
    elem-release stage w m.shared,
    access-release stage m.shared,
    lookup-fail_notify_map f.packet_id (access_notifier_map stage m.shared),
    elem-fail_notify_map f.packet_id w (access_notifier_map stage m.shared),
  )

  -- When the task ends for another reason than a closed connection, a publish future that awaits the broker
  -- at any of the three stages is woken, and its next poll reports a failure.
  pub end_task-publish :
      (end : LoopEnd) (ret : Option Bool) (m : Transceiver S) (stage : Stage) (f : PublishFuture)
      (w v : Waker)
      → end ≢ connection_closed
      → f.result ≡ none
      → lookup f.packet_id (access_notifier_map stage m.shared) ≡ some (with_waker w)
      → let n = (end_task end ret m).1 in
        (was_woken w n.log ≡ true)
        × ((Publish.poll v f (access_notifier_map stage n.shared)).0 ≡ ready true)
  unfolding end_task
  end_task-publish connection_closed ret m stage f w v x h e = absurd (x refl)
  end_task-publish stopped ret m stage f w v x h e = shut_down-publish ret m stage f w v h e
  end_task-publish (io_error y) ret m stage f w v x h e = shut_down-publish ret m stage f w v h e

  shut_down-subscribe :
      (ret : Option Bool) (m : Transceiver S) (f : SubscribeFuture) (ws : List (Option Waker))
      (i w v : ℕ)
      → f.result ≡ none
      → lookup f.topic m.shared.subs ≡ some (pending ws)
      → get_elem? ws i ≡ some (some w)
      → let n = (shut_down ret m).1 in
        (was_woken w n.log ≡ true)
        × (Subscribe.poll v f n.shared.subs
            ≡ some (ready refused, record f { result = some refused }, []))
  unfolding shut_down Subscribe.poll release
  shut_down-subscribe ret m f ws i w v h e g = ground (
    arith,
    h,
    was_woken-wake_all w (release m.shared).1 m.log,
    elem-release_subs w m.shared,
    elem-drained w i f.topic ws m.shared.subs e g,
  )

  -- When the task ends for another reason than a closed connection, every future that awaits the answer to a
  -- subscription is woken, and its next poll says that the subscription failed, without a panic.
  pub end_task-subscribe :
      (end : LoopEnd) (ret : Option Bool) (m : Transceiver S) (f : SubscribeFuture)
      (ws : List (Option Waker)) (i w v : ℕ)
      → end ≢ connection_closed
      → f.result ≡ none
      → lookup f.topic m.shared.subs ≡ some (pending ws)
      → get_elem? ws i ≡ some (some w)
      → let n = (end_task end ret m).1 in
        (was_woken w n.log ≡ true)
        × (Subscribe.poll v f n.shared.subs
            ≡ some (ready refused, record f { result = some refused }, []))
  unfolding end_task
  end_task-subscribe connection_closed ret m f ws i w v x h e g = absurd (x refl)
  end_task-subscribe stopped ret m f ws i w v x h e g = shut_down-subscribe ret m f ws i w v h e g
  end_task-subscribe (io_error y) ret m f ws i w v x h e g =
      shut_down-subscribe ret m f ws i w v h e g
