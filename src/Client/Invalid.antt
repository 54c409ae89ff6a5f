-- ===== src/Client/Invalid.antt =====
-- `Client::subscribe` of src/lib.rs on a topic that the transceiver's task refuses.
use lmc_rs.Prelude.{ℕ, ◌≡◌, ap, none, some, List, [], ◌∷◌, arith}
use lmc_rs.Prelude.Maps.{lookup, lookup-insert, text_eq, text_beq_lem, insert}
use lmc_rs.Errors.{done}
use lmc_rs.Transport.{Transport}
use lmc_rs.Subscription.Tree.{get, invalid}
use lmc_rs.Shared.{ClientShared, pending, Waker}
use lmc_rs.Commands.{SubscribeCommand}
use lmc_rs.Futures.{not_ready}
use lmc_rs.Futures.Subscribe
use lmc_rs.Futures.Subscribe.{SubscribeFuture}
use lmc_rs.Client.{begin_subscribe, after, get_subscription_status, waiting}
use lmc_rs.Transceiver.State.{Transceiver}
use lmc_rs.Transceiver.Step.{on_subscribe, subscribe_found}

begin-pending :
    (topic : List ℕ) (s : ClientShared)
    → lookup topic s.subs ≡ none
    → (begin_subscribe topic s ≡ (after, record s { subs = insert topic (pending []) s.subs }))
      × (lookup topic (begin_subscribe topic s).1.subs ≡ some (pending []))
unfolding begin_subscribe
begin-pending topic s h =
    ground (arith, h, lookup-insert topic topic (pending []) s.subs, text_beq_lem topic topic)

-- On a topic that nobody has subscribed to and that the tree of subscriptions refuses, the command that
-- `subscribe` sends changes nothing and is not an error; the topic stays in the shared map as a pending
-- subscription, so that the future that `subscribe` awaits then is not ready.
pub on_subscribe-invalid :
    (t : Transport) (now : ℕ) (cmd : SubscribeCommand) (w : Waker) (m : Transceiver t.State)
    → lookup cmd.topic m.shared.subs ≡ none
    → get cmd.topic m.subscriptions ≡ invalid
    → let begun = record m { shared = (begin_subscribe cmd.topic m.shared).1 } in
      (on_subscribe t now cmd begun ≡ (done tt, begun))
      × (get_subscription_status cmd.topic begun.shared ≡ waiting)
      × (Subscribe.poll w (Subscribe.new cmd.topic) begun.shared.subs
          ≡ some (
            not_ready,
            record (Subscribe.new cmd.topic) { waker_index = some 0 },
            insert cmd.topic (pending (some w ∷ [])) begun.shared.subs,
          ))
unfolding on_subscribe get_subscription_status Subscribe.poll
on_subscribe-invalid t now cmd w m h e =
    let begun = record m { shared = (begin_subscribe cmd.topic m.shared).1 } in
    (
      ap (λ r. subscribe_found t now cmd r begun) e,
      ground (arith, (begin-pending cmd.topic m.shared h).1),
      ground (arith, (begin-pending cmd.topic m.shared h).1),
    )
