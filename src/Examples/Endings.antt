-- ===== src/Examples/Endings.antt =====
-- The end of the task.
use lmc_rs.Prelude.{◌≡◌, ◌≢◌, refl, none, some, [], ◌∷◌, true}
use lmc_rs.Futures.{ready}
use lmc_rs.Futures.Publish
use lmc_rs.Futures.Publish.{PublishFuture, ack, rec, comp}
use lmc_rs.Futures.Subscribe
use lmc_rs.Futures.Subscribe.{SubscribeFuture, refused}
use lmc_rs.Transceiver.Shutdown.{connection_closed, stopped, end_task}
use lmc_rs.Transceiver.Shutdown.Futures.{was_woken, end_task-publish, end_task-subscribe}
use lmc_rs.Examples.States.{working, topic}

abbrev future : PublishFuture
future = record { packet_id = 7; result = none }

abbrev subscriber : SubscribeFuture
subscriber = record { topic = topic; waker_index = some 1; result = none }

stopped-apart : stopped ≢ connection_closed
stopped-apart e = cc

end_task-publish_example :
    let n = (end_task stopped (some true) working).1 in
    (was_woken 4 n.log ≡ true) × ((Publish.poll 8 future n.shared.notify_rec).0 ≡ ready true)
end_task-publish_example =
    end_task-publish stopped (some true) working rec future 4 8 stopped-apart refl refl

end_task-subscribe_example :
    let n = (end_task stopped (some true) working).1 in
    (was_woken 9 n.log ≡ true)
    × (Subscribe.poll 8 subscriber n.shared.subs
        ≡ some (ready refused, record subscriber { result = some refused }, []))
end_task-subscribe_example =
    end_task-subscribe stopped (some true) working subscriber (none ∷ some 9 ∷ []) 1 9 8
      stopped-apart refl refl refl
