-- ===== src/Examples/Waiting.antt =====
-- Futures that wait, and an outbox that is written in pieces.
use lmc_rs.Prelude.{ℕ, ◌≡◌, refl, none, some, List, [], ◌∷◌, true, false, ◌++◌, arith, length, ◌<◌}
use lmc_rs.Shared.{NotifierMap, without_waker, pending}
use lmc_rs.Futures.{ready, not_ready}
use lmc_rs.Futures.Publish
use lmc_rs.Futures.Publish.{PublishFuture}
use lmc_rs.Futures.Publish.Waiting.{
  Event, polled, notified, task_ended, answers, spec_answers, waiting, new-answers, elem,
  poll_woken,
}
use lmc_rs.Futures.Subscribe
use lmc_rs.Futures.Subscribe.{SubscribeFuture, Subs}
use lmc_rs.Prelude.Maps.{text_eq}
use lmc_rs.Transceiver.Notify.{notify, fail_notify_map}
use lmc_rs.Transceiver.Writing.Wire
use lmc_rs.Transceiver.Writing.Continue.{continue_writing_packet}
use lmc_rs.Transceiver.Writing.Continue.Progress.{Ends, continue_writing_packet-Ends}
use lmc_rs.Examples.Scripted.{script}
use lmc_rs.Examples.Outboxes.{busy, quiet, busy-Idle}

abbrev events : List Event
events = polled 3 ∷ notified 8 ∷ polled 4 ∷ notified 7 ∷ task_ended ∷ polled 4 ∷ []

new-answers_example :
    answers events (Publish.new 7 []).0 (Publish.new 7 []).1 ≡ spec_answers 7 events (waiting none)
new-answers_example = new-answers 7 [] events

abbrev future : PublishFuture
future = record { packet_id = 7; result = none }

abbrev notifiers : NotifierMap
notifiers = (7, without_waker) ∷ []

not_yet : (Publish.poll 3 future notifiers).0 ≡ not_ready
unfolding Publish.poll
not_yet = refl

poll_woken_example :
    let f = (Publish.poll 3 future notifiers).1 in
    let m = (Publish.poll 3 future notifiers).2 in
    ((notify f.packet_id m).0 ≡ some 3)
    × ((Publish.poll 4 f (notify f.packet_id m).1).0 ≡ ready false)
    × (elem 3 (fail_notify_map m).1 ≡ true)
    × ((Publish.poll 4 f (fail_notify_map m).0).0 ≡ ready true)
poll_woken_example = poll_woken 3 4 future notifiers not_yet

abbrev topic : List ℕ
topic = 97 ∷ []

abbrev second : SubscribeFuture
second = record { topic = topic; waker_index = some 1; result = none }

abbrev subs : Subs
subs = (topic, pending (some 5 ∷ some 6 ∷ [])) ∷ []

busy_short : length (Wire.pending busy) < 10
busy_short = omega arith

continue_writing_packet_example :
    Ends script
      (script.accepted quiet ++ Wire.pending busy)
      (continue_writing_packet script 10 busy quiet)
continue_writing_packet_example =
    continue_writing_packet-Ends script 10 busy quiet busy-Idle busy_short
