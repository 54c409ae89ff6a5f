-- ===== src/Futures/Publish/Waiting.antt =====
-- A `PublishFuture` against a machine that waits for one event.
use lmc_rs.Prelude.{
  ℕ, ◌≡◌, refl, Bool, true, false, ◌||◌, Option, none, some, List, [], ◌∷◌, ◌==◌, if◌then◌else◌,
  arith,
}
use lmc_rs.Prelude.Maps.{nat_eq, lookup, insert, lookup-remove, lookup-insert}
use lmc_rs.Shared.{NotifierMap, NotifyResult, without_waker, with_waker, failed, Waker}
use lmc_rs.Futures.{Poll, not_ready, ready}
use lmc_rs.Futures.Publish.{PublishFuture, poll, new}
use lmc_rs.Transceiver.Notify.{notify, fail_notify_map}

-- What a future waits for: the event with the waker of the last poll, nothing more after the event or
-- after the end of the task, and nothing once it has answered.
pub data Wait : Type 0 where
  waiting : Option Waker → Wait
  arrived gave_up : Wait
  answered : Bool → Wait

abbrev pub spec_poll : Waker → Wait → Poll Bool × Wait
spec_poll w (waiting o) = (not_ready, waiting (some w))
spec_poll w arrived = (ready false, answered false)
spec_poll w gave_up = (ready true, answered true)
spec_poll w (answered b) = (ready b, answered b)

abbrev pub spec_notify : Wait → Wait
spec_notify (answered b) = answered b
spec_notify _ = arrived

abbrev pub spec_end : Wait → Wait
spec_end (waiting o) = gave_up
spec_end s = s

abbrev entry_of : Option Waker → NotifyResult
entry_of none = without_waker
entry_of (some w) = with_waker w

-- The machine's state as the code has it.
abbrev pub Stands : PublishFuture → NotifierMap → Wait → Type 0
Stands f m (waiting o) = (f.result ≡ none) × (lookup f.packet_id m ≡ some (entry_of o))
Stands f m arrived = (f.result ≡ none) × (lookup f.packet_id m ≡ none)
Stands f m gave_up = (f.result ≡ none) × (lookup f.packet_id m ≡ some failed)
Stands f m (answered b) = f.result ≡ some b

pub new-Stands : (id : ℕ) (m : NotifierMap) → Stands (new id m).0 (new id m).1 (waiting none)
unfolding new
new-Stands id m = ground (arith, lookup-insert id id without_waker m)

poll-Stands :
    (w : Waker) (f : PublishFuture) (m : NotifierMap) (s : Wait)
    → Stands f m s
    → ((poll w f m).0 ≡ (spec_poll w s).0) × Stands (poll w f m).1 (poll w f m).2 (spec_poll w s).1
unfolding poll
poll-Stands w f m (waiting none) h =
    ground (arith, h, lookup-insert f.packet_id f.packet_id (with_waker w) m)
poll-Stands w f m (waiting (some v)) h =
    ground (arith, h, lookup-insert f.packet_id f.packet_id (with_waker w) m)
poll-Stands w f m arrived h = ground (arith, h)
poll-Stands w f m gave_up h = ground (arith, h)
poll-Stands w f m (answered b) h = ground (arith, h)

notify-Stands :
    (id : ℕ) (f : PublishFuture) (m : NotifierMap) (s : Wait)
    → Stands f m s
    → Stands f (notify id m).1 (if id == f.packet_id then spec_notify s else s)
unfolding notify
notify-Stands id f m (waiting o) h = ground (arith, h, lookup-remove id f.packet_id m)
notify-Stands id f m arrived h = ground (arith, h, lookup-remove id f.packet_id m)
notify-Stands id f m gave_up h = ground (arith, h, lookup-remove id f.packet_id m)
notify-Stands id f m (answered b) h = ground (arith, h)

abbrev fail_entry : Option NotifyResult → Option NotifyResult
fail_entry none = none
fail_entry (some v) = some failed

pub lookup-fail_notify_map :
    (id : ℕ) (m : NotifierMap) → lookup id (fail_notify_map m).0 ≡ fail_entry (lookup id m)
unfolding fail_notify_map
lookup-fail_notify_map id [] = refl
lookup-fail_notify_map id ((j, v) ∷ m) = ground (arith, lookup-fail_notify_map id m)

end-Stands :
    (f : PublishFuture) (m : NotifierMap) (s : Wait)
    → Stands f m s
    → Stands f (fail_notify_map m).0 (spec_end s)
end-Stands f m (waiting o) h = ground (arith, h, lookup-fail_notify_map f.packet_id m)
end-Stands f m arrived h = ground (arith, h, lookup-fail_notify_map f.packet_id m)
end-Stands f m gave_up h = ground (arith, h, lookup-fail_notify_map f.packet_id m)
end-Stands f m (answered b) h = h

-- What happens to the future and to its map.
pub data Event : Type 0 where
  polled : Waker → Event
  notified : ℕ → Event
  task_ended : Event

-- The answers of the polls.
unfoldable pub answers : List Event → PublishFuture → NotifierMap → List (Poll Bool)
answers [] f m = []
answers (polled w ∷ es) f m = (poll w f m).0 ∷ answers es (poll w f m).1 (poll w f m).2
answers (notified id ∷ es) f m = answers es f (notify id m).1
answers (task_ended ∷ es) f m = answers es f (fail_notify_map m).0

unfoldable pub spec_answers : ℕ → List Event → Wait → List (Poll Bool)
spec_answers id [] s = []
spec_answers id (polled w ∷ es) s = (spec_poll w s).0 ∷ spec_answers id es (spec_poll w s).1
spec_answers id (notified j ∷ es) s = spec_answers id es (if j == id then spec_notify s else s)
spec_answers id (task_ended ∷ es) s = spec_answers id es (spec_end s)

packet_id-poll :
    (w : Waker) (f : PublishFuture) (m : NotifierMap) → (poll w f m).1.packet_id ≡ f.packet_id
unfolding poll
packet_id-poll w f m = ground arith

answers-spec_answers :
    (es : List Event) (f : PublishFuture) (m : NotifierMap) (s : Wait)
    → Stands f m s
    → answers es f m ≡ spec_answers f.packet_id es s
unfolding answers spec_answers
answers-spec_answers [] f m s h = refl
answers-spec_answers (polled w ∷ es) f m s h =
    let (same, next) = poll-Stands w f m s h in
    rw
      (
        same,
        answers-spec_answers es (poll w f m).1 (poll w f m).2 (spec_poll w s).1 next,
        packet_id-poll w f m,
      )
      refl
answers-spec_answers (notified id ∷ es) f m s h =
    answers-spec_answers es f (notify id m).1 (if id == f.packet_id then spec_notify s else s)
      (notify-Stands id f m s h)
answers-spec_answers (task_ended ∷ es) f m s h =
    answers-spec_answers es f (fail_notify_map m).0 (spec_end s) (end-Stands f m s h)

-- Whatever the polls and the events of the task, in any order, a new future answers as the waiting
-- machine does: not ready until its own packet is notified or the task ends, then without failure in the
-- first case and with failure in the second, and the same again for ever.
pub new-answers :
    (id : ℕ) (m : NotifierMap) (es : List Event)
    → answers es (new id m).0 (new id m).1 ≡ spec_answers id es (waiting none)
new-answers id m es =
    unfold new in answers-spec_answers es (new id m).0 (new id m).1 (waiting none) (new-Stands id m)

abbrev pub elem : Waker → List Waker → Bool
elem w [] = false
elem w (v ∷ vs) = v == w || elem w vs

pub elem-fail_notify_map :
    (id w : ℕ) (m : NotifierMap)
    → lookup id m ≡ some (with_waker w)
    → elem w (fail_notify_map m).1 ≡ true
unfolding fail_notify_map
elem-fail_notify_map id w [] h = cc
elem-fail_notify_map id w ((j, v) ∷ m) h = ground (arith, elem-fail_notify_map id w m)

-- A future that has been polled with `w` and is not ready is woken by the notification of its packet and
-- by the end of the task, and is ready then, without and with failure.
pub poll_woken :
    (w v : Waker) (f : PublishFuture) (m : NotifierMap)
    → (poll w f m).0 ≡ not_ready
    → let f' = (poll w f m).1 in
      let m' = (poll w f m).2 in
      ((notify f'.packet_id m').0 ≡ some w)
      × ((poll v f' (notify f'.packet_id m').1).0 ≡ ready false)
      × (elem w (fail_notify_map m').1 ≡ true)
      × ((poll v f' (fail_notify_map m').0).0 ≡ ready true)
unfolding poll notify
poll_woken w v f m h = ground (
  arith,
  lookup-insert f.packet_id f.packet_id (with_waker w) m,
  lookup-remove f.packet_id f.packet_id (insert f.packet_id (with_waker w) m),
  lookup-fail_notify_map f.packet_id (insert f.packet_id (with_waker w) m),
  elem-fail_notify_map f.packet_id w (insert f.packet_id (with_waker w) m),
)
