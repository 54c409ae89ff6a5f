-- ===== src/Transceiver/Task/Loops.antt =====
-- The turns of `run_task_loop` of src/transceiver/mod.rs.
use lmc_rs.Prelude.{subst, ℕ, ◌≡◌, refl, Bool, true, false, Option, none, some, List, [], ◌∷◌, ◌++◌}
use lmc_rs.Errors.{IoResult, done, failed, crashed}
use lmc_rs.Transport.{Transport}
use lmc_rs.Subscription.Receivers.{Channels}
use lmc_rs.Transceiver.State.{Transceiver}
use lmc_rs.Transceiver.Process.Timeouts.{Covered}
use lmc_rs.Transceiver.Step.{TaskState, want_continue, want_stop, connection_closed}
use lmc_rs.Transceiver.Step.Reach.{Event, Run, rests, steps}
use lmc_rs.Transceiver.Spawn.{TransceiverBuildData, spawn, bootstrap, reached-Covered}
use lmc_rs.Transceiver.Task.{
  Turn, is_enabled, task_step, Looped, waits, returned, unwinds, after_step, task_loop,
}
use lmc_rs.Transceiver.Task.Refines.{Reached, Continues, task_step-Continues}

module _ (t : Transport) (c : Channels) where
  join :
      (es fs : List Event) (m n o : Transceiver t.State)
      → Run t c es m n
      → Run t c fs n o
      → Run t c (es ++ fs) m o
  join _ fs _ _ o (rests m) r = r
  join _ fs _ _ o (steps e es m n p s q) r = steps e (es ++ fs) m n o s (join es fs n p o q r)

  -- A loop that waits has come there by a run.
  abbrev pub Waits : Transceiver t.State → Option (Looped t c × Transceiver t.State) → Type 0
  Waits m (some (waits, n)) = Reached t c m n
  Waits m _ = Unit

  Waits-join :
      (m n : Transceiver t.State) (x : Option (Looped t c × Transceiver t.State))
      → Reached t c m n
      → Waits n x
      → Waits m x
  Waits-join m n none r h = tt
  Waits-join m n (some (waits, o)) r h = (r.0 ++ h.0, join r.0 h.0 m n o r.1 h.1)
  Waits-join m n (some (returned e, o)) r h = tt
  Waits-join m n (some (unwinds, o)) r h = tt

  after_step-Waits :
      (again : Transceiver t.State → Option (Looped t c × Transceiver t.State))
      (m : Transceiver t.State) (x : Option (IoResult TaskState × Transceiver t.State))
      → Continues t c m x
      → ((n : Transceiver t.State) → Waits n (again n))
      → Waits m (after_step t c again x)
  after_step-Waits again m none r h = tt
  after_step-Waits again m (some (done want_continue, n)) r h = Waits-join m n (again n) r (h n)
  after_step-Waits again m (some (done want_stop, n)) r h = tt
  after_step-Waits again m (some (done connection_closed, n)) r h = tt
  after_step-Waits again m (some (failed e, n)) r h = tt
  after_step-Waits again m (some (crashed, n)) r h = tt

  turn-Waits :
      (again : Transceiver t.State → Option (Looped t c × Transceiver t.State)) (fuel : ℕ)
      (turn : Turn) (m : Transceiver t.State) (b : Bool)
      → is_enabled t c turn.ready m ≡ b
      → ((n : Transceiver t.State) → Waits n (again n))
      → Waits m (elim b [
        | false ↦ again m
        | true ↦ after_step t c again (task_step t c fuel turn.now turn.ready m)
      ])
  turn-Waits again fuel turn m false e h = h m
  turn-Waits again fuel turn m true e h =
      after_step-Waits again m (task_step t c fuel turn.now turn.ready m)
        (task_step-Continues t c turn.now fuel turn.ready m e) h

  -- Whatever becomes ready and in whatever order, a task that waits for its next turn has come there by a
  -- run of the steps, so that what the runs keep holds in it.
  pub task_loop-Waits :
      (fuel : ℕ) (turns : List Turn) (m : Transceiver t.State)
      → Waits m (task_loop t c fuel turns m)
  unfolding task_loop
  task_loop-Waits fuel [] m = ([], rests m)
  task_loop-Waits fuel (turn ∷ turns) m =
      turn-Waits (task_loop t c fuel turns) fuel turn m (is_enabled t c turn.ready m) refl
        (task_loop-Waits fuel turns)

  -- As long as the task that `spawn` starts waits for its next turn, each packet that waits for an answer
  -- has a timeout. (Only SUBSCRIBE packets wait elsewhere.)
  pub task_loop-Covered :
      (now fuel : ℕ) (build : TransceiverBuildData t.State) (turns : List Turn)
      (m n : Transceiver t.State)
      → spawn now build ≡ some m
      → task_loop t c fuel turns (bootstrap t m).1 ≡ some (waits, n)
      → Covered n
  task_loop-Covered now fuel build turns m n e r =
      let run = subst (Waits (bootstrap t m).1) r (task_loop-Waits fuel turns (bootstrap t m).1) in
      reached-Covered now build m n run.0 e run.1
