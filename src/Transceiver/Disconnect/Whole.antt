-- ===== src/Transceiver/Disconnect/Whole.antt =====
-- The transceiver's task of src/transceiver/mod.rs from `spawn` to its end.
use lmc_rs.Prelude.{subst, ℕ, ◌≡◌, sym, true, false, some, List, ◌++◌}
use lmc_rs.Packets.Outgoing.Requests.{encode_empty_packet}
use lmc_rs.Transport.{Transport}
use lmc_rs.Transport.Contract.{Honours}
use lmc_rs.Subscription.Receivers.{Channels}
use lmc_rs.Transceiver.State.{Transceiver}
use lmc_rs.Transceiver.Writing.Wire.{pending}
use lmc_rs.Transceiver.Shutdown.{stopped}
use lmc_rs.Transceiver.Spawn.{TransceiverBuildData, spawn, bootstrap}
use lmc_rs.Transceiver.Task.{Turn, returned}
use lmc_rs.Transceiver.Disconnect.{Wait, run_task_loop, after_loop, task}
use lmc_rs.Transceiver.Disconnect.Ends.{Concludes, disconnect_bytes, finish-Concludes}
use lmc_rs.Transceiver.Disconnect.Turns.{AfterLoop, bootstrap-AfterLoop, spawned}

module _ (t : Transport) (k : Honours t)
    (follows_hint : (s : t.State) → (t.wants s false true).write ≡ true) (c : Channels) where
  open t use {accepted}

  -- Over a transport that keeps `Honours` of Transport.Contract and waits to write when it is told that there
  -- is something to write: when the loop of a task that `spawn` starts returns because it is to stop, whatever
  -- happened before, whatever the socket answers then and wherever the time limit cuts in, the task ends or
  -- panics. If it reports that DISCONNECT has been sent, the transport has taken, in order, the bytes that were
  -- pending when the loop returned and then those of DISCONNECT, and no others.
  pub task-Concludes :
      (now fuel : ℕ) (build : TransceiverBuildData t.State) (turns : List Turn) (ws : List Wait)
      (m n : Transceiver t.State)
      → spawn now build ≡ some m
      → run_task_loop t c fuel turns m ≡ some (returned stopped, n)
      → Concludes t k follows_hint
          (accepted n.transport ++ (pending n.outbox ++ disconnect_bytes))
          (task t c fuel turns ws m)
  unfolding task run_task_loop
  task-Concludes now fuel build turns ws m n e r =
      let b = bootstrap t m in
      let orderly =
        subst (AfterLoop t k c) r
          (bootstrap-AfterLoop t k c fuel turns b.0 b.1 (spawned t k c now build m e)) in
      let all = accepted n.transport ++ (pending n.outbox ++ disconnect_bytes) in
      subst (λ x. Concludes t k follows_hint all (after_loop t c ws x)) (sym r)
        (finish-Concludes t k follows_hint stopped ws n orderly.0 orderly.1)
