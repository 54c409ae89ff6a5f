-- ===== src/Transceiver/Disconnect.antt =====
-- The disconnect sequence of src/transceiver/mod.rs, and `task` as a whole. What the waits for the socket
-- answer is an input: a list, which the time limit of two seconds cuts off. A branch that is off is not
-- waited for, so that an entry for it is passed over.
pub mod Sent
pub mod Closes
pub mod Ends
pub mod Turns
pub mod Whole
use lmc_rs.Prelude.{
  ℕ, Bool, true, false, Option, none, some, List, [], ◌∷◌, if◌then◌else◌, ◌&&◌, ◌||◌, not,
}
use lmc_rs.Errors.{IoResult, done, failed, crashed, IoError}
use lmc_rs.Transport.{Transport, WantedFlags}
use lmc_rs.Transport.Tcp.{is_would_block}
use lmc_rs.Packets.Outgoing.Requests.{empty_packet, disconnect, encode_empty_packet}
use lmc_rs.Subscription.Receivers.{Channels}
use lmc_rs.Transceiver.State.{Transceiver, Action, pure, ◌>>=◌}
use lmc_rs.Transceiver.Sending.{is_some, make, queue_internal_packet}
use lmc_rs.Transceiver.Step.{TaskState}
use lmc_rs.Transceiver.Shutdown.{
  ShutdownStatus, LoopEnd, connection_closed, stopped, io_error, end_task,
}
use lmc_rs.Transceiver.Spawn.{bootstrap}
use lmc_rs.Transceiver.Task.{Turn, Looped, waits, returned, unwinds, continue_writing, task_loop}

-- What `writable` and `readable` answer.
pub data Socket : Type 0 where
  writable readable : IoResult (Unit {0}) → Socket

pub record Wait : Type 0 where
  pub now : ℕ
  pub socket : Socket

-- How a wait under the time limit ends: with a value and the waits that are left, or at the limit, or in a
-- panic. The last is that the fuel of a loop has ended.
pub data Limited (A : Type 0) : Type 0 where
  in_time : A → List Wait → Limited A
  timed_out panics out_of_fuel : Limited A

-- `io::Result<()>`; `none` is `Ok(())`.
abbrev pub Outcome : Type 0
Outcome = Option IoError

-- How a branch of one of the loops ends.
pub data Branch : Type 0 where
  goes_on : Branch
  leaves : Outcome → Branch
  breaks no_fuel : Branch

-- `!wants.read && !wants.write`
abbrev pub nothing_wanted : WantedFlags → Bool
nothing_wanted w = not w.read && not w.write

abbrev pub ends_in : {A : Type 0} → IoResult A → Branch
ends_in (done a) = goes_on
ends_in (failed e) = leaves (some e)
ends_in crashed = breaks

module _ (t : Transport) where
  abbrev pub Waiting : Type 0
  Waiting = Transceiver t.State → Limited Outcome × Transceiver t.State

  -- Behind a branch, with the waits that are left.
  abbrev pub after_branch :
      Waiting → List Wait → Branch × Transceiver t.State → Limited Outcome × Transceiver t.State
  after_branch again ws (goes_on, m) = again m
  after_branch again ws (leaves r, m) = (in_time r ws, m)
  after_branch again ws (breaks, m) = (panics, m)
  after_branch again ws (no_fuel, m) = (out_of_fuel, m)

  -- The branch of a socket that is readable, which is the same in both loops.
  abbrev pub read_branch : IoResult (Unit {0}) → Transceiver t.State → Branch × Transceiver t.State
  read_branch (done u) m =
      let r = t.pre_read m.transport in (ends_in r.0, record m { transport = r.1 })
  read_branch (failed e) m = (leaves (some e), m)
  read_branch crashed m = (breaks, m)

  -- `?` on the answer of `writable` and on `pre_write`; `next` is what follows.
  abbrev pub write_branch :
      (Transceiver t.State → Branch × Transceiver t.State)
      → IoResult (Unit {0})
      → Transceiver t.State
      → Branch × Transceiver t.State
  write_branch next (done u) m =
      let r = t.pre_write m.transport in
      elim r.0 [
        | done v ↦ next (record m { transport = r.1 })
        | failed e ↦ (leaves (some e), record m { transport = r.1 })
        | crashed ↦ (breaks, record m { transport = r.1 })
      ]
  write_branch next (failed e) m = (leaves (some e), m)
  write_branch next crashed m = (breaks, m)

  -- The match on `continue_writing_packet`.
  abbrev pub after_flushing : IoResult Bool × Transceiver t.State → Branch × Transceiver t.State
  after_flushing (done true, m) = (leaves none, m)
  after_flushing (done false, m) = (goes_on, m)
  after_flushing (failed e, m) = (if is_would_block e then goes_on else leaves (some e), m)
  after_flushing (crashed, m) = (breaks, m)

  abbrev pub flush_more : ℕ → Transceiver t.State → Branch × Transceiver t.State
  flush_more now m = elim (continue_writing t now m) [
    | none ↦ (no_fuel, m)
    | some r ↦ after_flushing r
  ]

  -- One wait of a loop: the branches, with their conditions.
  abbrev pub one_wait :
      WantedFlags
      → (ℕ → Transceiver t.State → Branch × Transceiver t.State)
      → Wait
      → Transceiver t.State
      → Branch × Transceiver t.State
  one_wait wants next w m = elim w.socket [
    | writable r ↦ if wants.write then write_branch (next w.now) r m else (goes_on, m)
    | readable r ↦ if wants.read then read_branch r m else (goes_on, m)
  ]

  -- The loop of `send_disconnect_and_flush`.
  unfoldable pub flush_loop : List Wait → Waiting
  unfolding continue_writing
  flush_loop [] m =
      if nothing_wanted (t.wants m.transport false (is_some m.outbox.tx_pkt))
      then (in_time none [], record m { disconnect_sent = true })
      else (timed_out, m)
  flush_loop (w ∷ ws) m =
      let wants = t.wants m.transport false (is_some m.outbox.tx_pkt) in
      elim (nothing_wanted wants) [
        | true ↦ (in_time none (w ∷ ws), record m { disconnect_sent = true })
        | false ↦ after_branch (flush_loop ws) ws (one_wait wants flush_more w m)
      ]

  abbrev pub queue_disconnect : Action t.State (Unit {0})
  unfolding make queue_internal_packet
  queue_disconnect =
      make (empty_packet {kind = disconnect}) >>= λ packet. queue_internal_packet t packet false

  abbrev pub after_queue :
      List Wait → IoResult (Unit {0}) × Transceiver t.State → Limited Outcome × Transceiver t.State
  after_queue ws (done u, m) = flush_loop ws m
  after_queue ws (failed e, m) = (in_time (some e) ws, m)
  after_queue ws (crashed, m) = (panics, m)

  unfoldable pub send_disconnect_and_flush : List Wait → Waiting
  unfolding make queue_internal_packet flush_loop
  send_disconnect_and_flush ws m = elim m.connecting [
    | true ↦ (in_time none ws, m)
    | false ↦ after_queue ws (queue_disconnect m)
  ]

  abbrev pub written : ℕ → Transceiver t.State → Branch × Transceiver t.State
  written now m = (goes_on, m)

  -- The loop of `send_close_notify`.
  unfoldable pub close_loop : List Wait → Waiting
  close_loop [] m =
      if nothing_wanted (t.wants m.transport false false)
      then (in_time none [], m)
      else (timed_out, m)
  close_loop (w ∷ ws) m =
      let wants = t.wants m.transport false false in
      elim (nothing_wanted wants) [
        | true ↦ (in_time none (w ∷ ws), m)
        | false ↦ after_branch (close_loop ws) ws (one_wait wants written w m)
      ]

  unfoldable pub send_close_notify : List Wait → Waiting
  unfolding close_loop
  send_close_notify ws m = close_loop ws (record m { transport = t.send_close_notify m.transport })

  -- Whether all went fine; an error is only logged.
  abbrev pub fine : Outcome → Bool
  fine none = true
  fine (some e) = false

  abbrev pub after_close :
      Bool → Limited Outcome × Transceiver t.State → Limited Bool × Transceiver t.State
  after_close clean (in_time r ws, m) = (in_time (clean && fine r) ws, m)
  after_close clean (timed_out, m) = (timed_out, m)
  after_close clean (panics, m) = (panics, m)
  after_close clean (out_of_fuel, m) = (out_of_fuel, m)

  abbrev pub after_disconnect :
      Limited Outcome × Transceiver t.State → Limited Bool × Transceiver t.State
  after_disconnect (in_time r ws, m) = after_close (fine r) (send_close_notify ws m)
  after_disconnect (timed_out, m) = (timed_out, m)
  after_disconnect (panics, m) = (panics, m)
  after_disconnect (out_of_fuel, m) = (out_of_fuel, m)

  unfoldable pub disconnect_sequence :
      List Wait → Transceiver t.State → Limited Bool × Transceiver t.State
  unfolding send_disconnect_and_flush send_close_notify
  disconnect_sequence ws m = after_disconnect (send_disconnect_and_flush ws m)

  -- How the task stands: it waits in its loop, it has ended, or it has panicked.
  pub data Stand : Type 0 where
    running panicked : Stand
    ended : ShutdownStatus → Stand

  -- `none` is that the fuel has ended.
  abbrev pub conclude :
      LoopEnd → Limited Bool × Transceiver t.State → Option (Stand × Transceiver t.State)
  unfolding end_task
  conclude e (in_time clean ws, m) = let r = end_task e (some clean) m in some (ended r.0, r.1)
  conclude e (timed_out, m) = let r = end_task e none m in some (ended r.0, r.1)
  conclude e (panics, m) = some (panicked, m)
  conclude e (out_of_fuel, m) = none

  -- `task` behind `run_task_loop`. A closed connection leaves at once.
  unfoldable pub finish :
      LoopEnd → List Wait → Transceiver t.State → Option (Stand × Transceiver t.State)
  unfolding disconnect_sequence end_task
  finish connection_closed ws m = let r = end_task connection_closed none m in some (ended r.0, r.1)
  finish stopped ws m = conclude stopped (disconnect_sequence ws m)
  finish (io_error e) ws m = conclude (io_error e) (disconnect_sequence ws m)

module _ (t : Transport) (c : Channels) where
  abbrev pub after_bootstrap :
      ℕ
      → List Turn
      → IoResult (Unit {0}) × Transceiver t.State
      → Option (Looped t c × Transceiver t.State)
  after_bootstrap fuel turns (done u, m) = task_loop t c fuel turns m
  after_bootstrap fuel turns (failed e, m) = some (returned (io_error e), m)
  after_bootstrap fuel turns (crashed, m) = some (unwinds, m)

  unfoldable pub run_task_loop :
      ℕ → List Turn → Transceiver t.State → Option (Looped t c × Transceiver t.State)
  unfolding bootstrap task_loop
  run_task_loop fuel turns m = after_bootstrap fuel turns (bootstrap t m)

  abbrev pub after_loop :
      List Wait → Option (Looped t c × Transceiver t.State) → Option (Stand t × Transceiver t.State)
  after_loop ws none = none
  after_loop ws (some (waits, m)) = some (running, m)
  after_loop ws (some (returned e, m)) = finish t e ws m
  after_loop ws (some (unwinds, m)) = some (panicked, m)

  unfoldable pub task :
      ℕ → List Turn → List Wait → Transceiver t.State → Option (Stand t × Transceiver t.State)
  unfolding run_task_loop finish
  task fuel turns ws m = after_loop ws (run_task_loop fuel turns m)
