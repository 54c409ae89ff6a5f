-- ===== src/Transceiver/Task.antt =====
-- `Transceiver::task_step` and `run_task_loop` of src/transceiver/mod.rs. What `select!` picks is an input:
-- a turn of the loop is the time and the branch that became ready. The loop over `recv` ends at `WouldBlock`
-- or with the task, and a broker may send without an end: it runs on fuel, and `none` is where that ends.
pub mod Written
pub mod Refines
pub mod Loops
pub mod Orderly
use lmc_rs.Prelude.{
  ℕ, zero, suc, ◌+◌, Bool, true, false, Option, none, some, List, [], ◌∷◌, leb, length,
  if◌then◌else◌, ◌&&◌, not,
}
use lmc_rs.Errors.{IoResult, done, failed, crashed, IoError}
use lmc_rs.Transport.{Transport}
use lmc_rs.Transport.Tcp.{is_would_block}
use lmc_rs.PacketReader.{PacketReadState, incoming, connection_closed, need_more_data, recv}
use lmc_rs.Subscription.Receivers.{Channels}
use lmc_rs.Commands.{Command}
use lmc_rs.Transceiver.State.{Transceiver, Action}
use lmc_rs.Transceiver.Sending.{is_some}
use lmc_rs.Transceiver.Writing.{TxPacket, Outbox}
use lmc_rs.Transceiver.Writing.Wire.{pending}
use lmc_rs.Transceiver.Writing.Continue.{Round, ends, repeats, write_more, one_round}
use lmc_rs.Transceiver.Process.{process_packet}
use lmc_rs.Transceiver.Step.{TaskState, want_continue, want_stop, on_command, on_tick}
use lmc_rs.Transceiver.Step
use lmc_rs.Transceiver.Step.Reach.{with_read, with_written}
use lmc_rs.Transceiver.Shutdown.{LoopEnd, stopped, io_error}
use lmc_rs.Transceiver.Shutdown

-- The branches of `select!`, with what `readable`, `writable` and the command queue answer.
pub data Ready : Type 0 where
  writable readable : IoResult (Unit {0}) → Ready
  commanded : Option Command → Ready
  alarm : Ready

pub record Turn : Type 0 where
  pub now : ℕ
  pub ready : Ready

-- Whether a write ends the packet that is being transmitted.
abbrev pub finishes : Option TxPacket → IoResult ℕ → Bool
finishes none r = false
finishes (some tx) (done written) = leb 1 written && leb (length tx.bytes) (tx.pos + written)
finishes (some tx) _ = false

module _ (t : Transport) where
  -- `last_tx` behind a round of `continue_writing_packet` that is not the last.
  abbrev pub round_time : ℕ → Option TxPacket → Transceiver t.State → ℕ
  round_time now none m = m.last_tx
  round_time now (some tx) m =
      if finishes (some tx) (write_more t tx m.transport).0 then now else m.last_tx

  abbrev pub next_write :
      (Transceiver t.State → Option (IoResult Bool × Transceiver t.State))
      → ℕ
      → Transceiver t.State
      → Round t
      → Option (IoResult Bool × Transceiver t.State)
  next_write again now m (ends r o s) = some (r, with_written o s m.last_tx m)
  next_write again now m (repeats o s) =
      again (with_written o s (round_time now m.outbox.tx_pkt m) m)

  -- `continue_writing_packet` on the whole state.
  unfoldable pub write_on :
      ℕ → ℕ → Transceiver t.State → Option (IoResult Bool × Transceiver t.State)
  unfolding write_more one_round
  write_on zero now m = none
  write_on (suc fuel) now m =
      next_write (write_on fuel now) now m
        (one_round t m.outbox.tx_pkt m.outbox.internal_pkt_queue m.transport)

  -- One more than the number of pending bytes is enough.
  unfoldable pub continue_writing :
      ℕ → Transceiver t.State → Option (IoResult Bool × Transceiver t.State)
  unfolding write_on
  continue_writing now m = write_on (suc (length (pending m.outbox))) now m

  abbrev pub after_writing :
      IoResult Bool × Transceiver t.State → IoResult TaskState × Transceiver t.State
  after_writing (done true, m) = (done Step.connection_closed, m)
  after_writing (done false, m) = (done want_continue, m)
  after_writing (failed e, m) = (if is_would_block e then done want_continue else failed e, m)
  after_writing (crashed, m) = (crashed, m)

  abbrev pub write_prepared :
      ℕ
      → IoResult (Unit {0})
      → Transceiver t.State
      → Option (IoResult TaskState × Transceiver t.State)
  write_prepared now (done u) m = elim (continue_writing now m) [
    | none ↦ none
    | some r ↦ some (after_writing r)
  ]
  write_prepared now (failed e) m = some (failed e, m)
  write_prepared now crashed m = some (crashed, m)

  -- The branch of a socket that is writable.
  abbrev pub on_writable :
      ℕ
      → IoResult (Unit {0})
      → Transceiver t.State
      → Option (IoResult TaskState × Transceiver t.State)
  on_writable now (done u) m =
      let r = t.pre_write m.transport in write_prepared now r.0 (record m { transport = r.1 })
  on_writable now (failed e) m = some (failed e, m)
  on_writable now crashed m = some (crashed, m)

module _ (t : Transport) (c : Channels) where
  abbrev Loop : Type 0
  Loop = Transceiver t.State → Option (IoResult TaskState × Transceiver t.State)

  abbrev pub after_packet :
      Loop → IoResult Bool × Transceiver t.State → Option (IoResult TaskState × Transceiver t.State)
  after_packet again (done true, m) = some (done want_stop, m)
  after_packet again (done false, m) = again m
  after_packet again (failed e, m) = some (failed e, m)
  after_packet again (crashed, m) = some (crashed, m)

  abbrev pub after_recv : Loop → ℕ → IoResult PacketReadState → Loop
  after_recv again now (done (incoming pkt)) m = after_packet again (process_packet t c now pkt m)
  after_recv again now (done connection_closed) m = some (done Step.connection_closed, m)
  after_recv again now (done need_more_data) m = again m
  after_recv again now (failed e) m =
      some (if is_would_block e then done want_continue else failed e, m)
  after_recv again now crashed m = some (crashed, m)

  unfoldable pub read_packets : ℕ → ℕ → Loop
  unfolding recv process_packet
  read_packets zero now m = none
  read_packets (suc fuel) now m =
      let r = recv t m.rx_pkt m.transport in
      after_recv (read_packets fuel now) now r.0 (with_read r.1 r.2 m)

  abbrev pub read_prepared : ℕ → ℕ → IoResult Bool → Loop
  read_prepared fuel now (done true) m = read_packets fuel now m
  read_prepared fuel now (done false) m = some (done want_continue, m)
  read_prepared fuel now (failed e) m = some (failed e, m)
  read_prepared fuel now crashed m = some (crashed, m)

  -- The branch of a socket that is readable.
  abbrev pub on_readable : ℕ → ℕ → IoResult (Unit {0}) → Loop
  on_readable fuel now (done u) m =
      let r = t.pre_read m.transport in read_prepared fuel now r.0 (with_read m.rx_pkt r.1 m)
  on_readable fuel now (failed e) m = some (failed e, m)
  on_readable fuel now crashed m = some (crashed, m)

  -- The conditions of the branches.
  unfoldable pub is_enabled : Ready → Transceiver t.State → Bool
  is_enabled (writable r) m = (t.wants m.transport true (is_some m.outbox.tx_pkt)).write
  is_enabled (readable r) m = (t.wants m.transport true (is_some m.outbox.tx_pkt)).read
  is_enabled (commanded cmd) m =
      not m.cmd_queue_closed && (not m.connecting && not (is_some m.outbox.tx_pkt))
  is_enabled alarm m = true

  unfoldable pub task_step : ℕ → ℕ → Ready → Loop
  unfolding continue_writing read_packets on_command on_tick
  task_step fuel now (writable r) m = on_writable t now r m
  task_step fuel now (readable r) m = on_readable fuel now r m
  task_step fuel now (commanded cmd) m = some (on_command t now cmd m)
  task_step fuel now alarm m = some (on_tick t now m)

  -- How `run_task_loop` stands: it waits for its next turn, it has returned, or it has panicked.
  pub data Looped : Type 0 where
    waits : Looped
    returned : LoopEnd → Looped
    unwinds : Looped

  abbrev pub Run : Type 0
  Run = Transceiver t.State → Option (Looped × Transceiver t.State)

  abbrev pub after_step :
      Run
      → Option (IoResult TaskState × Transceiver t.State)
      → Option (Looped × Transceiver t.State)
  after_step again none = none
  after_step again (some (done want_continue, m)) = again m
  after_step again (some (done want_stop, m)) = some (returned stopped, m)
  after_step again (some (done Step.connection_closed, m)) =
      some (returned Shutdown.connection_closed, m)
  after_step again (some (failed e, m)) = some (returned (io_error e), m)
  after_step again (some (crashed, m)) = some (unwinds, m)

  -- The loop over its turns; what becomes ready while its branch is off is passed over.
  unfoldable pub task_loop : ℕ → List Turn → Run
  unfolding is_enabled task_step
  task_loop fuel [] m = some (waits, m)
  task_loop fuel (turn ∷ turns) m =
      let again = task_loop fuel turns in
      elim (is_enabled turn.ready m) [
        | false ↦ again m
        | true ↦ after_step again (task_step fuel turn.now turn.ready m)
      ]
