-- ===== src/Transceiver/Step/Reach.antt =====
-- `Transceiver::task_step` of src/transceiver/mod.rs as a relation: the branches that `select!` may take in a
-- state, and their runs. A branch is told by its event. The round of the loop that reads packets is a step of
-- its own, so that the relation has all the runs of the task and more. The step that ends the task is not one
-- of them; Shutdown has what follows it.
use lmc_rs.Prelude.{ℕ, ◌≡◌, false, Option, none, some, List, [], ◌∷◌}
use lmc_rs.Errors.{done, failed, would_block}
use lmc_rs.Transport.{Transport}
use lmc_rs.PacketReader.{PacketReader, incoming, need_more_data, recv}
use lmc_rs.Packets.Incoming.{IncomingPacket}
use lmc_rs.Subscription.Receivers.{Channels}
use lmc_rs.Commands.{Command}
use lmc_rs.Transceiver.State.{Transceiver}
use lmc_rs.Transceiver.Writing.{Outbox}
use lmc_rs.Transceiver.Writing.Continue.{continue_writing_packet}
use lmc_rs.Transceiver.Process.{process_packet}
use lmc_rs.Transceiver.Step.{on_command, on_tick, want_continue}

pub data Event : Type 0 where
  prepared : Event
  got : IncomingPacket → Event
  got_some : Event
  wrote : Event
  ordered : Option Command → Event
  ticked : Event

abbrev pub with_read : {S : Type 0} → PacketReader → S → Transceiver S → Transceiver S
with_read rx s m = record m { rx_pkt = rx; transport = s }

abbrev pub with_written : {S : Type 0} → Outbox → S → ℕ → Transceiver S → Transceiver S
with_written o s last_tx m = record m { outbox = o; transport = s; last_tx = last_tx }

-- Every round of the loop over `recv` is a step, and its end, at `WouldBlock`, too. `last_tx` changes where
-- a packet has been written.
pub data Step (t : Transport) (c : Channels)
    : Event → Transceiver t.State → Transceiver t.State → Type 0 where
  read_ready :
      (m : Transceiver t.State)
      → Step t c prepared m (with_read m.rx_pkt (t.pre_read m.transport).1 m)
  read_packet :
      (now : ℕ) (m n : Transceiver t.State) (rx : PacketReader) (s : t.State) (pkt : IncomingPacket)
      → recv t m.rx_pkt m.transport ≡ (done (incoming pkt), rx, s)
      → process_packet t c now pkt (with_read rx s m) ≡ (done false, n)
      → Step t c (got pkt) m n
  read_part :
      (m : Transceiver t.State) (rx : PacketReader) (s : t.State)
      → recv t m.rx_pkt m.transport ≡ (done need_more_data, rx, s)
      → Step t c got_some m (with_read rx s m)
  read_blocked :
      (m : Transceiver t.State) (rx : PacketReader) (s : t.State)
      → recv t m.rx_pkt m.transport ≡ (failed would_block, rx, s)
      → Step t c got_some m (with_read rx s m)
  write_all :
      (m : Transceiver t.State) (fuel last_tx : ℕ) (o : Outbox) (s : t.State)
      → continue_writing_packet t fuel m.outbox (t.pre_write m.transport).1
        ≡ some (done false, o, s)
      → Step t c wrote m (with_written o s last_tx m)
  write_blocked :
      (m : Transceiver t.State) (fuel last_tx : ℕ) (o : Outbox) (s : t.State)
      → continue_writing_packet t fuel m.outbox (t.pre_write m.transport).1
        ≡ some (failed would_block, o, s)
      → Step t c wrote m (with_written o s last_tx m)
  obey :
      (now : ℕ) (m n : Transceiver t.State) (cmd : Option Command)
      → m.cmd_queue_closed ≡ false
      → m.connecting ≡ false
      → m.outbox.tx_pkt ≡ none
      → on_command t now cmd m ≡ (done want_continue, n)
      → Step t c (ordered cmd) m n
  tick :
      (now : ℕ) (m n : Transceiver t.State)
      → on_tick t now m ≡ (done want_continue, n)
      → Step t c ticked m n

pub data Run (t : Transport) (c : Channels)
    : List Event → Transceiver t.State → Transceiver t.State → Type 0 where
  rests : (m : Transceiver t.State) → Run t c [] m m
  steps :
      (e : Event) (es : List Event) (m n o : Transceiver t.State)
      → Step t c e m n
      → Run t c es n o
      → Run t c (e ∷ es) m o
