-- ===== src/Examples/Leaving.antt =====
-- A task that is told to stop, with a packet half written, and disconnects.
use lmc_rs.Prelude.{◌≡◌, refl, true, false, List, [], ◌∷◌, none, some, Option}
use lmc_rs.Errors.{done}
use lmc_rs.Packets.Control.{from_type_and_flags}
use lmc_rs.Packets.Frame.{make_packet, encode_packet_size}
use lmc_rs.ByteIo.{finish_and_check}
use lmc_rs.Transport.Tcp
use lmc_rs.Transport.Tcp.Fills.{tcp}
use lmc_rs.Transceiver.State.{Transceiver}
use lmc_rs.Transceiver.Writing
use lmc_rs.Transceiver.Writing.{write_packet, clear_tx_packet, send_queue}
use lmc_rs.Transceiver.Writing.Continue.{one_round, write_more}
use lmc_rs.Transceiver.Sending.{make, queue_internal_packet}
use lmc_rs.Transceiver.Shutdown.{ShutdownStatus, stopped, end_task, shut_down}
use lmc_rs.Transceiver.Task.{continue_writing, write_on}
use lmc_rs.Transceiver.Disconnect.{
  Wait, writable, Stand, ended, flush_loop, send_disconnect_and_flush, close_loop,
  send_close_notify, disconnect_sequence, finish,
}
use lmc_rs.Examples.Scripted.{Script}
use lmc_rs.Examples.Sockets.{socket}
use lmc_rs.Examples.States.{working}

abbrev half_written : Transceiver Script
half_written = record working {
  outbox = record {
    tx_pkt = some (record { bytes = 0x40 ∷ 2 ∷ 0 ∷ 7 ∷ []; pos = 1; set_dup = false });
    internal_pkt_queue = [];
  };
}

abbrev waits : List Wait
waits = record { now = 5; socket = writable (done tt) } ∷ []

-- The rest of the packet and DISCONNECT.
abbrev status_of : {S : Type 0} → Option (Stand (tcp socket) × S) → Option ShutdownStatus
status_of none = none
status_of (some (ended status, n)) = some status
status_of (some (_, n)) = none

finish_status :
    status_of (finish (tcp socket) stopped waits half_written)
    ≡ some (record { disconnect_sent = true; clean = true })
unfolding finish disconnect_sequence send_disconnect_and_flush flush_loop continue_writing write_on
    one_round write_more clear_tx_packet send_queue Writing.try_send_packet write_packet make
    make_packet encode_packet_size finish_and_check from_type_and_flags queue_internal_packet
    Writing.queue_internal_packet send_close_notify close_loop end_task shut_down Tcp.wants
    Tcp.pre_write Tcp.write Tcp.flush Tcp.send_close_notify
finish_status = refl
