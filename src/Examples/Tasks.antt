-- ===== src/Examples/Tasks.antt =====
-- The loop of the task over turns of its branches: CONNECT is written, CONNACK is read, a message is
-- published, and the alarm goes off.
use lmc_rs.Prelude.{◌++◌, ◌≡◌, refl, List, [], ◌∷◌, none, some, Option}
use lmc_rs.Errors.{done}
use lmc_rs.ByteIo.{read_trivial}
use lmc_rs.Packets.Control
use lmc_rs.Packets.Incoming.{from_bytes, decode_conn_ack, conn_ack_result}
use lmc_rs.PacketReader.{recv, recv_n, take_packet, decode_packet, parse_packet_size, parse_length}
use lmc_rs.Transport.Tcp
use lmc_rs.Transport.Tcp.Fills.{tcp, tcp-Honours, wants_hint}
use lmc_rs.Commands.{disconnect}
use lmc_rs.Transceiver.Shutdown.{stopped}
use lmc_rs.Transceiver.Disconnect
use lmc_rs.Transceiver.Disconnect.{run_task_loop, task}
use lmc_rs.Transceiver.Disconnect.Ends.{Concludes, disconnect_bytes}
use lmc_rs.Transceiver.Disconnect.Whole.{task-Concludes}
use lmc_rs.Transceiver.Writing.Wire.{pending}
use lmc_rs.Transceiver.State.{Transceiver}
use lmc_rs.Transceiver.Process.{process_packet, first_packet}
use lmc_rs.Transceiver.Process.Timeouts.{Covered}
use lmc_rs.Transceiver.Spawn.{bootstrap}
use lmc_rs.Transceiver.Step
use lmc_rs.Transceiver.Step.{on_command, on_tick, ping, resend_timeouts}
use lmc_rs.Transceiver.Writing
use lmc_rs.Transceiver.Writing.{write_packet, clear_tx_packet, send_queue}
use lmc_rs.Transceiver.Writing.Continue.{one_round, write_more}
use lmc_rs.Transceiver.Sending.{
  try_send_packet, queue_internal_packet, queue_internal_packet_with_timeout,
}
use lmc_rs.Transceiver.Task.{
  Turn, returned, waits, writable, readable, commanded, alarm, task_step, is_enabled, task_loop,
  read_packets, continue_writing, write_on,
}
use lmc_rs.Transceiver.Task.Loops.{Waits, task_loop-Waits, task_loop-Covered}
use lmc_rs.Examples.Scripted.{Script}
use lmc_rs.Examples.Sockets.{socket}
use lmc_rs.Examples.States.{channels}
use lmc_rs.Examples.Beginnings.{build, first, spawned, order}

abbrev turns : List Turn
turns =
    record { now = 10; ready = writable (done tt) }
    ∷ record { now = 50; ready = readable (done tt) }
    ∷ record { now = 100; ready = commanded (some order) }
    ∷ record { now = 150; ready = alarm }
    ∷ []

abbrev begun : Transceiver Script
begun = (bootstrap (tcp socket) first).1

abbrev state_or : {S L : Type 0} → S → Option (L × S) → S
state_or s none = s
state_or s (some (l, n)) = n

abbrev reached : Transceiver Script
reached = state_or first (task_loop (tcp socket) channels 5 turns begun)

reached-waits : task_loop (tcp socket) channels 5 turns begun ≡ some (waits, reached)
unfolding task_loop is_enabled task_step continue_writing write_on one_round write_more
    clear_tx_packet send_queue Writing.try_send_packet write_packet read_packets recv recv_n
    take_packet decode_packet parse_packet_size parse_length from_bytes decode_conn_ack
    conn_ack_result Control.packet_type read_trivial process_packet first_packet bootstrap
    try_send_packet on_command on_tick ping resend_timeouts Step.on_publish
    queue_internal_packet_with_timeout queue_internal_packet Writing.queue_internal_packet Tcp.wants
    Tcp.pre_read Tcp.read Tcp.pre_write Tcp.write Tcp.flush
reached-waits = refl

task_loop-Covered_example : Covered reached
task_loop-Covered_example =
    task_loop-Covered (tcp socket) channels 0 5 build turns first reached spawned reached-waits

task_loop-Waits_example :
    Waits (tcp socket) channels begun (task_loop (tcp socket) channels 5 turns begun)
task_loop-Waits_example = task_loop-Waits (tcp socket) channels 5 turns begun

-- The client disconnects at once.
abbrev leaving : List Turn
leaving =
    record { now = 10; ready = writable (done tt) }
    ∷ record { now = 50; ready = readable (done tt) }
    ∷ record { now = 100; ready = commanded (some disconnect) }
    ∷ []

abbrev left : Transceiver Script
left = state_or first (run_task_loop (tcp socket) channels 5 leaving first)

left-stopped : run_task_loop (tcp socket) channels 5 leaving first ≡ some (returned stopped, left)
unfolding run_task_loop task_loop is_enabled task_step continue_writing write_on one_round
    write_more clear_tx_packet send_queue Writing.try_send_packet write_packet read_packets recv
    recv_n take_packet decode_packet parse_packet_size parse_length from_bytes decode_conn_ack
    conn_ack_result Control.packet_type read_trivial process_packet first_packet bootstrap
    try_send_packet on_command Tcp.wants Tcp.pre_read Tcp.read Tcp.pre_write Tcp.write Tcp.flush
left-stopped = refl

task-Concludes_example :
    Concludes
      (tcp socket)
      (tcp-Honours socket)
      (wants_hint socket)
      (left.transport.output ++ (pending left.outbox ++ disconnect_bytes))
      (task
        (tcp socket)
        channels
        5
        leaving
        (record { now = 110; socket = Disconnect.writable (done tt) } ∷ [])
        first)
task-Concludes_example =
    task-Concludes (tcp socket) (tcp-Honours socket) (wants_hint socket) channels 0 5 build leaving
      (record { now = 110; socket = Disconnect.writable (done tt) } ∷ []) first left spawned
      left-stopped
