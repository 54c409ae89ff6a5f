-- ===== src/Examples/Runs.antt =====
-- Runs of the task: a message with the second quality of service is read, and read again; a command and a
-- tick.
use lmc_rs.Prelude.{
  ◌≤◌, arith, ◌≡◌, ◌≤◌, ◌+◌, suc, refl, none, some, [], ◌∷◌, false, arith, if◌then◌else◌,
}
use lmc_rs.Errors.{done}
use lmc_rs.Utf8.{is_utf8}
use lmc_rs.ByteIo.{
  read_utf8, read_u16, finish_and_check, write_u16, write_trivial, read_byte_array, take_bytes,
  read_u8, read_trivial,
}
use lmc_rs.Packets.Control
use lmc_rs.Packets.Control.{try_from, from_type_and_flags}
use lmc_rs.Packets.Frame.{make_packet, encode_packet_size}
use lmc_rs.Packets.Outgoing.Requests.{encode_simple}
use lmc_rs.Packets.Incoming.{IncomingPublishPacket, publish, from_bytes, decode_publish}
use lmc_rs.PacketReader.{
  PacketReader, recv, take_packet, decode_packet, parse_packet_size, parse_length, incoming,
}
use lmc_rs.Transceiver.State.{Transceiver}
use lmc_rs.Transceiver.Writing
use lmc_rs.Transceiver.Writing.{write_packet}
use lmc_rs.Transceiver.Sending.{
  make, queue_internal_packet_with_timeout, queue_internal_packet, deliver,
}
use lmc_rs.Transceiver.Process.{process_packet, handle, on_publish, on_qos, answer_exactly_once}
use lmc_rs.Transceiver.Process.ExactlyOnce.{times, held}
use lmc_rs.Transceiver.Step.{on_tick, ping, resend_timeouts, want_continue}
use lmc_rs.Transceiver.Step.Reach.{got, Run, read_packet, rests, steps, with_read}
use lmc_rs.Transceiver.Step.Ages.{Sorted, NotOverdue}
use lmc_rs.Transceiver.Step.Overdue.{on_tick-NotOverdue}
use lmc_rs.Transceiver.Step.Once.{Run-times}
use lmc_rs.Examples.Scripted.{Script, script}
use lmc_rs.Examples.States.{channels, working}

-- PUBLISH with identifier 5 on topic "a", read already.
abbrev full : PacketReader
full = record {
  bytes = 0x34 ∷ 6 ∷ 0 ∷ 1 ∷ 97 ∷ 0 ∷ 5 ∷ 1 ∷ [];
  size = some (record { size = 8; start_offset = 2 });
}

abbrev before : Transceiver Script
before = record working { rx_pkt = full }

abbrev news : IncomingPublishPacket
news = record {
  topic_len = 1;
  info = record { flags = record { bits = 4 }; packet_id = 5 };
  contents = 97 ∷ 1 ∷ [];
}

abbrev after_read : Transceiver Script
after_read = with_read (record { bytes = []; size = none }) before.transport before

news_read :
    recv script full before.transport
    ≡ (done (incoming (publish news)), record { bytes = []; size = none }, before.transport)
unfolding recv take_packet decode_packet parse_packet_size parse_length from_bytes decode_publish
    try_from Control.packet_type Control.flags Control.qos read_utf8 read_u16 read_byte_array
    take_bytes read_u8 read_trivial is_utf8
news_read = refl

abbrev informed : Transceiver Script
informed = (process_packet script channels 100 (publish news) after_read).1

news_processed :
    process_packet script channels 100 (publish news) after_read ≡ (done false, informed)
unfolding process_packet handle on_publish Control.qos on_qos answer_exactly_once make make_packet
    encode_simple encode_packet_size finish_and_check write_u16 write_trivial from_type_and_flags
    queue_internal_packet_with_timeout queue_internal_packet Writing.queue_internal_packet
    Writing.try_send_packet write_packet deliver
news_processed = refl

informed-Run : Run script channels (got (publish news) ∷ []) before informed
informed-Run =
    steps (got (publish news)) [] before informed informed
      (read_packet 100 before informed (record { bytes = []; size = none }) before.transport
        (publish news) news_read news_processed)
      (rests informed)

Run-times_example :
    times 5 informed.log + (if held 5 before then 1 else 0) ≤ suc (times 5 before.log)
Run-times_example = Run-times 5 (got (publish news) ∷ []) before informed informed-Run (tt, tt)

working-ticked : (on_tick script 6_000 working).0 ≡ done want_continue
unfolding queue_internal_packet Writing.queue_internal_packet Writing.try_send_packet write_packet
    on_tick ping resend_timeouts
working-ticked = refl

working-Sorted : Sorted working.timeout_queue
working-Sorted = ((omega arith, tt), (tt, tt))

on_tick-NotOverdue_example : NotOverdue 6_000 5_000 (on_tick script 6_000 working).1.timeout_queue
on_tick-NotOverdue_example =
    on_tick-NotOverdue script 6_000 working want_continue refl (omega arith) working-Sorted
      working-ticked
