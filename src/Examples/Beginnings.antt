-- ===== src/Examples/Beginnings.antt =====
-- The beginning of the task, and options.
use lmc_rs.Prelude.{◌≡◌, refl, none, some, List, [], ◌∷◌, true, false}
use lmc_rs.Errors.{done, at_least_once}
use lmc_rs.ByteIo.{finish_and_check, read_trivial}
use lmc_rs.Packets.Control
use lmc_rs.Packets.Control.{from_type_and_flags}
use lmc_rs.Packets.Frame.{make_packet, encode_packet_size}
use lmc_rs.Packets.Incoming.{conn_ack, granted, from_bytes, decode_conn_ack, conn_ack_result}
use lmc_rs.PacketReader
use lmc_rs.PacketReader.{
  PacketReader, recv, recv_n, take_packet, decode_packet, parse_packet_size, parse_length, incoming,
  need_more_data,
}
use lmc_rs.Options.{new, enable_tls_ex}
use lmc_rs.Options.Configured.{
  Call, clean_session, without_ipv4, without_ipv6, all_timeouts_to, default_port, configure,
  Configures, configure-new,
}
use lmc_rs.Shared
use lmc_rs.Commands
use lmc_rs.Commands.{Command}
use lmc_rs.Transceiver.State.{Transceiver}
use lmc_rs.Transceiver.Process.{process_packet, first_packet}
use lmc_rs.Transceiver.Spawn.{TransceiverBuildData, spawn, initial, bootstrap}
use lmc_rs.Transceiver.Step
use lmc_rs.Transceiver.Step.{on_command, want_continue}
use lmc_rs.Transceiver.Step.Reach.{
  wrote, got, got_some, ordered, Run, rests, steps, write_all, read_part, read_packet, obey,
  with_read, with_written,
}
use lmc_rs.Transceiver.Writing
use lmc_rs.Transceiver.Writing.{write_packet, clear_tx_packet, send_queue}
use lmc_rs.Transceiver.Writing.Continue.{continue_writing_packet, one_round, write_more}
use lmc_rs.Transceiver.Sending.{
  try_send_packet, queue_internal_packet, queue_internal_packet_with_timeout,
}
use lmc_rs.Examples.Scripted.{Script, script}
use lmc_rs.Examples.States.{channels}

abbrev pub build : TransceiverBuildData Script
build = record {
  transport = record { input = 0x20 ∷ 2 ∷ 0 ∷ 0 ∷ []; output = [] };
  connect_packet = 0x10 ∷ 12 ∷ 0 ∷ 4 ∷ 77 ∷ 81 ∷ 84 ∷ 84 ∷ 4 ∷ 0 ∷ 0 ∷ 30 ∷ 0 ∷ 0 ∷ [];
  ping_interval = 30_000;
  shared = Shared.new;
  packet_resend_delay = 1_000;
}

abbrev pub first : Transceiver Script
first = initial 0 build (0xc0 ∷ 0 ∷ [])

pub spawned : spawn 0 build ≡ some first
unfolding spawn make_packet encode_packet_size finish_and_check from_type_and_flags
spawned = refl

-- CONNECT is written in pieces, and CONNACK comes in two; then a message is published, and sent again.
abbrev pub begun : Transceiver Script
begun = (bootstrap script first).1

abbrev written : Transceiver Script
written =
    with_written (record { tx_pkt = none; internal_pkt_queue = [] })
      (record { input = 0x20 ∷ 2 ∷ 0 ∷ 0 ∷ []; output = build.connect_packet }) 10 begun

all_written :
    continue_writing_packet script 20 begun.outbox (script.pre_write begun.transport).1
    ≡ some (done false, written.outbox, written.transport)
unfolding bootstrap try_send_packet Writing.try_send_packet write_packet continue_writing_packet
    one_round write_more clear_tx_packet send_queue
all_written = refl

abbrev half : PacketReader
half = record { bytes = 0x20 ∷ 2 ∷ 0 ∷ []; size = some (record { size = 4; start_offset = 2 }) }

abbrev halfway : Transceiver Script
halfway = with_read half (record { input = 0 ∷ []; output = build.connect_packet }) written

half_read :
    recv script written.rx_pkt written.transport
    ≡ (done need_more_data, halfway.rx_pkt, halfway.transport)
unfolding recv recv_n parse_packet_size parse_length bootstrap try_send_packet
    Writing.try_send_packet write_packet
half_read = refl

abbrev whole : Transceiver Script
whole =
    with_read PacketReader.default (record { input = []; output = build.connect_packet }) halfway

whole_read :
    recv script halfway.rx_pkt halfway.transport
    ≡ (done (incoming (conn_ack (granted false))), whole.rx_pkt, whole.transport)
unfolding recv recv_n take_packet decode_packet parse_packet_size parse_length from_bytes
    decode_conn_ack conn_ack_result Control.packet_type read_trivial
whole_read = refl

abbrev connected : Transceiver Script
connected = (process_packet script channels 50 (conn_ack (granted false)) whole).1

whole_processed :
    process_packet script channels 50 (conn_ack (granted false)) whole ≡ (done false, connected)
unfolding process_packet first_packet bootstrap try_send_packet Writing.try_send_packet write_packet
whole_processed = refl

abbrev pub order : Command
order = Commands.publish (record { packet_id = 12; qos = at_least_once; packet = [] })

abbrev obeyed : Transceiver Script
obeyed = (on_command script 100 (some order) connected).1

is_connected : connected.connecting ≡ false
unfolding process_packet first_packet bootstrap try_send_packet Writing.try_send_packet write_packet
is_connected = refl

is_idle : connected.outbox.tx_pkt ≡ none
unfolding process_packet first_packet bootstrap try_send_packet Writing.try_send_packet write_packet
is_idle = refl

is_open : connected.cmd_queue_closed ≡ false
unfolding process_packet first_packet bootstrap try_send_packet Writing.try_send_packet write_packet
is_open = refl

order-obeyed : on_command script 100 (some order) connected ≡ (done want_continue, obeyed)
unfolding on_command Step.on_publish queue_internal_packet_with_timeout queue_internal_packet
    Writing.queue_internal_packet Writing.try_send_packet write_packet process_packet first_packet
    bootstrap try_send_packet
order-obeyed = refl

first-Run :
    Run script channels
      (wrote ∷ got_some ∷ got (conn_ack (granted false)) ∷ ordered (some order) ∷ [])
      begun
      obeyed
first-Run =
    steps wrote (got_some ∷ got (conn_ack (granted false)) ∷ ordered (some order) ∷ []) begun
      written obeyed (write_all begun 20 10 written.outbox written.transport all_written)
      (steps got_some (got (conn_ack (granted false)) ∷ ordered (some order) ∷ []) written halfway
        obeyed (read_part written halfway.rx_pkt halfway.transport half_read)
        (steps (got (conn_ack (granted false))) (ordered (some order) ∷ []) halfway connected obeyed
          (read_packet 50 halfway connected whole.rx_pkt whole.transport (conn_ack (granted false))
            whole_read whole_processed)
          (steps (ordered (some order)) [] connected obeyed obeyed
            (obey 100 connected obeyed (some order) is_open is_connected is_idle order-obeyed)
            (rests obeyed))))

abbrev calls : List Call
calls = default_port 1884 ∷ without_ipv4 ∷ clean_session ∷ []

abbrev more : List Call
more = without_ipv6 ∷ all_timeouts_to 500 ∷ default_port 1885 ∷ []

configure-new_example :
    let o = configure calls (new (99 ∷ [])) in
    Configures 1884 false true o × Configures 1885 false false (configure more (enable_tls_ex tt o))
configure-new_example = configure-new {D = Unit {0}} (99 ∷ []) calls more tt
