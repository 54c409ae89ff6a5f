-- ===== src/Transceiver/Spawn.antt =====
-- How the transceiver's task begins: `Transceiver::spawn` and the start of `run_task_loop`, and what
-- `Client::connect` of src/lib.rs hands to them. The transport is there already.
use lmc_rs.Prelude.{ℕ, ◌*◌, ◌≡◌, refl, subst, max, true, false, Option, none, some, List, [], ◌>>=◌}
use lmc_rs.Errors.{done}
use lmc_rs.Transport.{Transport}
use lmc_rs.Packets.Frame.{make_packet}
use lmc_rs.Packets.Outgoing.Connect.{ConnectPacket, encode_connect_packet}
use lmc_rs.Packets.Outgoing.Requests.{ping_req, empty_packet, encode_empty_packet}
use lmc_rs.PacketReader
use lmc_rs.Subscription.Receivers.{Channels}
use lmc_rs.Subscription.Tree.{default_node}
use lmc_rs.Options.{Options}
use lmc_rs.Shared
use lmc_rs.Shared.{ClientShared}
use lmc_rs.Transceiver.Ids.{id_eq}
use lmc_rs.Transceiver.State.{Transceiver, Action}
use lmc_rs.Transceiver.Writing.{TxPacket}
use lmc_rs.Transceiver.Sending.{try_send_packet}
use lmc_rs.Transceiver.Process.Timeouts.{Covered}
use lmc_rs.Transceiver.Step.Reach.{Event, Run}
use lmc_rs.Transceiver.Step.Runs.{Run-Covered}

pub record TransceiverBuildData (S : Type 0) : Type 0 where
  pub transport : S
  pub connect_packet : List ℕ
  pub ping_interval : ℕ
  pub shared : ClientShared
  pub packet_resend_delay : ℕ

abbrev pub connect_packet : Options → ConnectPacket
connect_packet o = record {
  clean_session = o.clean_session;
  keep_alive = o.keep_alive;
  client_id = o.client_id;
  will = o.last_will;
  username = o.username;
  password = o.password;
}

-- The build data of `connect`; `none` is a panic.
unfoldable pub build_data : {S : Type 0} → Options → S → Option (TransceiverBuildData S)
unfolding make_packet
build_data o transport = make_packet (connect_packet o) >>= λ packet. some (record {
  transport = transport;
  connect_packet = packet;
  ping_interval = o.keep_alive * 1_000;
  shared = Shared.new;
  packet_resend_delay = max o.packets_resend_delay 1_000;
})

abbrev pub connecting_packet : List ℕ → TxPacket
connecting_packet packet = record { bytes = packet; pos = 0; set_dup = false }

abbrev pub initial : {S : Type 0} → ℕ → TransceiverBuildData S → List ℕ → Transceiver S
initial now build packet = record {
  transport = build.transport;
  outbox = record {
    tx_pkt = some (connecting_packet build.connect_packet);
    internal_pkt_queue = [];
  };
  pending_packets = [];
  pending_subs = [];
  rx_pkt = PacketReader.default;
  connecting = true;
  ping_interval = build.ping_interval;
  last_tx = now;
  timeout_queue = [];
  shared = build.shared;
  subscriptions = default_node;
  disconnect_sent = false;
  cmd_queue_closed = false;
  ping_req = packet;
  packet_resend_delay = build.packet_resend_delay;
  log = [];
}

-- The state that `spawn` makes; `none` is a panic.
unfoldable pub spawn : {S : Type 0} → ℕ → TransceiverBuildData S → Option (Transceiver S)
unfolding make_packet
spawn now build =
    make_packet (empty_packet {kind = ping_req}) >>= λ packet. some (initial now build packet)

abbrev pub send_first : (t : Transport) → Option TxPacket → Action t.State (Unit {0})
send_first t none m = (done tt, m)
send_first t (some tx) m =
    try_send_packet t tx.bytes false (record m { outbox = record m.outbox { tx_pkt = none } })

-- What `run_task_loop` does before its loop.
unfoldable pub bootstrap : (t : Transport) → Action t.State (Unit {0})
unfolding try_send_packet
bootstrap t m = send_first t m.outbox.tx_pkt m

send_first-Covered :
    (t : Transport) (o : Option TxPacket) (m : Transceiver t.State)
    → Covered m
    → Covered (send_first t o m).1
unfolding try_send_packet
send_first-Covered t none m h = h
send_first-Covered t (some tx) m h = h

spawn-Covered :
    {S : Type 0} (now : ℕ) (build : TransceiverBuildData S) (m : Transceiver S)
    → spawn now build ≡ some m
    → Covered m
unfolding spawn
spawn-Covered now build m e = made (make_packet (empty_packet {kind = ping_req})) e
  where
    made :
        (o : Option (List ℕ))
        → (o >>= λ packet. some (initial now build packet)) ≡ some m
        → Covered m
    made none e = absurd cc
    made (some packet) e =
        let same : initial now build packet ≡ m = cc in
        subst Covered same (λ id k f. absurd (f refl))

-- In every state that a run of the task reaches from its beginning, each packet that waits for an answer has
-- a timeout, whatever the run reads, writes, is ordered to do or sends again. (Only SUBSCRIBE packets wait
-- elsewhere.)
pub reached-Covered :
    {t : Transport} {c : Channels} (now : ℕ) (build : TransceiverBuildData t.State)
    (m n : Transceiver t.State) (es : List Event)
    → spawn now build ≡ some m
    → Run t c es (bootstrap t m).1 n
    → Covered n
unfolding bootstrap
reached-Covered {t} now build m n es e r =
    Run-Covered es (bootstrap t m).1 n r
      (send_first-Covered t m.outbox.tx_pkt m (spawn-Covered now build m e))
