-- ===== src/Examples/States.antt =====
-- A task that has an unacknowledged message, a PUBREL, and a pending subscription.
use lmc_rs.Prelude.{ℕ, none, some, List, [], ◌∷◌, false}
use lmc_rs.Subscription.Receivers.{Channels, delivered, closed, lossy}
use lmc_rs.Subscription.Tree.{default_node}
use lmc_rs.PacketReader
use lmc_rs.Shared.{ClientShared, with_waker, pending}
use lmc_rs.Transceiver.Ids
use lmc_rs.Transceiver.State.{Transceiver, PendingSub}
use lmc_rs.Examples.Scripted.{Script}

abbrev pub channels : Channels
channels = record { try_send = λ q. delivered; send = λ q. closed }

abbrev pub topic : List ℕ
topic = 97 ∷ []

abbrev pub shared : ClientShared
shared = record {
  next_packet_id = 8;
  notify_ack = (7, with_waker 3) ∷ [];
  notify_rec = (7, with_waker 4) ∷ [];
  notify_comp = (6, with_waker 5) ∷ [];
  subs = (topic, pending (none ∷ some 9 ∷ [])) ∷ [];
  next_callback_id = 0;
}

abbrev pub message : List ℕ
message = 0x32 ∷ 5 ∷ 0 ∷ 1 ∷ 97 ∷ 0 ∷ 7 ∷ []

abbrev pub asked : PendingSub
asked = record { topic = topic; kind = lossy 2; packet = [] }

abbrev pub working : Transceiver Script
working = record {
  transport = record { input = []; output = [] };
  outbox = record { tx_pkt = none; internal_pkt_queue = [] };
  pending_packets = (Ids.publish 7, message) ∷ (Ids.pub_rel 6, 0x62 ∷ 2 ∷ 0 ∷ 6 ∷ []) ∷ [];
  pending_subs = (11, asked) ∷ [];
  rx_pkt = PacketReader.default;
  connecting = false;
  ping_interval = 30_000;
  last_tx = 0;
  timeout_queue =
      record { at = 0; packet_id = Ids.publish 7 }
      ∷ record { at = 2_000; packet_id = Ids.pub_rel 6 }
      ∷ [];
  shared = shared;
  subscriptions = default_node;
  disconnect_sent = false;
  cmd_queue_closed = false;
  ping_req = 0xc0 ∷ 0 ∷ [];
  packet_resend_delay = 5_000;
  log = [];
}
