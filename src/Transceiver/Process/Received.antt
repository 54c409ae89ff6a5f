-- ===== src/Transceiver/Process/Received.antt =====
-- PUBREC, `process_packet` of src/transceiver/mod.rs: the message is replaced by its PUBREL.
use lmc_rs.Prelude.{ℕ, ◌≡◌, ◌≢◌, none}
use lmc_rs.Prelude.Maps.{lookup, nat_eq}
use lmc_rs.Errors.{IoResult}
use lmc_rs.Transport.{Transport}
use lmc_rs.Packets.Outgoing.Requests.{pub_rel, encode_simple_packet}
use lmc_rs.Subscription.Receivers.{Channels}
use lmc_rs.Shared.{Waker}
use lmc_rs.Futures.Publish.{PublishFuture, rec}
use lmc_rs.Transceiver.Ids
use lmc_rs.Transceiver.Ids.{IdType, id_beq, id_eq}
use lmc_rs.Transceiver.State.{Transceiver, ◌>>=◌}
use lmc_rs.Transceiver.Sending.{clear_packet_timeout, notify_stage}
use lmc_rs.Transceiver.Process.{when}
use lmc_rs.Transceiver.Process.Acks.{Settled, NotResent}

module _ (t : Transport) (c : Channels) (now : ℕ) where
  -- The PUBREL is stored, and what else is read of the state is as before.
  abbrev Stored : ℕ → Transceiver t.State → Transceiver t.State → Type 0
  Stored id m n =
      (lookup (Ids.pub_rel id) n.pending_packets ≢ none)
      × (lookup (Ids.publish id) n.pending_packets ≡ lookup (Ids.publish id) m.pending_packets)
      × (n.shared ≡ m.shared)

  abbrev settle : ℕ → Transceiver t.State → IoResult (Unit {0}) × Transceiver t.State
  settle id = clear_packet_timeout (Ids.publish id) >>= λ b. when b (notify_stage rec id)

  -- The state behind a PUBREC: the message is settled, its timeout does not send it again, and the PUBREL is
  -- stored.
  abbrev pub Replaced : PublishFuture → Waker → Waker → Transceiver t.State → Type 0
  Replaced f w v n =
      Settled rec (Ids.publish f.packet_id) f w v n
      × NotResent t (Ids.publish f.packet_id) n
      × (lookup (Ids.pub_rel f.packet_id) n.pending_packets ≢ none)
