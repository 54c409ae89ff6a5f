-- ===== src/Examples/Outboxes.antt =====
-- A packet that waits behind another one.
use lmc_rs.Prelude.{ℕ, some, List, [], ◌∷◌, ◌++◌, true, false}
use lmc_rs.Transceiver.Writing.{Outbox, InternalPacket, queue_internal_packet}
use lmc_rs.Transceiver.Writing.Wire.{wire, pending, Idle}
use lmc_rs.Transceiver.Writing.Order.{Settles, queue_internal_packet-Settles}
use lmc_rs.Examples.Scripted.{Script, script}

abbrev pub ping : List ℕ
ping = 0xc0 ∷ 0 ∷ []

abbrev again : InternalPacket
again = record { bytes = 0x32 ∷ 5 ∷ 0 ∷ 1 ∷ 97 ∷ 0 ∷ 9 ∷ []; set_dup = true }

abbrev pub busy : Outbox
busy = record {
  tx_pkt = some (record { bytes = ping; pos = 1; set_dup = false });
  internal_pkt_queue = again ∷ [];
}

abbrev pub quiet : Script
quiet = record { input = []; output = 0xc0 ∷ [] }

pub busy-Idle : Idle busy
busy-Idle e = absurd (cc e)

queue_internal_packet_example :
    Settles script quiet
      (pending busy ++ wire ping false)
      (queue_internal_packet script ping false busy quiet)
queue_internal_packet_example = queue_internal_packet-Settles script ping false busy quiet busy-Idle
