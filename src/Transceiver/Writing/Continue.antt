-- ===== src/Transceiver/Writing/Continue.antt =====
-- `continue_writing_packet`. The loop runs on fuel and gives `none` where that ends; one more than the number
-- of pending bytes is enough.
pub mod Front
pub mod Progress
pub mod Blocked
use lmc_rs.Prelude.{
  ℕ, zero, suc, ◌+◌, Bool, true, false, Option, none, some, List, [], ◌∷◌, bit_or, leb, length,
  drop, if◌then◌else◌, ◌&&◌,
}
use lmc_rs.Errors.{IoResult, done, failed, crashed}
use lmc_rs.Packets.Control.{dup_bit}
use lmc_rs.Transport.{Transport}
use lmc_rs.Transceiver.Writing.{TxPacket, InternalPacket, Outbox, clear_tx_packet}

module _ (t : Transport) where
  open t use {State, write, flush}

  -- The write of one round; the first byte of an empty packet panics, as a position behind the end does.
  unfoldable pub write_more : TxPacket → State → IoResult ℕ × State
  write_more tx s =
      if tx.set_dup && leb tx.pos 0
      then elim tx.bytes [ [] ↦ (crashed, s) | b ∷ bytes ↦ write s (bit_or b dup_bit ∷ []) false ]
      else if leb tx.pos (length tx.bytes)
      then write s (drop tx.pos tx.bytes) false
      else (crashed, s)

  -- How a round ends: with a result, or in a further round.
  pub data Round : Type 0 where
    ends : IoResult Bool → Outbox → State → Round
    repeats : Outbox → State → Round

  abbrev pub after_clear : IoResult (Unit {0}) × Outbox × State → Round
  after_clear (done u, o, s) = repeats o s
  after_clear (failed e, o, s) = ends (failed e) o s
  after_clear (crashed, o, s) = ends crashed o s

  abbrev pub after_flush : Outbox → IoResult (Unit {0}) × State → Round
  after_flush o (done u, s) = after_clear (clear_tx_packet t o s)
  after_flush o (failed e, s) = ends (failed e) o s
  after_flush o (crashed, s) = ends crashed o s

  abbrev pub advanced : TxPacket → ℕ → TxPacket
  advanced tx written = record tx { pos = tx.pos + written }

  abbrev pub after_more : TxPacket → List InternalPacket → IoResult ℕ × State → Round
  after_more tx ps (done written, s) =
      if leb written 0
      then ends (done true) (record { tx_pkt = some tx; internal_pkt_queue = ps }) s
      else if leb (length tx.bytes) (tx.pos + written)
      then after_flush (record { tx_pkt = some (advanced tx written); internal_pkt_queue = ps })
          (flush s)
      else repeats (record { tx_pkt = some (advanced tx written); internal_pkt_queue = ps }) s
  after_more tx ps (failed e, s) =
      ends (failed e) (record { tx_pkt = some tx; internal_pkt_queue = ps }) s
  after_more tx ps (crashed, s) =
      ends crashed (record { tx_pkt = some tx; internal_pkt_queue = ps }) s

  unfoldable pub one_round : Option TxPacket → List InternalPacket → State → Round
  unfolding write_more
  one_round none ps s = ends (done false) (record { tx_pkt = none; internal_pkt_queue = ps }) s
  one_round (some tx) ps s = after_more tx ps (write_more tx s)

  -- `done true` is a closed connection, `done false` that nothing is left to transmit.
  unfoldable pub continue_writing_packet :
      ℕ → Outbox → State → Option (IoResult Bool × Outbox × State)
  unfolding one_round
  continue_writing_packet zero o s = none
  continue_writing_packet (suc fuel) o s = elim (one_round o.tx_pkt o.internal_pkt_queue s) [
    | ends r o' s' ↦ some (r, o', s')
    | repeats o' s' ↦ continue_writing_packet fuel o' s'
  ]
