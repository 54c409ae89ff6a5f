-- ===== src/Transceiver/Writing.antt =====
-- How packets reach the transport: `try_send_packet`, `queue_internal_packet`, `clear_tx_packet`.
pub mod Wire
pub mod Order
pub mod Shrinks
pub mod Continue
pub mod Ready
use lmc_rs.Prelude.{
  ℕ, ◌+◌, Bool, true, false, Option, none, some, List, [], ◌∷◌, ◌++◌, bit_or, leb, length, drop,
  if◌then◌else◌,
}
use lmc_rs.Errors.{IoResult, done, failed, crashed}
use lmc_rs.Packets.Control.{dup_bit}
use lmc_rs.Transport.{Transport}

pub record TxPacket : Type 0 where
  pub bytes : List ℕ
  pub pos : ℕ
  pub set_dup : Bool

pub record InternalPacket : Type 0 where
  pub bytes : List ℕ
  pub set_dup : Bool

-- The fields of `Transceiver` that the writing of packets changes, without the transport.
pub record Outbox : Type 0 where
  pub tx_pkt : Option TxPacket
  pub internal_pkt_queue : List InternalPacket

module _ (t : Transport) where
  open t use {State, write, flush}

  abbrev pub add_written : ℕ → IoResult ℕ × State → IoResult ℕ × State
  add_written n (done m, s) = (done (n + m), s)
  add_written n (failed e, s) = (failed e, s)
  add_written n (crashed, s) = (crashed, s)

  -- The rest of the packet behind its altered first byte.
  abbrev pub write_rest : List ℕ → IoResult ℕ × State → IoResult ℕ × State
  write_rest bytes (done written, s) =
      if leb 1 written
      then add_written written (write s (drop written bytes) true)
      else (done written, s)
  write_rest bytes (failed e, s) = (failed e, s)
  write_rest bytes (crashed, s) = (crashed, s)

  -- The writes of `try_send_packet`; the first byte of an empty packet panics.
  unfoldable pub write_packet : List ℕ → Bool → State → IoResult ℕ × State
  write_packet bytes false s = write s bytes true
  write_packet [] true s = (crashed, s)
  write_packet (b ∷ bytes) true s = write_rest (b ∷ bytes) (write s (bit_or b dup_bit ∷ []) true)

  abbrev pub with_outbox :
      Outbox → IoResult (Unit {0}) × State → IoResult (Unit {0}) × Outbox × State
  with_outbox o (r, s) = (r, o, s)

  abbrev pub after_write :
      List ℕ → Bool → Outbox → IoResult ℕ × State → IoResult (Unit {0}) × Outbox × State
  after_write bytes set_dup o (done written, s) =
      if leb (length bytes) written then with_outbox o (flush s) else (
        done tt,
        record o { tx_pkt = some (record { bytes = bytes; pos = written; set_dup = set_dup }) },
        s,
      )
  after_write bytes set_dup o (failed e, s) = (failed e, o, s)
  after_write bytes set_dup o (crashed, s) = (crashed, o, s)

  -- Its `debug_assert` that no packet is being transmitted is left to the callers.
  unfoldable pub try_send_packet :
      List ℕ → Bool → Outbox → State → IoResult (Unit {0}) × Outbox × State
  unfolding write_packet
  try_send_packet bytes set_dup o s = after_write bytes set_dup o (write_packet bytes set_dup s)

  unfoldable pub queue_internal_packet :
      List ℕ → Bool → Outbox → State → IoResult (Unit {0}) × Outbox × State
  unfolding try_send_packet
  queue_internal_packet bytes set_dup o s = elim o.tx_pkt [
    | none ↦ try_send_packet bytes set_dup o s
    | some tx ↦ (
      done tt,
      record o {
        internal_pkt_queue =
            o.internal_pkt_queue ++ (record { bytes = bytes; set_dup = set_dup } ∷ []);
      },
      s,
    )
  ]

  -- A round of the loop of `clear_tx_packet`: it ends once a packet is being transmitted.
  abbrev pub next_round :
      (State → IoResult (Unit {0}) × Outbox × State)
      → IoResult (Unit {0}) × Outbox × State
      → IoResult (Unit {0}) × Outbox × State
  next_round again (done u, o, s) = elim o.tx_pkt [ none ↦ again s | some tx ↦ (done u, o, s) ]
  next_round again (failed e, o, s) = (failed e, o, s)
  next_round again (crashed, o, s) = (crashed, o, s)

  unfoldable pub send_queue : List InternalPacket → State → IoResult (Unit {0}) × Outbox × State
  unfolding try_send_packet
  send_queue [] s = (done tt, record { tx_pkt = none; internal_pkt_queue = [] }, s)
  send_queue (p ∷ ps) s =
      next_round (send_queue ps)
        (try_send_packet p.bytes p.set_dup (record { tx_pkt = none; internal_pkt_queue = ps }) s)

  unfoldable pub clear_tx_packet : Outbox → State → IoResult (Unit {0}) × Outbox × State
  unfolding send_queue
  clear_tx_packet o s = send_queue o.internal_pkt_queue s
