-- ===== src/Transceiver/Writing/Shrinks.antt =====
-- Sending the queue adds nothing to what is pending, however it ends.
use lmc_rs.Prelude.{
  ℕ, ◌≤◌, Bool, none, List, [], ◌∷◌, ◌++◌, leb, length, length-append, length-drop, drop, arith,
  Bool-cases, Option-cases, inl, inr,
}
use lmc_rs.Errors.{IoResult, done, failed, crashed}
use lmc_rs.Transport.{Transport}
use lmc_rs.Transceiver.Writing.{
  InternalPacket, Outbox, write_packet, after_write, try_send_packet, next_round, send_queue,
}
use lmc_rs.Transceiver.Writing.Wire.{wire, queued, pending}

module _ (t : Transport) where
  open t use {State}

  pending-after_write :
      (bytes : List ℕ) (set_dup : Bool) (ps : List InternalPacket) (r : IoResult ℕ × State)
      → length (
          pending
            (after_write t bytes set_dup (record { tx_pkt = none; internal_pkt_queue = ps }) r).1)
        ≤ length (wire bytes set_dup ++ queued ps)
  pending-after_write bytes set_dup ps (done n, s) = elim (Bool-cases (leb (length bytes) n)) [
    | inl all ↦ rw all (omega (arith, length-append (wire bytes set_dup) (queued ps)))
    | inr part ↦ rw part (
        omega (
          arith,
          length-append (wire bytes set_dup) (queued ps),
          length-append (drop n (wire bytes set_dup)) (queued ps),
          length-drop n (wire bytes set_dup),
        ))
  ]
  pending-after_write bytes set_dup ps (failed e, s) =
      omega (arith, length-append (wire bytes set_dup) (queued ps))
  pending-after_write bytes set_dup ps (crashed, s) =
      omega (arith, length-append (wire bytes set_dup) (queued ps))

  pending-next_round :
      (n m : ℕ) (again : State → IoResult (Unit {0}) × Outbox × State)
      (r : IoResult (Unit {0}) × Outbox × State)
      → ((s : State) → length (pending (again s).1) ≤ m)
      → m ≤ n
      → length (pending r.1) ≤ n
      → length (pending (next_round t again r).1) ≤ n
  pending-next_round n m again (done u, o, s) h le short = elim (Option-cases o.tx_pkt) [
    | inl ended ↦ rw ended (omega (arith, h s))
    | inr (tx, going) ↦ rw going (rw going at short)
  ]
  pending-next_round n m again (failed e, o, s) h le short = short
  pending-next_round n m again (crashed, o, s) h le short = short

  pub pending-send_queue :
      (ps : List InternalPacket) (s : State)
      → length (pending (send_queue t ps s).1) ≤ length (queued ps)
  unfolding send_queue try_send_packet
  pending-send_queue [] s = omega arith
  pending-send_queue (p ∷ ps) s =
      pending-next_round (length (queued (p ∷ ps))) (length (queued ps)) (send_queue t ps)
        (after_write t p.bytes p.set_dup (record { tx_pkt = none; internal_pkt_queue = ps })
          (write_packet t p.bytes p.set_dup s))
        (pending-send_queue ps) (omega (arith, length-append (wire p.bytes p.set_dup) (queued ps)))
        (pending-after_write p.bytes p.set_dup ps (write_packet t p.bytes p.set_dup s))
