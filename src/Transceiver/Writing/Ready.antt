-- ===== src/Transceiver/Writing/Ready.antt =====
-- `try_send_packet` and `clear_tx_packet` of src/transceiver/mod.rs over a transport that keeps
-- `Honours` of Transport.Contract.
use lmc_rs.Prelude.{
  ℕ, ◌≢◌, Bool, true, false, Option, none, some, List, [], ◌∷◌, bit_or, leb, length, drop,
  Bool-cases, inl, inr,
}
use lmc_rs.Errors.{IoResult, done, failed, crashed, would_block}
use lmc_rs.Packets.Control.{dup_bit}
use lmc_rs.Transport.{Transport}
use lmc_rs.Transport.Contract.{Honours}
use lmc_rs.Transceiver.Writing.{
  TxPacket, InternalPacket, Outbox, add_written, write_rest, write_packet, after_write,
  try_send_packet, next_round, send_queue, clear_tx_packet,
}

abbrev pub Ready : {A : Type 0} → IoResult A → Type 0
Ready r = r ≢ failed would_block

pub done-Ready : {A : Type 0} (a : A) → Ready (done a)
done-Ready a e = cc

pub crashed-Ready : {A : Type 0} → Ready {A = A} crashed
crashed-Ready e = cc

module _ (t : Transport) (k : Honours t) where
  open t use {State, write, flush}

  add_written-Ready : (n : ℕ) (r : IoResult ℕ × State) → Ready r.0 → Ready (add_written t n r).0
  add_written-Ready n (done m, s) h = done-Ready _
  add_written-Ready n (failed e, s) h = λ x. h cc
  add_written-Ready n (crashed, s) h = crashed-Ready

  write_rest-Ready :
      (bytes : List ℕ) (r : IoResult ℕ × State) → Ready r.0 → Ready (write_rest t bytes r).0
  write_rest-Ready bytes (done written, s) h = elim (Bool-cases (leb 1 written)) [
    | inl e ↦ rw e (
        add_written-Ready written (write s (drop written bytes) true)
          (k.write-ready s (drop written bytes)))
    | inr e ↦ rw e (done-Ready written)
  ]
  write_rest-Ready bytes (failed e, s) h = λ x. h cc
  write_rest-Ready bytes (crashed, s) h = crashed-Ready

  write_packet-Ready :
      (bytes : List ℕ) (set_dup : Bool) (s : State) → Ready (write_packet t bytes set_dup s).0
  unfolding write_packet
  write_packet-Ready bytes false s = k.write-ready s bytes
  write_packet-Ready [] true s = crashed-Ready
  write_packet-Ready (b ∷ bytes) true s =
      write_rest-Ready (b ∷ bytes) (write s (bit_or b dup_bit ∷ []) true)
        (k.write-ready s (bit_or b dup_bit ∷ []))

  after_write-Ready :
      (bytes : List ℕ) (set_dup : Bool) (o : Outbox) (r : IoResult ℕ × State)
      → Ready r.0
      → Ready (after_write t bytes set_dup o r).0
  after_write-Ready bytes set_dup o (done written, s) h =
      elim (Bool-cases (leb (length bytes) written)) [
        | inl e ↦ rw e (k.flush-ready s)
        | inr e ↦ rw e (done-Ready tt)
      ]
  after_write-Ready bytes set_dup o (failed e, s) h = λ x. h cc
  after_write-Ready bytes set_dup o (crashed, s) h = crashed-Ready

  -- `try_send_packet` does not answer that it would block.
  pub try_send_packet-Ready :
      (bytes : List ℕ) (set_dup : Bool) (o : Outbox) (s : State)
      → Ready (try_send_packet t bytes set_dup o s).0
  unfolding try_send_packet
  try_send_packet-Ready bytes set_dup o s =
      after_write-Ready bytes set_dup o (write_packet t bytes set_dup s)
        (write_packet-Ready bytes set_dup s)

  next_round-Ready :
      (ps : List InternalPacket) (tx : Option TxPacket) (q : List InternalPacket)
      (r : IoResult (Unit {0})) (s : State)
      → Ready r
      → ((s' : State) → Ready (send_queue t ps s').0)
      → Ready
          (next_round t (send_queue t ps) (r, record { tx_pkt = tx; internal_pkt_queue = q }, s)).0
  next_round-Ready ps none q (done u) s h next = next s
  next_round-Ready ps (some tx) q (done u) s h next = done-Ready u
  next_round-Ready ps tx q (failed e) s h next = λ x. h cc
  next_round-Ready ps tx q crashed s h next = crashed-Ready

  send_queue-Ready : (ps : List InternalPacket) (s : State) → Ready (send_queue t ps s).0
  unfolding send_queue
  send_queue-Ready [] s = done-Ready tt
  send_queue-Ready (p ∷ ps) s =
      let r =
        try_send_packet t p.bytes p.set_dup (record { tx_pkt = none; internal_pkt_queue = ps }) s in
      next_round-Ready ps r.1.tx_pkt r.1.internal_pkt_queue r.0 r.2
        (try_send_packet-Ready p.bytes p.set_dup (record { tx_pkt = none; internal_pkt_queue = ps })
          s)
        (send_queue-Ready ps)

  -- Neither does `clear_tx_packet`.
  pub clear_tx_packet-Ready : (o : Outbox) (s : State) → Ready (clear_tx_packet t o s).0
  unfolding clear_tx_packet
  clear_tx_packet-Ready o s = send_queue-Ready o.internal_pkt_queue s
