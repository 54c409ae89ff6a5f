-- ===== src/Transceiver/Writing/Continue/Blocked.antt =====
-- `continue_writing_packet` of src/transceiver/mod.rs, where the transport says that it would block.
use lmc_rs.Prelude.{
  ℕ, zero, suc, ◌+◌, ◌<◌, ◌≤◌, ◌≡◌, refl, ap, ◌∙◌, Bool, false, Option, none, some, List, [], ◌∷◌,
  ◌++◌, leb, length, drop, bit_or, arith, ◌&&◌, Bool-cases, inl, inr,
}
use lmc_rs.Errors.{IoResult, done, failed, crashed, would_block, other_error, decode_failed}
use lmc_rs.Packets.Control.{dup_bit}
use lmc_rs.Transport.{Transport}
use lmc_rs.Transport.Contract.{Honours}
use lmc_rs.Transceiver.Writing.{TxPacket, InternalPacket, Outbox, clear_tx_packet}
use lmc_rs.Transceiver.Writing.Wire.{pending, Idle, transmitting, queued}
use lmc_rs.Transceiver.Writing.Ready.{Ready, clear_tx_packet-Ready}
use lmc_rs.Transceiver.Writing.Continue.{
  write_more, Round, ends, repeats, after_clear, after_flush, after_more, advanced, one_round,
  continue_writing_packet,
}
use lmc_rs.Transceiver.Writing.Continue.Progress.{Whole, Advances, one_round-Advances}

module _ (t : Transport) (k : Honours t) where
  open t use {State, write, flush, accepted}

  -- A round that would block has transmitted nothing.
  abbrev pub Blocks : List ℕ → Round t → Type 0
  Blocks all (ends (failed would_block) o s) = Whole t all o s × Idle o
  Blocks all _ = Unit

  write_more-blocked :
      (tx : TxPacket) (s : State)
      → (write_more t tx s).0 ≡ failed would_block
      → accepted (write_more t tx s).1 ≡ accepted s
  unfolding write_more
  write_more-blocked tx s e = elim (Bool-cases (tx.set_dup && leb tx.pos 0)) [
    | inl first ↦ rw first (dup tx.bytes (rw first at e))
    | inr later ↦ elim (Bool-cases (leb tx.pos (length tx.bytes))) [
      | inl inside ↦
          rw (later, inside)
            (k.accepted-write s (drop tx.pos tx.bytes) false (rw (later, inside) at e))
      | inr outside ↦ rw (later, outside) refl
    ]
  ]
    where
      dup :
          (bytes : List ℕ)
          → (elim bytes as (λ _. IoResult ℕ × State) [
            | [] ↦ (crashed, s)
            | b ∷ bs ↦ write s (bit_or b dup_bit ∷ []) false
          ]).0
            ≡ failed would_block
          → accepted
              (elim bytes as (λ _. IoResult ℕ × State) [
                | [] ↦ (crashed, s)
                | b ∷ bs ↦ write s (bit_or b dup_bit ∷ []) false
              ]).1
            ≡ accepted s
      dup [] e = refl
      dup (b ∷ bs) e = k.accepted-write s (bit_or b dup_bit ∷ []) false e

  after_clear-Blocks :
      (all : List ℕ) (r : IoResult (Unit {0})) (o : Outbox) (s : State)
      → Ready r
      → Blocks all (after_clear t (r, o, s))
  after_clear-Blocks all (done u) o s h = tt
  after_clear-Blocks all (failed would_block) o s h = absurd (h refl)
  after_clear-Blocks all (failed other_error) o s h = tt
  after_clear-Blocks all (failed (decode_failed d)) o s h = tt
  after_clear-Blocks all crashed o s h = tt

  after_flush-Blocks :
      (all : List ℕ) (o : Outbox) (r : IoResult (Unit {0})) (s : State)
      → Ready r
      → Blocks all (after_flush t o (r, s))
  after_flush-Blocks all o (done u) s h =
      let r = clear_tx_packet t o s in
      after_clear-Blocks all r.0 r.1 r.2 (clear_tx_packet-Ready t k o s)
  after_flush-Blocks all o (failed would_block) s h = absurd (h refl)
  after_flush-Blocks all o (failed other_error) s h = tt
  after_flush-Blocks all o (failed (decode_failed d)) s h = tt
  after_flush-Blocks all o crashed s h = tt

  after_more-Blocks :
      (all : List ℕ) (tx : TxPacket) (ps : List InternalPacket) (r : IoResult ℕ) (s : State)
      → (r ≡ failed would_block
          → Whole t all (record { tx_pkt = some tx; internal_pkt_queue = ps }) s)
      → Blocks all (after_more t tx ps (r, s))
  after_more-Blocks all tx ps (done n) s h = elim (Bool-cases (leb n 0)) [
    | inl nothing ↦ rw nothing tt
    | inr some_bytes ↦ elim (Bool-cases (leb (length tx.bytes) (tx.pos + n))) [
      | inl finished ↦
          rw (some_bytes, finished)
            (after_flush-Blocks all
              (record { tx_pkt = some (advanced t tx n); internal_pkt_queue = ps }) (flush s).0
              (flush s).1 (k.flush-ready s))
      | inr unfinished ↦ rw (some_bytes, unfinished) tt
    ]
  ]
  after_more-Blocks all tx ps (failed would_block) s h = (h refl, λ e. absurd cc)
  after_more-Blocks all tx ps (failed other_error) s h = tt
  after_more-Blocks all tx ps (failed (decode_failed d)) s h = tt
  after_more-Blocks all tx ps crashed s h = tt

  one_round-Blocks :
      (all : List ℕ) (tx : Option TxPacket) (ps : List InternalPacket) (s : State)
      → Whole t all (record { tx_pkt = tx; internal_pkt_queue = ps }) s
      → Blocks all (one_round t tx ps s)
  unfolding one_round
  one_round-Blocks all none ps s whole = tt
  one_round-Blocks all (some tx) ps s whole =
      let r = write_more t tx s in
      after_more-Blocks all tx ps r.0 r.1 (λ e.
        ap (λ (x : List ℕ). x ++ (transmitting (some tx) ++ queued ps)) (write_more-blocked tx s e)
        ∙ whole)

  -- How the loop ends: `failed would_block` too leaves the bytes whole.
  abbrev pub Pauses : List ℕ → Option (IoResult Bool × Outbox × State) → Type 0
  Pauses all none = ⊥
  Pauses all (some (done closed, o, s)) =
      Whole t all o s × Idle o × (closed ≡ false → pending o ≡ [])
  Pauses all (some (failed would_block, o, s)) = Whole t all o s × Idle o
  Pauses all (some (failed other_error, o, s)) = Unit
  Pauses all (some (failed (decode_failed d), o, s)) = Unit
  Pauses all (some (crashed, o, s)) = Unit

  next-Pauses :
      (fuel : ℕ) (all : List ℕ) (r : Round t) (n : ℕ)
      → n ≤ fuel
      → Advances t n all r
      → Blocks all r
      → ((o : Outbox) (s : State)
          → Whole t all o s
          → Idle o
          → length (pending o) < fuel
          → Pauses all (continue_writing_packet t fuel o s))
      → Pauses all (elim r [
        | ends x o s ↦ some (x, o, s)
        | repeats o s ↦ continue_writing_packet t fuel o s
      ])
  next-Pauses fuel all (ends (done closed) o s) n le h b next = h
  next-Pauses fuel all (ends (failed would_block) o s) n le h b next = b
  next-Pauses fuel all (ends (failed other_error) o s) n le h b next = tt
  next-Pauses fuel all (ends (failed (decode_failed d)) o s) n le h b next = tt
  next-Pauses fuel all (ends crashed o s) n le h b next = tt
  next-Pauses fuel all (repeats o s) n le h b next = next o s h.0 h.1 (omega (arith, h.2))

  loop-Pauses :
      (fuel : ℕ) (all : List ℕ) (o : Outbox) (s : State)
      → Whole t all o s
      → Idle o
      → length (pending o) < fuel
      → Pauses all (continue_writing_packet t fuel o s)
  unfolding continue_writing_packet
  loop-Pauses zero all o s whole idle enough = absurd (omega arith)
  loop-Pauses (suc fuel) all o s whole idle enough =
      next-Pauses fuel all (one_round t o.tx_pkt o.internal_pkt_queue s) (length (pending o))
        (omega arith) (rw whole at (one_round-Advances t o.tx_pkt o.internal_pkt_queue s idle))
        (one_round-Blocks all o.tx_pkt o.internal_pkt_queue s whole) (loop-Pauses fuel all)

  -- Over a transport that keeps `Honours` of Transport.Contract, and with more fuel than bytes are pending,
  -- `continue_writing_packet` ends; if it ends with `false`, with a closed connection or because it would
  -- block, what the transport has accepted and what is pending are together what they were, in order.
  pub continue_writing_packet-Pauses :
      (fuel : ℕ) (o : Outbox) (s : State)
      → Idle o
      → length (pending o) < fuel
      → Pauses (accepted s ++ pending o) (continue_writing_packet t fuel o s)
  continue_writing_packet-Pauses fuel o s idle enough =
      loop-Pauses fuel (accepted s ++ pending o) o s refl idle enough
