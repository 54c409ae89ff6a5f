-- ===== src/Transceiver/Writing/Continue/Progress.antt =====
-- Each round keeps the order of the bytes and writes one, and the loop ends.
use lmc_rs.Prelude.{
  ℕ, zero, suc, ◌+◌, ◌≤◌, ◌<◌, ◌≡◌, refl, sym, ap, ◌∙◌, Bool, false, Option, none, some, List, [],
  ◌++◌, leb, length, length-append, drop, append_assoc, arith, Bool-cases, inl, inr,
}
use lmc_rs.Errors.{IoResult, done, failed, crashed}
use lmc_rs.Transport.{Transport}
use lmc_rs.Transceiver.Writing.{TxPacket, InternalPacket, Outbox, clear_tx_packet}
use lmc_rs.Transceiver.Writing.Wire.{
  wire, queued, transmitting, pending, Idle, drop_all, length-wire,
}
use lmc_rs.Transceiver.Writing.Order.{Settles, clear_tx_packet-Settles}
use lmc_rs.Transceiver.Writing.Shrinks.{pending-send_queue}
use lmc_rs.Transceiver.Writing.Continue.{
  write_more, Round, ends, repeats, after_clear, after_flush, after_more, advanced, one_round,
  continue_writing_packet,
}
use lmc_rs.Transceiver.Writing.Continue.Front.{Front, write_more-Front}

module _ (t : Transport) where
  open t use {State, flush, accepted, accepted-flush}

  -- The bytes taken and pending are those of before.
  abbrev pub Whole : List ℕ → Outbox → State → Type 0
  Whole all o s = accepted s ++ pending o ≡ all

  -- A round that is not the last leaves less to transmit; one that ends without an error keeps the order,
  -- and one that ends with `false` leaves nothing.
  abbrev pub Advances : ℕ → List ℕ → Round t → Type 0
  Advances n all (repeats o s) = Whole all o s × Idle o × (length (pending o) < n)
  Advances n all (ends (done closed) o s) =
      Whole all o s × Idle o × (closed ≡ false → pending o ≡ [])
  Advances n all (ends r o s) = Unit

  after_clear-Advances :
      (n : ℕ) (all : List ℕ) (s : State) (rest : List ℕ) (r : IoResult (Unit {0}) × Outbox × State)
      → Settles t s rest r
      → accepted s ++ rest ≡ all
      → length (pending r.1) < n
      → Advances n all (after_clear t r)
  after_clear-Advances n all s rest (done tt, o, s') h e short = ((h refl).0 ∙ e, (h refl).1, short)
  after_clear-Advances n all s rest (failed x, o, s') h e short = tt
  after_clear-Advances n all s rest (crashed, o, s') h e short = tt

  after_flush-Advances :
      (n : ℕ) (all : List ℕ) (o : Outbox) (s : State) (r : IoResult (Unit {0}) × State)
      → accepted r.1 ≡ accepted s
      → accepted s ++ queued o.internal_pkt_queue ≡ all
      → length (queued o.internal_pkt_queue) < n
      → Advances n all (after_flush t o r)
  after_flush-Advances n all o s (done u, s') same e short =
      after_clear-Advances n all s' (queued o.internal_pkt_queue) (clear_tx_packet t o s')
        (clear_tx_packet-Settles t o s') (rw same e)
        (unfold clear_tx_packet in omega (arith, pending-send_queue t o.internal_pkt_queue s'))
  after_flush-Advances n all o s (failed x, s') same e short = tt
  after_flush-Advances n all o s (crashed, s') same e short = tt

  joined : (a b c d q : List ℕ) → a ++ b ≡ c ++ d → a ++ (b ++ q) ≡ c ++ (d ++ q)
  joined a b c d q e = sym (append_assoc a b q) ∙ ap (λ (x : List ℕ). x ++ q) e ∙ append_assoc c d q

  after_more-Advances :
      (tx : TxPacket) (ps : List InternalPacket) (s : State) (r : IoResult ℕ × State)
      → Front t tx s r
      → Advances
          (length (transmitting (some tx) ++ queued ps))
          (accepted s ++ (transmitting (some tx) ++ queued ps))
          (after_more t tx ps r)
  after_more-Advances tx ps s (done n, s') front = elim (Bool-cases (leb n 0)) [
    | inl nothing ↦
        let same : tx.pos + n ≡ tx.pos = ground arith in
        rw nothing (rw same at kept, λ e. absurd (cc e), λ e. absurd (cc e))
    | inr some_bytes ↦ elim (Bool-cases (leb (length tx.bytes) (tx.pos + n))) [
      | inl finished ↦
          let empty : left ≡ [] =
            drop_all (tx.pos + n) (wire tx.bytes tx.set_dup)
              (ground (arith, length-wire tx.bytes tx.set_dup)) in
          rw (some_bytes, finished)
            (after_flush-Advances total (accepted s ++ (rest ++ queued ps))
              (record { tx_pkt = some (advanced t tx n); internal_pkt_queue = ps }) s' (flush s')
              (accepted-flush s') (rw empty at kept)
              (ground (arith, lengths, length-append rest (queued ps), ap length empty)))
      | inr unfinished ↦
          rw (some_bytes, unfinished)
            (
              kept,
              λ e. absurd (cc e),
              ground
                  (arith, lengths, length-append rest (queued ps), length-append left (queued ps)),
            )
    ]
  ]
    where
      rest : List ℕ
      rest = drop tx.pos (wire tx.bytes tx.set_dup)

      left : List ℕ
      left = drop (tx.pos + n) (wire tx.bytes tx.set_dup)

      total : ℕ
      total = length (rest ++ queued ps)

      kept : accepted s' ++ (left ++ queued ps) ≡ accepted s ++ (rest ++ queued ps)
      kept = joined (accepted s') left (accepted s) rest (queued ps) (front n refl).0

      lengths : length left + n ≡ length rest
      lengths = omega (
        arith,
        ap length (front n refl).0,
        (front n refl).1,
        length-append (accepted s') left,
        length-append (accepted s) rest,
      )
  after_more-Advances tx ps s (failed x, s') front = tt
  after_more-Advances tx ps s (crashed, s') front = tt

  pub one_round-Advances :
      (o : Option TxPacket) (ps : List InternalPacket) (s : State)
      → Idle (record { tx_pkt = o; internal_pkt_queue = ps })
      → Advances
          (length (transmitting o ++ queued ps))
          (accepted s ++ (transmitting o ++ queued ps))
          (one_round t o ps s)
  unfolding one_round
  one_round-Advances none ps s idle = (refl, idle, λ e. ap queued (idle refl))
  one_round-Advances (some tx) ps s idle =
      after_more-Advances tx ps s (write_more t tx s) (write_more-Front t tx s)

  -- How the loop ends, on bytes `all`.
  abbrev pub Ends : List ℕ → Option (IoResult Bool × Outbox × State) → Type 0
  Ends all none = ⊥
  Ends all (some (done closed, o, s)) = Whole all o s × Idle o × (closed ≡ false → pending o ≡ [])
  Ends all (some (failed e, o, s)) = Unit
  Ends all (some (crashed, o, s)) = Unit

  last_round :
      (n : ℕ) (all : List ℕ) (r : IoResult Bool) (o : Outbox) (s : State)
      → Advances n all (ends r o s)
      → Ends all (some (r, o, s))
  last_round n all (done closed) o s h = h
  last_round n all (failed e) o s h = tt
  last_round n all crashed o s h = tt

  loop-Ends :
      (fuel : ℕ) (all : List ℕ) (r : Round t) (n : ℕ)
      → n ≤ fuel
      → Advances n all r
      → ((o : Outbox) (s : State)
          → Whole all o s
          → Idle o
          → length (pending o) < fuel
          → Ends all (continue_writing_packet t fuel o s))
      → Ends all (elim r [
        | ends x o s ↦ some (x, o, s)
        | repeats o s ↦ continue_writing_packet t fuel o s
      ])
  loop-Ends fuel all (ends x o s) n le h next = last_round n all x o s h
  loop-Ends fuel all (repeats o s) n le h next = next o s h.0 h.1 (omega (arith, h.2))

  continue-Ends :
      (fuel : ℕ) (all : List ℕ) (o : Outbox) (s : State)
      → Whole all o s
      → Idle o
      → length (pending o) < fuel
      → Ends all (continue_writing_packet t fuel o s)
  unfolding continue_writing_packet
  continue-Ends zero all o s whole idle enough = absurd (omega arith)
  continue-Ends (suc fuel) all o s whole idle enough =
      loop-Ends fuel all (one_round t o.tx_pkt o.internal_pkt_queue s) (length (pending o))
        (omega arith) (rw whole at (one_round-Advances o.tx_pkt o.internal_pkt_queue s idle))
        (continue-Ends fuel all)

  -- With more fuel than bytes are pending, `continue_writing_packet` ends. Unless it ends with an error,
  -- what the transport has accepted and what is pending are together what they were, in order, no packet
  -- waits while none is being transmitted, and nothing is pending if it returns `false`.
  pub continue_writing_packet-Ends :
      (fuel : ℕ) (o : Outbox) (s : State)
      → Idle o
      → length (pending o) < fuel
      → Ends (accepted s ++ pending o) (continue_writing_packet t fuel o s)
  continue_writing_packet-Ends fuel o s idle enough =
      continue-Ends fuel (accepted s ++ pending o) o s refl idle enough
