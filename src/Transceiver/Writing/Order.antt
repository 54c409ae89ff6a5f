-- ===== src/Transceiver/Writing/Order.antt =====
-- The order of the bytes: what the transport has accepted and what is still to be transmitted.
use lmc_rs.Prelude.{
  ℕ, zero, suc, ◌+◌, ◌≡◌, refl, sym, ap, ◌∙◌, Bool, true, false, Option, none, some, List, [], ◌∷◌,
  ◌++◌, append-nil, Option-cases, bit_or, leb, length, take, drop, append_assoc, arith, Bool-cases,
  inl, inr,
}
use lmc_rs.Errors.{IoResult, done, failed, crashed}
use lmc_rs.Packets.Control.{dup_bit}
use lmc_rs.Transport.{Transport}
use lmc_rs.Transceiver.Writing.{
  queue_internal_packet, next_round, send_queue, clear_tx_packet, TxPacket, InternalPacket, Outbox,
  write_packet, write_rest, add_written, after_write, try_send_packet,
}
use lmc_rs.Transceiver.Writing.Wire.{
  wire, queued, transmitting, pending, drop_all, length-wire, done_inj, wire_plain, Idle, whole,
}

module _ (t : Transport) where
  open t use {State, write, flush, accepted, write_takes, accepted-flush}

  -- Of a packet that `write_packet` reports as written up to `n`, the transport has these bytes.
  abbrev Took : List ℕ → Bool → State → IoResult ℕ × State → Type 0
  Took bytes set_dup s r =
      (n : ℕ) → r.0 ≡ done n → accepted r.1 ≡ accepted s ++ take n (wire bytes set_dup)

  done_suc : (m n : ℕ) → done (1 + m) ≡ done n → n ≡ suc m
  done_suc m n h = omega (arith, done_inj h)

  write-Took :
      (bytes : List ℕ) (s : State) (r : IoResult ℕ × State)
      → write s bytes true ≡ r
      → Took bytes false s r
  write-Took bytes s r e n h = rw (wire_plain bytes) (
      sym (ap (λ (x : IoResult ℕ × State). accepted x.1) e)
      ∙ (write_takes s bytes true n (ap (λ (x : IoResult ℕ × State). x.0) e ∙ h)).1)

  add_written-Took :
      (b : ℕ) (bytes : List ℕ) (s s' : State) (r : IoResult ℕ × State)
      → accepted s' ≡ accepted s ++ (bit_or b dup_bit ∷ [])
      → Took bytes false s' r
      → Took (b ∷ bytes) true s (add_written t 1 r)
  add_written-Took b bytes s s' (done m, s2) one rest n h = rw (done_suc m n h) (
      rw (wire_plain bytes) at (rest m refl)
      ∙ ap (λ (x : List ℕ). x ++ take m bytes) one
      ∙ append_assoc (accepted s) (bit_or b dup_bit ∷ []) (take m bytes))
  add_written-Took b bytes s s' (failed x, s2) one rest n h = cc
  add_written-Took b bytes s s' (crashed, s2) one rest n h = cc

  write_rest-Took :
      (b : ℕ) (bytes : List ℕ) (s : State) (r : IoResult ℕ × State)
      → write s (bit_or b dup_bit ∷ []) true ≡ r
      → Took (b ∷ bytes) true s (write_rest t (b ∷ bytes) r)
  write_rest-Took b bytes s (done zero, s') e n h =
      let none_taken : accepted s' ≡ accepted s ++ [] =
        (write-Took (bit_or b dup_bit ∷ []) s (done zero, s') e 0 refl) in
      let nothing : n ≡ 0 = sym (done_inj h) in rw nothing none_taken
  write_rest-Took b bytes s (done (suc zero), s') e n h =
      add_written-Took b bytes s s' (write s' bytes true)
        (write-Took (bit_or b dup_bit ∷ []) s (done (suc zero), s') e 1 refl)
        (write-Took bytes s' (write s' bytes true) refl) n h
  write_rest-Took b bytes s (done (suc (suc m)), s') e n h = absurd (
      omega (
        arith,
        (write_takes s (bit_or b dup_bit ∷ []) true (suc (suc m))
            (ap (λ (x : IoResult ℕ × State). x.0) e)).0,
      ))
  write_rest-Took b bytes s (failed x, s') e n h = cc
  write_rest-Took b bytes s (crashed, s') e n h = cc

  write_packet-Took :
      (bytes : List ℕ) (set_dup : Bool) (s : State)
      → Took bytes set_dup s (write_packet t bytes set_dup s)
  unfolding write_packet
  write_packet-Took bytes false s = write-Took bytes s (write s bytes true) refl
  write_packet-Took [] true s = λ n h. cc
  write_packet-Took (b ∷ bytes) true s =
      write_rest-Took b bytes s (write s (bit_or b dup_bit ∷ []) true) refl

  -- Nothing is lost or reordered: what has been accepted and what is pending are, together, what had been
  -- accepted and then `rest`.
  abbrev pub Keeps : State → List ℕ → IoResult (Unit {0}) × Outbox × State → Type 0
  Keeps s rest r = r.0 ≡ done tt → accepted r.2 ++ pending r.1 ≡ accepted s ++ rest

  after_write-Keeps :
      (bytes : List ℕ) (set_dup : Bool) (ps : List InternalPacket) (s : State)
      (r : IoResult ℕ × State)
      → Took bytes set_dup s r
      → Keeps s
          (wire bytes set_dup ++ queued ps)
          (after_write t bytes set_dup (record { tx_pkt = none; internal_pkt_queue = ps }) r)
  after_write-Keeps bytes set_dup ps s (done n, s') took =
      elim (Bool-cases (leb (length bytes) n)) [
        | inl all ↦
            let none_left : drop n (wire bytes set_dup) ≡ [] =
              drop_all n (wire bytes set_dup) (ground (arith, length-wire bytes set_dup)) in
            rw all (λ h. rw (accepted-flush s') (
              rw none_left at (
                whole n (accepted s') (accepted s) (wire bytes set_dup) (queued ps) (took n refl))))
        | inr part ↦
            rw part (λ h.
              whole n (accepted s') (accepted s) (wire bytes set_dup) (queued ps) (took n refl))
      ]
  after_write-Keeps bytes set_dup ps s (failed e, s') took = λ h. cc
  after_write-Keeps bytes set_dup ps s (crashed, s') took = λ h. cc

  try_send_packet-Keeps :
      (bytes : List ℕ) (set_dup : Bool) (ps : List InternalPacket) (s : State)
      → Keeps s
          (wire bytes set_dup ++ queued ps)
          (try_send_packet t bytes set_dup (record { tx_pkt = none; internal_pkt_queue = ps }) s)
  unfolding try_send_packet
  try_send_packet-Keeps bytes set_dup ps s =
      after_write-Keeps bytes set_dup ps s (write_packet t bytes set_dup s)
        (write_packet-Took bytes set_dup s)

  internal_pkt_queue-after_write :
      (bytes : List ℕ) (set_dup : Bool) (o : Outbox) (r : IoResult ℕ × State)
      → (after_write t bytes set_dup o r).1.internal_pkt_queue ≡ o.internal_pkt_queue
  internal_pkt_queue-after_write bytes set_dup o (done n, s) = ground arith
  internal_pkt_queue-after_write bytes set_dup o (failed e, s) = refl
  internal_pkt_queue-after_write bytes set_dup o (crashed, s) = refl

  internal_pkt_queue-try_send_packet :
      (bytes : List ℕ) (set_dup : Bool) (o : Outbox) (s : State)
      → (try_send_packet t bytes set_dup o s).1.internal_pkt_queue ≡ o.internal_pkt_queue
  unfolding try_send_packet
  internal_pkt_queue-try_send_packet bytes set_dup o s =
      internal_pkt_queue-after_write bytes set_dup o (write_packet t bytes set_dup s)

  -- As `Keeps`, and no packet waits while none is being transmitted.
  abbrev pub Settles : State → List ℕ → IoResult (Unit {0}) × Outbox × State → Type 0
  Settles s rest r = r.0 ≡ done tt → (accepted r.2 ++ pending r.1 ≡ accepted s ++ rest) × Idle r.1

  next_round-Settles :
      (ps : List InternalPacket) (s : State) (rest : List ℕ)
      (again : State → IoResult (Unit {0}) × Outbox × State)
      (r : IoResult (Unit {0}) × Outbox × State)
      → ((s' : State) → Settles s' (queued ps) (again s'))
      → r.1.internal_pkt_queue ≡ ps
      → Keeps s rest r
      → Settles s rest (next_round t again r)
  next_round-Settles ps s rest again (done u, o, s') settles same keeps =
      elim (Option-cases o.tx_pkt) [
        | inl ended ↦ rw ended (λ h.
            let before : accepted s' ++ queued ps ≡ accepted s ++ rest =
              rw (ended, same) at (keeps refl) in
            ((settles s' h).0 ∙ before, (settles s' h).1))
        | inr (tx, going) ↦ rw going (λ h. (rw going at (keeps refl), λ e. absurd (cc)))
      ]
  next_round-Settles ps s rest again (failed e, o, s') settles same keeps = λ h. absurd (cc)
  next_round-Settles ps s rest again (crashed, o, s') settles same keeps = λ h. absurd (cc)

  send_queue-Settles :
      (ps : List InternalPacket) (s : State) → Settles s (queued ps) (send_queue t ps s)
  unfolding send_queue
  send_queue-Settles [] s = λ h. (refl, λ e. refl)
  send_queue-Settles (p ∷ ps) s =
      next_round-Settles ps s (queued (p ∷ ps)) (send_queue t ps)
        (try_send_packet t p.bytes p.set_dup (record { tx_pkt = none; internal_pkt_queue = ps }) s)
        (send_queue-Settles ps)
        (internal_pkt_queue-try_send_packet p.bytes p.set_dup
          (record { tx_pkt = none; internal_pkt_queue = ps }) s)
        (try_send_packet-Keeps p.bytes p.set_dup ps s)

  -- When `clear_tx_packet` succeeds, what the transport has accepted since and what is still pending are
  -- exactly the packets of the queue, in order and with their DUP flags, and no packet waits while none is
  -- being transmitted.
  pub clear_tx_packet-Settles :
      (o : Outbox) (s : State) → Settles s (queued o.internal_pkt_queue) (clear_tx_packet t o s)
  unfolding clear_tx_packet
  clear_tx_packet-Settles o s = send_queue-Settles o.internal_pkt_queue s

  queued-append :
      (ps : List InternalPacket) (p : InternalPacket)
      → queued (ps ++ (p ∷ [])) ≡ queued ps ++ wire p.bytes p.set_dup
  queued-append [] p = append-nil (wire p.bytes p.set_dup)
  queued-append (q ∷ ps) p =
      ap (◌++◌ (wire q.bytes q.set_dup)) (queued-append ps p)
      ∙ sym (append_assoc (wire q.bytes q.set_dup) (queued ps) (wire p.bytes p.set_dup))

  queue_behind :
      (bytes : List ℕ) (set_dup : Bool) (o : Option TxPacket) (ps : List InternalPacket) (s : State)
      → Idle (record { tx_pkt = o; internal_pkt_queue = ps })
      → Settles s
          (pending (record { tx_pkt = o; internal_pkt_queue = ps }) ++ wire bytes set_dup)
          (queue_internal_packet t bytes set_dup (record { tx_pkt = o; internal_pkt_queue = ps }) s)
  unfolding queue_internal_packet
  queue_behind bytes set_dup none [] s idle = λ h. (
    rw (append-nil (wire bytes set_dup)) at (try_send_packet-Keeps bytes set_dup [] s h),
    λ e.
        internal_pkt_queue-try_send_packet bytes set_dup
          (record { tx_pkt = none; internal_pkt_queue = [] }) s,
  )
  queue_behind bytes set_dup none (p ∷ ps) s idle = absurd (cc (idle refl))
  queue_behind bytes set_dup (some tx) ps s idle = λ h.
      let p : InternalPacket = record { bytes = bytes; set_dup = set_dup } in
      (
        ap (λ (x : List ℕ). accepted s ++ x)
            (ap (◌++◌ (transmitting (some tx))) (queued-append ps p)
              ∙ sym (append_assoc (transmitting (some tx)) (queued ps) (wire bytes set_dup))),
        λ e. absurd (cc e),
      )

  -- When `queue_internal_packet` succeeds on an outbox in which no packet waits while none is being
  -- transmitted, that stays so, and the new packet comes behind everything that was pending, of which
  -- nothing is lost or reordered.
  pub queue_internal_packet-Settles :
      (bytes : List ℕ) (set_dup : Bool) (o : Outbox) (s : State)
      → Idle o
      → Settles s (pending o ++ wire bytes set_dup) (queue_internal_packet t bytes set_dup o s)
  queue_internal_packet-Settles bytes set_dup o s idle =
      queue_behind bytes set_dup o.tx_pkt o.internal_pkt_queue s idle
