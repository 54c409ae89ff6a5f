-- ===== src/Transceiver/Task/Written.antt =====
-- `continue_writing_packet` of src/transceiver/mod.rs on the whole state, and on the packets and the
-- transport.
use lmc_rs.Prelude.{ℕ, zero, suc, ◌≡◌, refl, Bool, Option, none, some}
use lmc_rs.Errors.{IoResult}
use lmc_rs.Transport.{Transport}
use lmc_rs.Transceiver.State.{Transceiver}
use lmc_rs.Transceiver.Writing.{Outbox}
use lmc_rs.Transceiver.Writing.Continue.{Round, ends, repeats, one_round, continue_writing_packet}
use lmc_rs.Transceiver.Step.Reach.{with_written}
use lmc_rs.Transceiver.Task.{round_time, next_write, write_on}

module _ (t : Transport) where
  -- The two end together, with one result, and nothing else has changed.
  abbrev pub Tracks :
      Transceiver t.State
      → Option (IoResult Bool × Transceiver t.State)
      → Option (IoResult Bool × Outbox × t.State)
      → Type 0
  Tracks m none none = Unit
  Tracks m (some (r, n)) (some (q, o, s)) = (r ≡ q) × (n ≡ with_written o s n.last_tx m)
  Tracks m _ _ = ⊥

  Tracks-with_written :
      (o : Outbox) (s : t.State) (last_tx : ℕ) (m : Transceiver t.State)
      (x : Option (IoResult Bool × Transceiver t.State))
      (y : Option (IoResult Bool × Outbox × t.State))
      → Tracks (with_written o s last_tx m) x y
      → Tracks m x y
  Tracks-with_written o s last_tx m none none h = h
  Tracks-with_written o s last_tx m (some x) (some y) h = h
  Tracks-with_written o s last_tx m none (some y) h = h
  Tracks-with_written o s last_tx m (some x) none h = h

  next_write-Tracks :
      (fuel now : ℕ) (m : Transceiver t.State) (round : Round t)
      → ((n : Transceiver t.State)
          → Tracks n (write_on t fuel now n) (continue_writing_packet t fuel n.outbox n.transport))
      → Tracks m (next_write t (write_on t fuel now) now m round) (elim round [
        | ends r o s ↦ some (r, o, s)
        | repeats o s ↦ continue_writing_packet t fuel o s
      ])
  next_write-Tracks fuel now m (ends r o s) h = (refl, refl)
  next_write-Tracks fuel now m (repeats o s) h =
      let last_tx = round_time t now m.outbox.tx_pkt m in
      Tracks-with_written o s last_tx m _ _ (h (with_written o s last_tx m))

  pub write_on-Tracks :
      (fuel now : ℕ) (m : Transceiver t.State)
      → Tracks m (write_on t fuel now m) (continue_writing_packet t fuel m.outbox m.transport)
  unfolding write_on continue_writing_packet
  write_on-Tracks zero now m = tt
  write_on-Tracks (suc fuel) now m =
      next_write-Tracks fuel now m
        (one_round t m.outbox.tx_pkt m.outbox.internal_pkt_queue m.transport)
        (write_on-Tracks fuel now)
