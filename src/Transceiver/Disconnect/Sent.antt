-- ===== src/Transceiver/Disconnect/Sent.antt =====
-- The bytes over the waits of `send_disconnect_and_flush` of src/transceiver/mod.rs.
use lmc_rs.Prelude.{
  subst, ℕ, suc, ◌≡◌, sym, ap, ◌∙◌, Bool, true, false, Option, none, some, List, ◌++◌, length,
  arith, Bool-cases, inl, inr,
}
use lmc_rs.Errors.{IoResult, done, failed, crashed, would_block, other_error, decode_failed}
use lmc_rs.Transport.{Transport, WantedFlags}
use lmc_rs.Transport.Contract.{Honours}
use lmc_rs.Transceiver.State.{Transceiver}
use lmc_rs.Transceiver.Writing.{Outbox}
use lmc_rs.Transceiver.Writing.Wire.{pending, Idle}
use lmc_rs.Transceiver.Writing.Continue.{continue_writing_packet}
use lmc_rs.Transceiver.Writing.Continue.Blocked.{Pauses, continue_writing_packet-Pauses}
use lmc_rs.Transceiver.Task.{write_on, continue_writing}
use lmc_rs.Transceiver.Task.Written.{Tracks, write_on-Tracks}
use lmc_rs.Transceiver.Disconnect.{
  Wait, Socket, writable, readable, Limited, in_time, timed_out, panics, out_of_fuel, Outcome,
  Branch, goes_on, leaves, breaks, no_fuel, nothing_wanted, ends_in, after_branch, read_branch,
  write_branch, after_flushing, flush_more, one_wait, flush_loop,
}

-- Where nothing is wanted, a transport that follows the hint to write has nothing to transmit.
pub nothing_wanted-idle : (w : WantedFlags) → nothing_wanted w ≡ true → w.write ≡ false
nothing_wanted-idle w e = ground (arith, e)

module _ (t : Transport) (k : Honours t) where
  open t use {accepted}

  -- The bytes `all` are those transmitted and those pending.
  abbrev pub Sends : List ℕ → Transceiver t.State → Type 0
  Sends all m =
      (accepted m.transport ++ pending m.outbox ≡ all) × Idle m.outbox × (m.disconnect_sent ≡ false)

  abbrev pub After : List ℕ → Branch × Transceiver t.State → Type 0
  After all (goes_on, n) = Sends all n
  After all (leaves r, n) = n.disconnect_sent ≡ false
  After all (breaks, n) = Unit
  After all (no_fuel, n) = ⊥

  pub unsent :
      (m : Transceiver t.State) (r q : IoResult Bool) (n : Transceiver t.State) (o : Outbox)
      (s : t.State)
      → m.disconnect_sent ≡ false
      → Tracks t m (some (r, n)) (some (q, o, s))
      → n.disconnect_sent ≡ false
  unsent m r q n o s f h = ap (λ (x : Transceiver t.State). x.disconnect_sent) h.1 ∙ f

  pub tracked :
      (all : List ℕ) (m : Transceiver t.State) (r q : IoResult Bool) (n : Transceiver t.State)
      (o : Outbox) (s : t.State)
      → Tracks t m (some (r, n)) (some (q, o, s))
      → Pauses t k all (some (q, o, s))
      → Pauses t k all (some (r, n.outbox, n.transport))
  tracked all m r q n o s h = subst (Pauses t k all) (
      ap (λ (x : IoResult Bool). some (x, o, s)) (sym h.0)
      ∙ ap (λ (x : Transceiver t.State). some (r, x.outbox, x.transport)) (sym h.1))

  after_flushing-After :
      (all : List ℕ) (r : IoResult Bool) (n : Transceiver t.State)
      → n.disconnect_sent ≡ false
      → Pauses t k all (some (r, n.outbox, n.transport))
      → After all (after_flushing t (r, n))
  after_flushing-After all (done false) n f p = (p.0, p.1, f)
  after_flushing-After all (done true) n f p = f
  after_flushing-After all (failed would_block) n f p = (p.0, p.1, f)
  after_flushing-After all (failed other_error) n f p = f
  after_flushing-After all (failed (decode_failed d)) n f p = f
  after_flushing-After all crashed n f p = tt

  flushing-After :
      (all : List ℕ) (m : Transceiver t.State) (x : Option (IoResult Bool × Transceiver t.State))
      (y : Option (IoResult Bool × Outbox × t.State))
      → m.disconnect_sent ≡ false
      → Tracks t m x y
      → Pauses t k all y
      → After all (elim x [ none ↦ (no_fuel, m) | some r ↦ after_flushing t r ])
  flushing-After all m none none f h p = p
  flushing-After all m none (some y) f h p = absurd h
  flushing-After all m (some x) none f h p = absurd h
  flushing-After all m (some (r, n)) (some (q, o, s)) f h p =
      after_flushing-After all r n (unsent m r q n o s f h) (tracked all m r q n o s h p)

  flush_more-After :
      (all : List ℕ) (now : ℕ) (m : Transceiver t.State)
      → Sends all m
      → After all (flush_more t now m)
  unfolding continue_writing
  flush_more-After all now m h =
      let fuel = suc (length (pending m.outbox)) in
      flushing-After all m (write_on t fuel now m)
        (continue_writing_packet t fuel m.outbox m.transport) h.2 (write_on-Tracks t fuel now m)
        (subst (λ (x : List ℕ). Pauses t k x (continue_writing_packet t fuel m.outbox m.transport))
          h.0 (continue_writing_packet-Pauses t k fuel m.outbox m.transport h.1 (omega arith)))

  prepared-After :
      (all : List ℕ) (now : ℕ) (m : Transceiver t.State) (r : IoResult (Unit {0}))
      → Sends all m
      → After all (elim r [
        | done v ↦ flush_more t now m
        | failed e ↦ (leaves (some e), m)
        | crashed ↦ (breaks, m)
      ])
  prepared-After all now m (done v) h = flush_more-After all now m h
  prepared-After all now m (failed e) h = h.2
  prepared-After all now m crashed h = tt

  write_branch-After :
      (all : List ℕ) (now : ℕ) (r : IoResult (Unit {0})) (m : Transceiver t.State)
      → Sends all m
      → After all (write_branch t (flush_more t now) r m)
  write_branch-After all now (done u) m h =
      prepared-After all now (record m { transport = (t.pre_write m.transport).1 })
        (t.pre_write m.transport).0
        (
          ap (λ (x : List ℕ). x ++ pending m.outbox) (t.accepted-pre_write m.transport) ∙ h.0,
          h.1,
          h.2,
        )
  write_branch-After all now (failed e) m h = h.2
  write_branch-After all now crashed m h = tt

  ends_in-After :
      (all : List ℕ) (m : Transceiver t.State) (r : IoResult Bool)
      → Sends all m
      → After all (ends_in r, m)
  ends_in-After all m (done b) h = h
  ends_in-After all m (failed e) h = h.2
  ends_in-After all m crashed h = tt

  read_branch-After :
      (all : List ℕ) (r : IoResult (Unit {0})) (m : Transceiver t.State)
      → Sends all m
      → After all (read_branch t r m)
  read_branch-After all (done u) m h =
      ends_in-After all (record m { transport = (t.pre_read m.transport).1 })
        (t.pre_read m.transport).0
        (
          ap (λ (x : List ℕ). x ++ pending m.outbox) (t.accepted-pre_read m.transport) ∙ h.0,
          h.1,
          h.2,
        )
  read_branch-After all (failed e) m h = h.2
  read_branch-After all crashed m h = tt

  pub wait-After :
      (all : List ℕ) (now : ℕ) (wants : WantedFlags) (socket : Socket) (m : Transceiver t.State)
      → Sends all m
      → After all (one_wait t wants (flush_more t) (record { now = now; socket = socket }) m)
  wait-After all now wants (writable r) m h = elim (Bool-cases wants.write) [
    | inl e ↦ rw e (write_branch-After all now r m h)
    | inr e ↦ rw e h
  ]
  wait-After all now wants (readable r) m h = elim (Bool-cases wants.read) [
    | inl e ↦ rw e (read_branch-After all r m h)
    | inr e ↦ rw e h
  ]

  -- How the loop ends: if DISCONNECT counts as sent, all is transmitted.
  abbrev pub Flushed : List ℕ → Limited Outcome × Transceiver t.State → Type 0
  Flushed all (in_time r ws, n) = n.disconnect_sent ≡ true → accepted n.transport ≡ all
  Flushed all (timed_out, n) = n.disconnect_sent ≡ false
  Flushed all (panics, n) = Unit
  Flushed all (out_of_fuel, n) = ⊥

  pub branch-Flushed :
      (all : List ℕ) (ws : List Wait) (b : Branch) (n : Transceiver t.State)
      → After all (b, n)
      → ((o : Transceiver t.State) → Sends all o → Flushed all (flush_loop t ws o))
      → Flushed all (after_branch t (flush_loop t ws) ws (b, n))
  branch-Flushed all ws goes_on n h next = next n h
  branch-Flushed all ws (leaves r) n h next = λ e. absurd (cc (h, e))
  branch-Flushed all ws breaks n h next = tt
  branch-Flushed all ws no_fuel n h next = h
