-- ===== src/Transceiver/Disconnect/Closes.antt =====
-- The bytes over `send_close_notify` of src/transceiver/mod.rs.
use lmc_rs.Prelude.{
  ℕ, ◌≡◌, refl, ◌∙◌, Bool, true, false, none, some, List, [], ◌∷◌, Bool-cases, inl, inr,
}
use lmc_rs.Errors.{IoResult, done, failed, crashed}
use lmc_rs.Transport.{Transport, WantedFlags}
use lmc_rs.Transport.Contract.{Honours}
use lmc_rs.Transceiver.State.{Transceiver}
use lmc_rs.Transceiver.Disconnect.{
  Wait, Socket, writable, readable, Limited, in_time, timed_out, panics, out_of_fuel, Outcome,
  Branch, goes_on, leaves, breaks, no_fuel, nothing_wanted, ends_in, after_branch, read_branch,
  write_branch, written, one_wait, close_loop, send_close_notify,
}

module _ (t : Transport) (k : Honours t) where
  open t use {accepted}

  abbrev pub Same : Transceiver t.State → Transceiver t.State → Type 0
  Same m n = (accepted n.transport ≡ accepted m.transport) × (n.disconnect_sent ≡ m.disconnect_sent)

  Same-trans : (m n o : Transceiver t.State) → Same m n → Same n o → Same m o
  Same-trans m n o a b = (b.0 ∙ a.0, b.1 ∙ a.1)

  abbrev Still : Transceiver t.State → Branch × Transceiver t.State → Type 0
  Still m (goes_on, n) = Same m n
  Still m (leaves r, n) = Same m n
  Still m (breaks, n) = Unit
  Still m (no_fuel, n) = ⊥

  ends_in-Still :
      (m n : Transceiver t.State) (r : IoResult Bool) → Same m n → Still m (ends_in r, n)
  ends_in-Still m n (done b) h = h
  ends_in-Still m n (failed e) h = h
  ends_in-Still m n crashed h = tt

  read_branch-Still :
      (r : IoResult (Unit {0})) (m : Transceiver t.State) → Still m (read_branch t r m)
  read_branch-Still (done u) m =
      ends_in-Still m (record m { transport = (t.pre_read m.transport).1 })
        (t.pre_read m.transport).0 (t.accepted-pre_read m.transport, refl)
  read_branch-Still (failed e) m = (refl, refl)
  read_branch-Still crashed m = tt

  prepared-Still :
      (now : ℕ) (m n : Transceiver t.State) (r : IoResult (Unit {0}))
      → Same m n
      → Still m (elim r [
        | done v ↦ written t now n
        | failed e ↦ (leaves (some e), n)
        | crashed ↦ (breaks, n)
      ])
  prepared-Still now m n (done v) h = h
  prepared-Still now m n (failed e) h = h
  prepared-Still now m n crashed h = tt

  write_branch-Still :
      (now : ℕ) (r : IoResult (Unit {0})) (m : Transceiver t.State)
      → Still m (write_branch t (written t now) r m)
  write_branch-Still now (done u) m =
      prepared-Still now m (record m { transport = (t.pre_write m.transport).1 })
        (t.pre_write m.transport).0 (t.accepted-pre_write m.transport, refl)
  write_branch-Still now (failed e) m = (refl, refl)
  write_branch-Still now crashed m = tt

  wait-Still :
      (now : ℕ) (wants : WantedFlags) (socket : Socket) (m : Transceiver t.State)
      → Still m (one_wait t wants (written t) (record { now = now; socket = socket }) m)
  wait-Still now wants (writable r) m = elim (Bool-cases wants.write) [
    | inl e ↦ rw e (write_branch-Still now r m)
    | inr e ↦ rw e (refl, refl)
  ]
  wait-Still now wants (readable r) m = elim (Bool-cases wants.read) [
    | inl e ↦ rw e (read_branch-Still r m)
    | inr e ↦ rw e (refl, refl)
  ]

  abbrev pub Kept : {A : Type 0} → Transceiver t.State → Limited A × Transceiver t.State → Type 0
  Kept m (in_time r ws, n) = Same m n
  Kept m (timed_out, n) = Same m n
  Kept m (panics, n) = Unit
  Kept m (out_of_fuel, n) = ⊥

  Kept-trans :
      (m n o : Transceiver t.State) (x : Limited Outcome) → Same m n → Kept n (x, o) → Kept m (x, o)
  Kept-trans m n o (in_time r ws) a b = Same-trans m n o a b
  Kept-trans m n o timed_out a b = Same-trans m n o a b
  Kept-trans m n o panics a b = tt
  Kept-trans m n o out_of_fuel a b = b

  branch-Kept :
      (m : Transceiver t.State) (ws : List Wait) (b : Branch) (n : Transceiver t.State)
      → Still m (b, n)
      → ((o : Transceiver t.State) → Kept o (close_loop t ws o))
      → Kept m (after_branch t (close_loop t ws) ws (b, n))
  branch-Kept m ws goes_on n h next = let r = close_loop t ws n in Kept-trans m n r.1 r.0 h (next n)
  branch-Kept m ws (leaves r) n h next = h
  branch-Kept m ws breaks n h next = tt
  branch-Kept m ws no_fuel n h next = h

  round-Kept :
      (ws : List Wait) (m : Transceiver t.State) (b : Bool)
      (next : Limited Outcome × Transceiver t.State)
      → Kept m next
      → Kept {A = Outcome} m (elim b [ true ↦ (in_time none ws, m) | false ↦ next ])
  round-Kept ws m true next h = (refl, refl)
  round-Kept ws m false next h = h

  close_loop-Kept : (ws : List Wait) (m : Transceiver t.State) → Kept m (close_loop t ws m)
  unfolding close_loop
  close_loop-Kept [] m = elim (Bool-cases (nothing_wanted (t.wants m.transport false false))) [
    | inl e ↦ rw e (refl, refl)
    | inr e ↦ rw e (refl, refl)
  ]
  close_loop-Kept (w ∷ ws) m =
      let wants = t.wants m.transport false false in
      let b = one_wait t wants (written t) w m in
      round-Kept (w ∷ ws) m (nothing_wanted wants) (after_branch t (close_loop t ws) ws b)
        (branch-Kept m ws b.0 b.1 (wait-Still w.now wants w.socket m) (close_loop-Kept ws))

  -- However `send_close_notify` ends, the transport has taken no bytes meanwhile.
  pub send_close_notify-Kept :
      (ws : List Wait) (m : Transceiver t.State) → Kept m (send_close_notify t ws m)
  unfolding send_close_notify
  send_close_notify-Kept ws m =
      let n = record m { transport = t.send_close_notify m.transport } in
      let r = close_loop t ws n in
      Kept-trans m n r.1 r.0 (k.accepted-send_close_notify m.transport, refl) (close_loop-Kept ws n)
