-- ===== src/Transceiver/Disconnect/Turns.antt =====
-- The outbox from `spawn` of src/transceiver/mod.rs on, over the turns of `run_task_loop`.
use lmc_rs.Prelude.{
  subst, ℕ, zero, suc, ◌≡◌, refl, Bool, true, false, Option, none, some, List, [], ◌∷◌, ◌++◌,
  length, arith, ◌>>=◌,
}
use lmc_rs.Errors.{IoResult, done, failed, crashed, would_block, other_error, decode_failed}
use lmc_rs.Packets.Frame.{make_packet}
use lmc_rs.Packets.Outgoing.Requests.{empty_packet, ping_req, encode_empty_packet}
use lmc_rs.Transport.{Transport}
use lmc_rs.Transport.Contract.{Honours}
use lmc_rs.PacketReader.{PacketReadState, incoming, connection_closed, need_more_data, recv}
use lmc_rs.Subscription.Receivers.{Channels}
use lmc_rs.Transceiver.State.{Transceiver}
use lmc_rs.Transceiver.Writing.{Outbox}
use lmc_rs.Transceiver.Writing.Wire.{pending}
use lmc_rs.Transceiver.Writing.Continue.{continue_writing_packet}
use lmc_rs.Transceiver.Writing.Continue.Blocked.{Pauses, continue_writing_packet-Pauses}
use lmc_rs.Transceiver.Process.{process_packet}
use lmc_rs.Transceiver.Process.Respects.{process_packet-Respects}
use lmc_rs.Transceiver.Step.{TaskState, want_continue, want_stop, on_command, on_tick}
use lmc_rs.Transceiver.Step
use lmc_rs.Transceiver.Step.Reach.{with_read}
use lmc_rs.Transceiver.Step.Rules.{on_command-Respects}
use lmc_rs.Transceiver.Step.Ticks.{on_tick-Respects}
use lmc_rs.Transceiver.Step.Runs.{allowed}
use lmc_rs.Transceiver.Shutdown.{stopped}
use lmc_rs.Transceiver.Spawn.{TransceiverBuildData, spawn, initial, send_first, bootstrap}
use lmc_rs.Transceiver.Task.{
  Turn, Ready, writable, readable, commanded, alarm, after_writing, write_on, continue_writing,
  write_prepared, after_packet, after_recv, read_packets, read_prepared, is_enabled, task_step,
  Looped, waits, returned, after_step, task_loop,
}
use lmc_rs.Transceiver.Task.Written.{Tracks, write_on-Tracks}
use lmc_rs.Transceiver.Task.Orderly.{Orderly, rules, rest, tries-Orderly}
use lmc_rs.Transceiver.Disconnect.{after_bootstrap}
use lmc_rs.Transceiver.Disconnect.Sent.{unsent, tracked}

module _ (t : Transport) (k : Honours t) (c : Channels) where
  open t use {accepted}

  -- A turn without an error leaves an orderly state.
  abbrev After : Option (IoResult TaskState × Transceiver t.State) → Type 0
  After (some (done s, n)) = Orderly n
  After _ = Unit

  done-After : (r : IoResult TaskState) (n : Transceiver t.State) → Orderly n → After (some (r, n))
  done-After (done s) n h = h
  done-After (failed e) n h = tt
  done-After crashed n h = tt

  after_writing-After :
      (all : List ℕ) (r : IoResult Bool) (n : Transceiver t.State)
      → n.disconnect_sent ≡ false
      → Pauses t k all (some (r, n.outbox, n.transport))
      → After (some (after_writing t (r, n)))
  after_writing-After all (done false) n f p = (p.1, f)
  after_writing-After all (done true) n f p = (p.1, f)
  after_writing-After all (failed would_block) n f p = (p.1, f)
  after_writing-After all (failed other_error) n f p = tt
  after_writing-After all (failed (decode_failed d)) n f p = tt
  after_writing-After all crashed n f p = tt

  tracked-After :
      (all : List ℕ) (m : Transceiver t.State) (x : Option (IoResult Bool × Transceiver t.State))
      (y : Option (IoResult Bool × Outbox × t.State))
      → m.disconnect_sent ≡ false
      → Tracks t m x y
      → Pauses t k all y
      → After (elim x [ none ↦ none | some r ↦ some (after_writing t r) ])
  tracked-After all m none y f h p = tt
  tracked-After all m (some x) none f h p = absurd h
  tracked-After all m (some (r, n)) (some (q, o, s)) f h p =
      after_writing-After all r n (unsent t k m r q n o s f h) (tracked t k all m r q n o s h p)

  write_prepared-After :
      (now : ℕ) (m : Transceiver t.State) (r : IoResult (Unit {0}))
      → Orderly m
      → After (write_prepared t now r m)
  unfolding continue_writing
  write_prepared-After now m (done u) h =
      let fuel = suc (length (pending m.outbox)) in
      tracked-After (accepted m.transport ++ pending m.outbox) m (write_on t fuel now m)
        (continue_writing_packet t fuel m.outbox m.transport) h.1 (write_on-Tracks t fuel now m)
        (continue_writing_packet-Pauses t k fuel m.outbox m.transport h.0 (omega arith))
  write_prepared-After now m (failed e) h = tt
  write_prepared-After now m crashed h = tt

  module _ (now : ℕ) where
    after_packet-After :
        (fuel : ℕ) (q : IoResult Bool) (n : Transceiver t.State)
        → Orderly n
        → ((o : Transceiver t.State) → Orderly o → After (read_packets t c fuel now o))
        → After (after_packet t c (read_packets t c fuel now) (q, n))
    after_packet-After fuel (done true) n h next = h
    after_packet-After fuel (done false) n h next = next n h
    after_packet-After fuel (failed e) n h next = tt
    after_packet-After fuel crashed n h next = tt

    after_recv-After :
        (fuel : ℕ) (r : IoResult PacketReadState) (m : Transceiver t.State)
        → Orderly m
        → ((o : Transceiver t.State) → Orderly o → After (read_packets t c fuel now o))
        → After (after_recv t c (read_packets t c fuel now) now r m)
    after_recv-After fuel (done (incoming pkt)) m h next =
        let q = process_packet t c now pkt m in
        after_packet-After fuel q.0 q.1
          (process_packet-Respects (rules t c) now pkt (allowed pkt) m h) next
    after_recv-After fuel (done connection_closed) m h next = h
    after_recv-After fuel (done need_more_data) m h next = next m h
    after_recv-After fuel (failed would_block) m h next = h
    after_recv-After fuel (failed other_error) m h next = tt
    after_recv-After fuel (failed (decode_failed d)) m h next = tt
    after_recv-After fuel crashed m h next = tt

    read_packets-After :
        (fuel : ℕ) (m : Transceiver t.State) → Orderly m → After (read_packets t c fuel now m)
    unfolding read_packets
    read_packets-After zero m h = tt
    read_packets-After (suc fuel) m h =
        let r = recv t m.rx_pkt m.transport in
        after_recv-After fuel r.0 (with_read r.1 r.2 m) h (read_packets-After fuel)

    read_prepared-After :
        (fuel : ℕ) (r : IoResult Bool) (m : Transceiver t.State)
        → Orderly m
        → After (read_prepared t c fuel now r m)
    read_prepared-After fuel (done true) m h = read_packets-After fuel m h
    read_prepared-After fuel (done false) m h = h
    read_prepared-After fuel (failed e) m h = tt
    read_prepared-After fuel crashed m h = tt

    task_step-After :
        (fuel : ℕ) (ready : Ready) (m : Transceiver t.State)
        → Orderly m
        → After (task_step t c fuel now ready m)
    unfolding task_step
    task_step-After fuel (writable (done u)) m h =
        let r = t.pre_write m.transport in
        write_prepared-After now (record m { transport = r.1 }) r.0 h
    task_step-After fuel (writable (failed e)) m h = tt
    task_step-After fuel (writable crashed) m h = tt
    task_step-After fuel (readable (done u)) m h =
        let r = t.pre_read m.transport in read_prepared-After fuel r.0 (with_read m.rx_pkt r.1 m) h
    task_step-After fuel (readable (failed e)) m h = tt
    task_step-After fuel (readable crashed) m h = tt
    task_step-After fuel (commanded cmd) m h =
        let r = on_command t now cmd m in
        done-After r.0 r.1 (on_command-Respects (rules t c) (rest t) now cmd m h)
    task_step-After fuel alarm m h =
        let r = on_tick t now m in
        done-After r.0 r.1 (on_tick-Respects (rules t c) (rest t) now (λ ts n x. x) m h)

  -- The same of the loop, unless it ends with an error.
  abbrev pub AfterLoop : Option (Looped t c × Transceiver t.State) → Type 0
  AfterLoop (some (waits, n)) = Orderly n
  AfterLoop (some (returned stopped, n)) = Orderly n
  AfterLoop _ = Unit

  after_step-AfterLoop :
      (again : Transceiver t.State → Option (Looped t c × Transceiver t.State))
      (x : Option (IoResult TaskState × Transceiver t.State))
      → After x
      → ((n : Transceiver t.State) → Orderly n → AfterLoop (again n))
      → AfterLoop (after_step t c again x)
  after_step-AfterLoop again none h next = tt
  after_step-AfterLoop again (some (done want_continue, n)) h next = next n h
  after_step-AfterLoop again (some (done want_stop, n)) h next = h
  after_step-AfterLoop again (some (done Step.connection_closed, n)) h next = tt
  after_step-AfterLoop again (some (failed e, n)) h next = tt
  after_step-AfterLoop again (some (crashed, n)) h next = tt

  turn-AfterLoop :
      (again : Transceiver t.State → Option (Looped t c × Transceiver t.State)) (b : Bool)
      (m : Transceiver t.State) (x : Option (IoResult TaskState × Transceiver t.State))
      → Orderly m
      → After x
      → ((n : Transceiver t.State) → Orderly n → AfterLoop (again n))
      → AfterLoop (elim b [ false ↦ again m | true ↦ after_step t c again x ])
  turn-AfterLoop again false m x h a next = next m h
  turn-AfterLoop again true m x h a next = after_step-AfterLoop again x a next

  task_loop-AfterLoop :
      (fuel : ℕ) (turns : List Turn) (m : Transceiver t.State)
      → Orderly m
      → AfterLoop (task_loop t c fuel turns m)
  unfolding task_loop
  task_loop-AfterLoop fuel [] m h = h
  task_loop-AfterLoop fuel (turn ∷ turns) m h =
      turn-AfterLoop (task_loop t c fuel turns) (is_enabled t c turn.ready m) m
        (task_step t c fuel turn.now turn.ready m) h (task_step-After turn.now fuel turn.ready m h)
        (task_loop-AfterLoop fuel turns)

  pub bootstrap-AfterLoop :
      (fuel : ℕ) (turns : List Turn) (r : IoResult (Unit {0})) (m : Transceiver t.State)
      → Orderly m
      → AfterLoop (after_bootstrap t c fuel turns (r, m))
  bootstrap-AfterLoop fuel turns (done u) m h = task_loop-AfterLoop fuel turns m h
  bootstrap-AfterLoop fuel turns (failed e) m h = tt
  bootstrap-AfterLoop fuel turns crashed m h = tt

  pub spawned :
      (now : ℕ) (build : TransceiverBuildData t.State) (m : Transceiver t.State)
      → spawn now build ≡ some m
      → Orderly (bootstrap t m).1
  unfolding spawn bootstrap
  spawned now build m e = made (make_packet (empty_packet {kind = ping_req})) e
    where
      made :
          (o : Option (List ℕ))
          → (o >>= λ packet. some (initial now build packet)) ≡ some m
          → Orderly (send_first t m.outbox.tx_pkt m).1
      made none e = absurd cc
      made (some packet) e =
          let first = initial now build packet in
          let same : first ≡ m = cc in
          subst (λ (x : Transceiver t.State). Orderly (send_first t x.outbox.tx_pkt x).1) same
            (tries-Orderly t build.connect_packet false
              (record first { outbox = record first.outbox { tx_pkt = none } }) ((λ _. refl), refl))
