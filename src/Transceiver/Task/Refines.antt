-- ===== src/Transceiver/Task/Refines.antt =====
-- `Transceiver::task_step` of src/transceiver/mod.rs as a function and as a relation.
use lmc_rs.Prelude.{
  not, ◌&&◌, subst, ℕ, zero, suc, ◌≡◌, refl, sym, ap, ◌∙◌, Bool, true, false, Option, none, some,
  List, [], ◌∷◌, length,
}
use lmc_rs.Errors.{IoResult, done, failed, crashed, would_block, other_error, decode_failed}
use lmc_rs.Transport.{Transport}
use lmc_rs.PacketReader.{
  PacketReader, PacketReadState, incoming, connection_closed, need_more_data, recv,
}
use lmc_rs.Subscription.Receivers.{Channels}
use lmc_rs.Transceiver.State.{Transceiver}
use lmc_rs.Commands.{Command}
use lmc_rs.Transceiver.Sending.{is_some}
use lmc_rs.Transceiver.Writing.{TxPacket, Outbox}
use lmc_rs.Transceiver.Writing.Wire.{pending}
use lmc_rs.Transceiver.Writing.Continue.{continue_writing_packet}
use lmc_rs.Transceiver.Process.{process_packet}
use lmc_rs.Transceiver.Step.{TaskState, want_continue, want_stop, on_command, on_tick}
use lmc_rs.Transceiver.Step
use lmc_rs.Transceiver.Step.Reach.{
  Event, prepared, got, got_some, wrote, ordered, ticked, with_read, with_written, Step, read_ready,
  read_packet, read_part, read_blocked, write_all, write_blocked, obey, tick, Run, rests, steps,
}
use lmc_rs.Transceiver.Task.{
  Ready, writable, readable, commanded, alarm, after_writing, write_on, continue_writing,
  write_prepared, after_packet, after_recv, read_packets, read_prepared, is_enabled, task_step,
}
use lmc_rs.Transceiver.Task.Written.{Tracks, write_on-Tracks}

-- The condition of the branch of the commands.
conditions :
    (closed connecting : Bool) (tx : Option TxPacket)
    → (not closed && (not connecting && not (is_some tx))) ≡ true
    → (closed ≡ false) × (connecting ≡ false) × (tx ≡ none)
conditions false false none h = (refl, refl, refl)
conditions false false (some tx) h = absurd cc
conditions false true tx h = absurd cc
conditions true connecting tx h = absurd cc

module _ (t : Transport) (c : Channels) where
  abbrev pub Reached : Transceiver t.State → Transceiver t.State → Type 0
  Reached m n = (es : List Event) × Run t c es m n

  -- Where the task goes on, a run leads there.
  abbrev pub Continues :
      Transceiver t.State → Option (IoResult TaskState × Transceiver t.State) → Type 0
  Continues m (some (done want_continue, n)) = Reached m n
  Continues m _ = Unit

  one-Step : (e : Event) (m n : Transceiver t.State) → Step t c e m n → Reached m n
  one-Step e m n s = (e ∷ [], steps e [] m n n s (rests n))

  prepend :
      (e : Event) (m n : Transceiver t.State)
      (x : Option (IoResult TaskState × Transceiver t.State))
      → Step t c e m n
      → Continues n x
      → Continues m x
  prepend e m n none s h = tt
  prepend e m n (some (done want_continue, o)) s h = (e ∷ h.0, steps e h.0 m n o s h.1)
  prepend e m n (some (done want_stop, o)) s h = tt
  prepend e m n (some (done Step.connection_closed, o)) s h = tt
  prepend e m n (some (failed x, o)) s h = tt
  prepend e m n (some (crashed, o)) s h = tt

  module _ (now : ℕ) where
    -- The writes.
    after_writing-Continues :
        (fuel : ℕ) (m : Transceiver t.State) (x : Option (IoResult Bool × Transceiver t.State))
        (y : Option (IoResult Bool × Outbox × t.State))
        → continue_writing_packet t fuel m.outbox (t.pre_write m.transport).1 ≡ y
        → Tracks t m x y
        → Continues m (elim x [ none ↦ none | some r ↦ some (after_writing t r) ])
    after_writing-Continues fuel m none y e h = tt
    after_writing-Continues fuel m (some (done false, n)) (some (q, o, s)) e h =
        subst (Reached m) (sym h.1) (
          one-Step wrote m (with_written o s n.last_tx m) (
            write_all m fuel n.last_tx o s
              (e ∙ ap (λ (r : IoResult Bool). some (r, o, s)) (sym h.0))))
    after_writing-Continues fuel m (some (done true, n)) y e h = tt
    after_writing-Continues fuel m (some (failed would_block, n)) (some (q, o, s)) e h =
        subst (Reached m) (sym h.1) (
          one-Step wrote m (with_written o s n.last_tx m) (
            write_blocked m fuel n.last_tx o s
              (e ∙ ap (λ (r : IoResult Bool). some (r, o, s)) (sym h.0))))
    after_writing-Continues fuel m (some (failed other_error, n)) y e h = tt
    after_writing-Continues fuel m (some (failed (decode_failed d), n)) y e h = tt
    after_writing-Continues fuel m (some (crashed, n)) y e h = tt
    after_writing-Continues fuel m (some (done false, n)) none e h = absurd h
    after_writing-Continues fuel m (some (failed would_block, n)) none e h = absurd h

    write_prepared-Continues :
        (m : Transceiver t.State) (r : IoResult (Unit {0}))
        → Continues m
            (write_prepared t now r (record m { transport = (t.pre_write m.transport).1 }))
    unfolding continue_writing
    write_prepared-Continues m (done u) =
        let n = record m { transport = (t.pre_write m.transport).1 } in
        let fuel = suc (length (pending m.outbox)) in
        after_writing-Continues fuel m (write_on t fuel now n)
          (continue_writing_packet t fuel n.outbox n.transport) refl (write_on-Tracks t fuel now n)
    write_prepared-Continues m (failed e) = tt
    write_prepared-Continues m crashed = tt

    -- The reads.
    after_packet-Continues :
        (fuel : ℕ) (m : Transceiver t.State) (rx : PacketReader) (s : t.State) (pkt : _)
        (q : IoResult Bool × Transceiver t.State)
        → recv t m.rx_pkt m.transport ≡ (done (incoming pkt), rx, s)
        → process_packet t c now pkt (with_read rx s m) ≡ q
        → ((n : Transceiver t.State) → Continues n (read_packets t c fuel now n))
        → Continues m (after_packet t c (read_packets t c fuel now) q)
    after_packet-Continues fuel m rx s pkt (done true, n) e p h = tt
    after_packet-Continues fuel m rx s pkt (done false, n) e p h =
        prepend (got pkt) m n (read_packets t c fuel now n) (read_packet now m n rx s pkt e p) (h n)
    after_packet-Continues fuel m rx s pkt (failed x, n) e p h = tt
    after_packet-Continues fuel m rx s pkt (crashed, n) e p h = tt

    after_recv-Continues :
        (fuel : ℕ) (m : Transceiver t.State) (r : IoResult PacketReadState) (rx : PacketReader)
        (s : t.State)
        → recv t m.rx_pkt m.transport ≡ (r, rx, s)
        → ((n : Transceiver t.State) → Continues n (read_packets t c fuel now n))
        → Continues m (after_recv t c (read_packets t c fuel now) now r (with_read rx s m))
    after_recv-Continues fuel m (done (incoming pkt)) rx s e h =
        after_packet-Continues fuel m rx s pkt (process_packet t c now pkt (with_read rx s m)) e
          refl h
    after_recv-Continues fuel m (done connection_closed) rx s e h = tt
    after_recv-Continues fuel m (done need_more_data) rx s e h =
        prepend got_some m (with_read rx s m) (read_packets t c fuel now (with_read rx s m))
          (read_part m rx s e) (h (with_read rx s m))
    after_recv-Continues fuel m (failed would_block) rx s e h =
        one-Step got_some m (with_read rx s m) (read_blocked m rx s e)
    after_recv-Continues fuel m (failed other_error) rx s e h = tt
    after_recv-Continues fuel m (failed (decode_failed d)) rx s e h = tt
    after_recv-Continues fuel m crashed rx s e h = tt

    read_packets-Continues :
        (fuel : ℕ) (m : Transceiver t.State) → Continues m (read_packets t c fuel now m)
    unfolding read_packets
    read_packets-Continues zero m = tt
    read_packets-Continues (suc fuel) m =
        let r = recv t m.rx_pkt m.transport in
        after_recv-Continues fuel m r.0 r.1 r.2 refl (read_packets-Continues fuel)

    read_prepared-Continues :
        (fuel : ℕ) (m : Transceiver t.State) (r : IoResult Bool)
        → Continues m
            (read_prepared t c fuel now r (with_read m.rx_pkt (t.pre_read m.transport).1 m))
    read_prepared-Continues fuel m (done true) =
        let n = with_read m.rx_pkt (t.pre_read m.transport).1 m in
        prepend prepared m n (read_packets t c fuel now n) (read_ready m)
          (read_packets-Continues fuel n)
    read_prepared-Continues fuel m (done false) =
        one-Step prepared m (with_read m.rx_pkt (t.pre_read m.transport).1 m) (read_ready m)
    read_prepared-Continues fuel m (failed e) = tt
    read_prepared-Continues fuel m crashed = tt

    -- The commands and the alarm.
    done-Step :
        (e : Event) (m : Transceiver t.State) (r : IoResult TaskState × Transceiver t.State)
        → ((n : Transceiver t.State) → r ≡ (done want_continue, n) → Step t c e m n)
        → Continues m (some r)
    done-Step e m (done want_continue, n) h = one-Step e m n (h n refl)
    done-Step e m (done want_stop, n) h = tt
    done-Step e m (done Step.connection_closed, n) h = tt
    done-Step e m (failed x, n) h = tt
    done-Step e m (crashed, n) h = tt

    on_command-Continues :
        (cmd : Option Command) (m : Transceiver t.State)
        → is_enabled t c (commanded cmd) m ≡ true
        → Continues m (some (on_command t now cmd m))
    unfolding is_enabled
    on_command-Continues cmd m h =
        let on = conditions m.cmd_queue_closed m.connecting m.outbox.tx_pkt h in
        done-Step (ordered cmd) m (on_command t now cmd m)
          (λ n e. obey now m n cmd on.0 on.1 on.2 e)

    -- A turn whose branch is on and after which the loop goes on is a run of the steps: the branch is one of
    -- those of the relation, or, where packets are read, its rounds are.
    pub task_step-Continues :
        (fuel : ℕ) (ready : Ready) (m : Transceiver t.State)
        → is_enabled t c ready m ≡ true
        → Continues m (task_step t c fuel now ready m)
    unfolding task_step
    task_step-Continues fuel (writable (done u)) m h =
        write_prepared-Continues m (t.pre_write m.transport).0
    task_step-Continues fuel (writable (failed e)) m h = tt
    task_step-Continues fuel (writable crashed) m h = tt
    task_step-Continues fuel (readable (done u)) m h =
        read_prepared-Continues fuel m (t.pre_read m.transport).0
    task_step-Continues fuel (readable (failed e)) m h = tt
    task_step-Continues fuel (readable crashed) m h = tt
    task_step-Continues fuel (commanded cmd) m h = on_command-Continues cmd m h
    task_step-Continues fuel alarm m h =
        done-Step ticked m (on_tick t now m) (λ n e. tick now m n e)
