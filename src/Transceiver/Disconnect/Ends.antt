-- ===== src/Transceiver/Disconnect/Ends.antt =====
-- The end of `Transceiver::task` of src/transceiver/mod.rs, and the bytes that are transmitted by then.
use lmc_rs.Prelude.{
  ℕ, ◌≡◌, refl, sym, ap, ◌∙◌, Bool, true, false, Option, none, some, List, [], ◌∷◌, ◌++◌,
  append-nil, Bool-cases, inl, inr,
}
use lmc_rs.Errors.{IoResult, done, failed, crashed}
use lmc_rs.ByteIo.{finish_and_check}
use lmc_rs.Packets.Control.{from_type_and_flags}
use lmc_rs.Packets.Frame.{make_packet, encode_packet_size}
use lmc_rs.Transport.{Transport}
use lmc_rs.Transport.Contract.{Honours}
use lmc_rs.Transceiver.State.{Transceiver}
use lmc_rs.Transceiver.Sending.{is_some, make, queue_internal_packet}
use lmc_rs.Transceiver.Writing
use lmc_rs.Transceiver.Writing.{TxPacket, InternalPacket, Outbox}
use lmc_rs.Transceiver.Writing.Wire.{pending, Idle, queued}
use lmc_rs.Transceiver.Writing.Order.{queue_internal_packet-Settles}
use lmc_rs.Transceiver.Shutdown.{LoopEnd, connection_closed, stopped, io_error, end_task, shut_down}
use lmc_rs.Transceiver.Disconnect.{
  Wait, Limited, in_time, timed_out, panics, out_of_fuel, Outcome, nothing_wanted, after_branch,
  one_wait, flush_more, flush_loop, queue_disconnect, after_queue, send_disconnect_and_flush,
  after_disconnect, after_close, send_close_notify, disconnect_sequence, conclude, finish, Stand,
  running, panicked, ended, fine,
}
use lmc_rs.Transceiver.Disconnect.Sent.{
  Sends, Flushed, branch-Flushed, wait-After, nothing_wanted-idle,
}
use lmc_rs.Transceiver.Disconnect.Closes.{Kept, send_close_notify-Kept}

-- The bytes of DISCONNECT.
abbrev pub disconnect_bytes : List ℕ
disconnect_bytes = 0xE0 ∷ 0 ∷ []

module _ (t : Transport) (k : Honours t)
    (follows_hint : (s : t.State) → (t.wants s false true).write ≡ true) where
  open t use {accepted}

  nothing_left :
      (all : List ℕ) (s : t.State) (tx : Option TxPacket) (ps : List InternalPacket)
      → accepted s ++ pending (record { tx_pkt = tx; internal_pkt_queue = ps }) ≡ all
      → Idle (record { tx_pkt = tx; internal_pkt_queue = ps })
      → nothing_wanted (t.wants s false (is_some tx)) ≡ true
      → accepted s ≡ all
  nothing_left all s none ps whole idle e =
      sym (append-nil (accepted s))
      ∙ ap (λ (x : List InternalPacket). accepted s ++ queued x) (sym (idle refl))
      ∙ whole
  nothing_left all s (some tx) ps whole idle e =
      absurd (cc (follows_hint s, nothing_wanted-idle (t.wants s false true) e))

  round-Flushed :
      (all : List ℕ) (ws : List Wait) (m : Transceiver t.State) (b : Bool)
      (next : Limited Outcome × Transceiver t.State)
      → nothing_wanted (t.wants m.transport false (is_some m.outbox.tx_pkt)) ≡ b
      → Sends t k all m
      → Flushed t k all next
      → Flushed t k all
          (elim b [ true ↦ (in_time none ws, record m { disconnect_sent = true }) | false ↦ next ])
  round-Flushed all ws m true next e h after =
      λ _. nothing_left all m.transport m.outbox.tx_pkt m.outbox.internal_pkt_queue h.0 h.1 e
  round-Flushed all ws m false next e h after = after

  flush_loop-Flushed :
      (all : List ℕ) (ws : List Wait) (m : Transceiver t.State)
      → Sends t k all m
      → Flushed t k all (flush_loop t ws m)
  unfolding flush_loop
  flush_loop-Flushed all [] m h =
      elim (Bool-cases (nothing_wanted (t.wants m.transport false (is_some m.outbox.tx_pkt)))) [
        | inl e ↦ rw e (λ _.
            nothing_left all m.transport m.outbox.tx_pkt m.outbox.internal_pkt_queue h.0 h.1 e)
        | inr e ↦ rw e h.2
      ]
  flush_loop-Flushed all (w ∷ ws) m h =
      let wants = t.wants m.transport false (is_some m.outbox.tx_pkt) in
      let b = one_wait t wants (flush_more t) w m in
      round-Flushed all (w ∷ ws) m (nothing_wanted wants) (after_branch t (flush_loop t ws) ws b)
        refl h
        (branch-Flushed t k all ws b.0 b.1 (wait-After t k all w.now wants w.socket m h)
          (flush_loop-Flushed all ws))

  after_queue-Flushed :
      (all : List ℕ) (ws : List Wait) (r : IoResult (Unit {0})) (n : Transceiver t.State)
      → n.disconnect_sent ≡ false
      → (r ≡ done tt → Sends t k all n)
      → Flushed t k all (after_queue t ws (r, n))
  after_queue-Flushed all ws (done tt) n f h = flush_loop-Flushed all ws n (h refl)
  after_queue-Flushed all ws (failed e) n f h = λ x. absurd (cc (f, x))
  after_queue-Flushed all ws crashed n f h = tt

  queue_disconnect-Flushed :
      (ws : List Wait) (m : Transceiver t.State)
      → Idle m.outbox
      → m.disconnect_sent ≡ false
      → Flushed t k
          (accepted m.transport ++ (pending m.outbox ++ disconnect_bytes))
          (after_queue t ws (queue_disconnect t m))
  unfolding make make_packet queue_internal_packet encode_packet_size finish_and_check
      from_type_and_flags
  queue_disconnect-Flushed ws m idle f =
      let r = Writing.queue_internal_packet t disconnect_bytes false m.outbox m.transport in
      let settled =
        queue_internal_packet-Settles t disconnect_bytes false m.outbox m.transport idle in
      after_queue-Flushed (accepted m.transport ++ (pending m.outbox ++ disconnect_bytes)) ws r.0
        (record m { outbox = r.1; transport = r.2 }) f (λ e. ((settled e).0, (settled e).1, f))

  connected-Flushed :
      (all : List ℕ) (ws : List Wait) (m : Transceiver t.State) (connecting : Bool)
      (next : Limited Outcome × Transceiver t.State)
      → m.disconnect_sent ≡ false
      → Flushed t k all next
      → Flushed t k all (elim connecting [ true ↦ (in_time none ws, m) | false ↦ next ])
  connected-Flushed all ws m true next f h = λ e. absurd (cc (f, e))
  connected-Flushed all ws m false next f h = h

  send_disconnect-Flushed :
      (ws : List Wait) (m : Transceiver t.State)
      → Idle m.outbox
      → m.disconnect_sent ≡ false
      → Flushed t k
          (accepted m.transport ++ (pending m.outbox ++ disconnect_bytes))
          (send_disconnect_and_flush t ws m)
  unfolding send_disconnect_and_flush
  send_disconnect-Flushed ws m idle f =
      connected-Flushed (accepted m.transport ++ (pending m.outbox ++ disconnect_bytes)) ws m
        m.connecting (after_queue t ws (queue_disconnect t m)) f
        (queue_disconnect-Flushed ws m idle f)

  -- The same of the sequence.
  abbrev Sequenced : List ℕ → Limited Bool × Transceiver t.State → Type 0
  Sequenced all (in_time clean ws, n) = n.disconnect_sent ≡ true → accepted n.transport ≡ all
  Sequenced all (timed_out, n) = n.disconnect_sent ≡ true → accepted n.transport ≡ all
  Sequenced all (panics, n) = Unit
  Sequenced all (out_of_fuel, n) = ⊥

  after_close-Sequenced :
      (all : List ℕ) (clean : Bool) (m : Transceiver t.State) (x : Limited Outcome)
      (n : Transceiver t.State)
      → (m.disconnect_sent ≡ true → accepted m.transport ≡ all)
      → Kept t k m (x, n)
      → Sequenced all (after_close t clean (x, n))
  after_close-Sequenced all clean m (in_time r ws) n h same = λ e. same.0 ∙ h (sym same.1 ∙ e)
  after_close-Sequenced all clean m timed_out n h same = λ e. same.0 ∙ h (sym same.1 ∙ e)
  after_close-Sequenced all clean m panics n h same = tt
  after_close-Sequenced all clean m out_of_fuel n h same = same

  after_disconnect-Sequenced :
      (all : List ℕ) (x : Limited Outcome) (n : Transceiver t.State)
      → Flushed t k all (x, n)
      → Sequenced all (after_disconnect t (x, n))
  after_disconnect-Sequenced all (in_time r ws) n h =
      let q = send_close_notify t ws n in
      after_close-Sequenced all (fine t r) n q.0 q.1 h (send_close_notify-Kept t k ws n)
  after_disconnect-Sequenced all timed_out n h = λ e. absurd (cc (h, e))
  after_disconnect-Sequenced all panics n h = tt
  after_disconnect-Sequenced all out_of_fuel n h = h

  -- How the task ends.
  abbrev pub Concludes : List ℕ → Option (Stand t × Transceiver t.State) → Type 0
  Concludes all none = ⊥
  Concludes all (some (running, n)) = ⊥
  Concludes all (some (panicked, n)) = Unit
  Concludes all (some (ended status, n)) =
      status.disconnect_sent ≡ true → accepted n.transport ≡ all

  shut_down-Concludes :
      (all : List ℕ) (e : LoopEnd) (r : Limited Bool) (n : Transceiver t.State)
      → ((ret : Option Bool) → end_task e ret n ≡ shut_down ret n)
      → Sequenced all (r, n)
      → Concludes all (conclude t e (r, n))
  unfolding shut_down conclude
  shut_down-Concludes all e (in_time clean ws) n same h = rw (same (some clean)) h
  shut_down-Concludes all e timed_out n same h = rw (same none) h
  shut_down-Concludes all e panics n same h = tt
  shut_down-Concludes all e out_of_fuel n same h = h

  -- Over a transport that keeps `Honours` of Transport.Contract and waits to write when it is told that there
  -- is something to write, the task ends once its loop has, whatever the socket answers and wherever the time
  -- limit cuts in, or it panics. If it reports that DISCONNECT has been sent, the transport has taken, in order,
  -- the bytes that were pending and then those of DISCONNECT, and no others. This holds from a state in
  -- which no packet waits while none is being transmitted and DISCONNECT has not been sent.
  pub finish-Concludes :
      (e : LoopEnd) (ws : List Wait) (m : Transceiver t.State)
      → Idle m.outbox
      → m.disconnect_sent ≡ false
      → Concludes (accepted m.transport ++ (pending m.outbox ++ disconnect_bytes)) (finish t e ws m)
  unfolding finish disconnect_sequence end_task
  finish-Concludes connection_closed ws m idle f = λ x. absurd cc
  finish-Concludes stopped ws m idle f =
      let all = accepted m.transport ++ (pending m.outbox ++ disconnect_bytes) in
      let r = send_disconnect_and_flush t ws m in
      let q = disconnect_sequence t ws m in
      shut_down-Concludes all stopped q.0 q.1 (λ ret. refl)
        (after_disconnect-Sequenced all r.0 r.1 (send_disconnect-Flushed ws m idle f))
  finish-Concludes (io_error e) ws m idle f =
      let all = accepted m.transport ++ (pending m.outbox ++ disconnect_bytes) in
      let r = send_disconnect_and_flush t ws m in
      let q = disconnect_sequence t ws m in
      shut_down-Concludes all (io_error e) q.0 q.1 (λ ret. refl)
        (after_disconnect-Sequenced all r.0 r.1 (send_disconnect-Flushed ws m idle f))
