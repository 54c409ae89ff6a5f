-- ===== src/Transceiver/Task/Orderly.antt =====
-- The outbox over the turns of `Transceiver::task_step` of src/transceiver/mod.rs.
use lmc_rs.Prelude.{
  ℕ, ◌≡◌, Bool, false, Option, none, some, List, length, leb, Bool-cases, inl, inr,
}
use lmc_rs.Errors.{IoResult, done, failed, crashed}
use lmc_rs.Transport.{Transport}
use lmc_rs.Subscription.Receivers.{Channels}
use lmc_rs.Transceiver.Sending.{
  queue_internal_packet, notify_stage, deliver, clear_packet_timeout, try_send_packet,
}
use lmc_rs.Transceiver.State.{Transceiver}
use lmc_rs.Transceiver.Writing
use lmc_rs.Transceiver.Writing.{TxPacket, InternalPacket, Outbox, after_write, write_packet}
use lmc_rs.Transceiver.Writing.Wire.{Idle}
use lmc_rs.Transceiver.Process.{accept, first_packet}
use lmc_rs.Transceiver.Process.Rules.{Relation, Rules}
use lmc_rs.Transceiver.Step.Rules.{RestRules}

-- No packet waits while none is being transmitted, and DISCONNECT has not been sent.
abbrev pub Orderly : {S : Type 0} → Transceiver S → Type 0
Orderly m = Idle m.outbox × (m.disconnect_sent ≡ false)

abbrev pub Keeps : {S : Type 0} → Relation S
Keeps m n = Orderly m → Orderly n

module _ (t : Transport) where
  after_write-Idle :
      (bytes : List ℕ) (set_dup : Bool) (o : Outbox) (r : IoResult ℕ × t.State)
      → Idle o
      → Idle (after_write t bytes set_dup o r).1
  after_write-Idle bytes set_dup o (done written, s) h =
      elim (Bool-cases (leb (length bytes) written)) [
        | inl e ↦ rw e h
        | inr e ↦ rw e (λ x. absurd cc)
      ]
  after_write-Idle bytes set_dup o (failed e, s) h = h
  after_write-Idle bytes set_dup o (crashed, s) h = h

  pub tries-Orderly :
      (bytes : List ℕ) (set_dup : Bool) (m : Transceiver t.State)
      → Keeps m (try_send_packet t bytes set_dup m).1
  unfolding try_send_packet Writing.try_send_packet
  tries-Orderly bytes set_dup m h =
      (after_write-Idle bytes set_dup m.outbox (write_packet t bytes set_dup m.transport) h.0, h.1)

  queue-Idle :
      (bytes : List ℕ) (set_dup : Bool) (tx : Option TxPacket) (ps : List InternalPacket)
      (s : t.State)
      → Idle (record { tx_pkt = tx; internal_pkt_queue = ps })
      → Idle
          (Writing.queue_internal_packet t bytes set_dup
            (record { tx_pkt = tx; internal_pkt_queue = ps })
            s).1
  unfolding Writing.queue_internal_packet Writing.try_send_packet
  queue-Idle bytes set_dup none ps s h =
      after_write-Idle bytes set_dup (record { tx_pkt = none; internal_pkt_queue = ps })
        (write_packet t bytes set_dup s) h
  queue-Idle bytes set_dup (some tx) ps s h = λ x. absurd cc

  sends-Orderly :
      (bytes : List ℕ) (set_dup : Bool) (m : Transceiver t.State)
      → Keeps m (queue_internal_packet t bytes set_dup m).1
  unfolding queue_internal_packet
  sends-Orderly bytes set_dup m h =
      (queue-Idle bytes set_dup m.outbox.tx_pkt m.outbox.internal_pkt_queue m.transport h.0, h.1)

  pub rules : (c : Channels) → Rules t c Keeps (λ _. Unit) (λ _. Unit)
  unfolding notify_stage deliver accept first_packet clear_packet_timeout
  rules c = record {
    stays = λ m h. h;
    follows = λ m n o f g h. g (f h);
    sends = sends-Orderly;
    remembers = λ now pkt id m h. h;
    forgets = λ id m _ h. h;
    notifies = λ stage id m h. h;
    delivers = λ msg m _ h. h;
    answers = λ a results m h. h;
    connects = λ pkt m h. h;
  }

  pub rest : RestRules t Keeps
  rest = record {
    tries = tries-Orderly;
    grows = λ to m h. h;
    ignores = λ rx subs shared n closed last_tx m h. h;
  }
