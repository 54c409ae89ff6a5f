-- ===== src/Transceiver/Process/Acks.antt =====
-- The acknowledgements that `process_packet` of src/transceiver/mod.rs reads, and the futures of
-- src/futures.rs that wait for them.
use lmc_rs.Prelude.{
  ℕ, ◌≡◌, ◌≢◌, refl, sym, ap, subst, Bool, true, false, Option, none, some, ◌==◌, arith,
}
use lmc_rs.Prelude.Maps.{lookup, lookup-remove, nat_eq}
use lmc_rs.Errors.{IoResult, done, failed, crashed}
use lmc_rs.Transport.{Transport}
use lmc_rs.Packets.Outgoing.Requests.{pub_comp, pub_ack, encode_simple_packet}
use lmc_rs.Packets.Incoming.{completed, IncomingPacket, acked}
use lmc_rs.Subscription.Receivers.{Channels}
use lmc_rs.Shared.{ClientShared, NotifierMap, with_waker, Waker}
use lmc_rs.Futures.{ready}
use lmc_rs.Futures.Publish
use lmc_rs.Futures.Publish.{
  PublishFuture, Stage, ack, rec, comp, access_notifier_map, set_notifier_map,
}
use lmc_rs.Transceiver.Ids
use lmc_rs.Transceiver.Ids.{IdType, id_beq, id_beq_lem, id_eq}
use lmc_rs.Transceiver.Notify.{notify}
use lmc_rs.Transceiver.Step.{resend, stored}
use lmc_rs.Packets.Control.{PacketType, type_code}
use lmc_rs.Transceiver.State.{Transceiver, Timeout, continue, ◌>>=◌, ◌>>◌, pure}
use lmc_rs.Transceiver.Sending.{is_some, clear_packet_timeout, notify_stage}
use lmc_rs.Transceiver.Process.{
  on_pub_comp, process_packet, handle, when, when_connecting, on_pub_ack, first_packet, new_simple,
}
use lmc_rs.Transceiver.Shutdown.Futures.{was_woken}

access-set :
    (stage : Stage) (map : NotifierMap) (s : ClientShared)
    → access_notifier_map stage (set_notifier_map stage map s) ≡ map
access-set ack map s = refl
access-set rec map s = refl
access-set comp map s = refl

pub is_some_of : {A : Type 0} (o : Option A) → o ≢ none → is_some o ≡ true
is_some_of none h = absurd (h refl)
is_some_of (some a) h = refl

module _ {S : Type 0} where
  -- What an acknowledgement does at a stage: the packet that it acknowledges is no longer stored, the waiting
  -- future is woken and ready.
  abbrev pub Settled : Stage → IdType → PublishFuture → Waker → Waker → Transceiver S → Type 0
  Settled stage id f w v n =
      (lookup id n.pending_packets ≡ none)
      × (was_woken w n.log ≡ true)
      × ((Publish.poll v f (access_notifier_map stage n.shared)).0 ≡ ready false)

  notified-Settled :
      (b : Bool) (stage : Stage) (id : IdType) (f : PublishFuture) (w v : Waker) (m : Transceiver S)
      → b ≡ true
      → f.result ≡ none
      → lookup f.packet_id (access_notifier_map stage m.shared) ≡ some (with_waker w)
      → lookup id m.pending_packets ≡ none
      → let r = when b (notify_stage stage f.packet_id) m in
        (r.0 ≡ done tt) × (r.1.outbox ≡ m.outbox) × Settled stage id f w v r.1
  unfolding notify_stage notify Publish.poll
  notified-Settled false stage id f w v m b h e g = absurd cc
  notified-Settled true stage id f w v m b h e g = ground (
    arith,
    h,
    e,
    g,
    access-set stage (notify f.packet_id (access_notifier_map stage m.shared)).1 m.shared,
    lookup-remove f.packet_id f.packet_id (access_notifier_map stage m.shared),
  )

  pub settle-Settled :
      (stage : Stage) (id : IdType) (f : PublishFuture) (w v : Waker) (m : Transceiver S)
      → lookup id m.pending_packets ≢ none
      → f.result ≡ none
      → lookup f.packet_id (access_notifier_map stage m.shared) ≡ some (with_waker w)
      → let r =
          (clear_packet_timeout id >>= λ cleared. when cleared (notify_stage stage f.packet_id))
            m in
        (r.0 ≡ done tt) × (r.1.outbox ≡ m.outbox) × Settled stage id f w v r.1
  unfolding clear_packet_timeout
  settle-Settled stage id f w v m p h e =
      notified-Settled (is_some (lookup id m.pending_packets)) stage id f w v
        (clear_packet_timeout id m).1 (is_some_of (lookup id m.pending_packets) p) h e
        (ground (arith, lookup-remove id id m.pending_packets, id_beq_lem id id))

module _ (t : Transport) where
  -- The timeout of the packet, when it is overdue, sends nothing and changes nothing.
  abbrev pub NotResent : IdType → Transceiver t.State → Type 0
  NotResent id n =
      (at : ℕ) (to : Timeout)
      → to.packet_id ≡ id
      → resend t at to (stored t at to.packet_id n) n ≡ (done tt, n)

  pub not_stored-NotResent :
      (id : IdType) (n : Transceiver t.State)
      → (type_code id.ty == type_code PacketType.subscribe) ≡ false
      → lookup id n.pending_packets ≡ none
      → NotResent id n
  not_stored-NotResent id n plain h = λ at to e. rw (e, plain, h) refl

module _ (t : Transport) (c : Channels) (now : ℕ) where
  pub process_packet-connected :
      (pkt : IncomingPacket) (m : Transceiver t.State)
      → m.connecting ≡ false
      → process_packet t c now pkt m ≡ (handle t c now pkt >> pure false) m
  unfolding process_packet
  process_packet-connected pkt m h =
      ap (λ b. when_connecting b (first_packet pkt) (handle t c now pkt >> pure false) m) h

  continue-done :
      (P : IoResult Bool × Transceiver t.State → Type 0) (r : IoResult (Unit {0}))
      (n : Transceiver t.State)
      → r ≡ done tt
      → P (done false, n)
      → P (continue r (λ _. pure false) n)
  continue-done P (done tt) n e h = h
  continue-done P (failed x) n e h = absurd cc
  continue-done P crashed n e h = absurd cc

  acknowledge-Settled :
      (pkt : IncomingPacket) (stage : Stage) (id : IdType) (f : PublishFuture) (w v : Waker)
      (m : Transceiver t.State)
      → handle t c now pkt m
        ≡ (clear_packet_timeout id >>= λ cleared. when cleared (notify_stage stage f.packet_id)) m
      → m.connecting ≡ false
      → lookup id m.pending_packets ≢ none
      → f.result ≡ none
      → lookup f.packet_id (access_notifier_map stage m.shared) ≡ some (with_waker w)
      → (type_code id.ty == type_code PacketType.subscribe) ≡ false
      → let r = process_packet t c now pkt m in
        (r.0 ≡ done false)
        × (r.1.outbox ≡ m.outbox)
        × Settled stage id f w v r.1
        × NotResent t id r.1
  acknowledge-Settled pkt stage id f w v m same h p e k plain =
      let P = λ (r : IoResult Bool × Transceiver t.State).
        (r.0 ≡ done false)
        × (r.1.outbox ≡ m.outbox)
        × Settled stage id f w v r.1
        × NotResent t id r.1 in
      let Q = λ (r : IoResult (Unit {0}) × Transceiver t.State).
        (r.0 ≡ done tt) × (r.1.outbox ≡ m.outbox) × Settled stage id f w v r.1 in
      let s = subst Q (sym same) (settle-Settled stage id f w v m p e k) in
      subst P (sym (process_packet-connected pkt m h)) (
        continue-done P (handle t c now pkt m).0 (handle t c now pkt m).1 s.0
          (refl, s.1, s.2, not_stored-NotResent t id (handle t c now pkt m).1 plain s.2.0))

  -- A PUBACK for a message that is still stored succeeds: the message is no longer stored and its timeout does
  -- not send it again, while what is queued for the transport stays as it is; the future that awaits the
  -- acknowledgement is woken, and its next poll reports success.
  pub process_packet-acked :
      (m : Transceiver t.State) (f : PublishFuture) (w v : Waker)
      → m.connecting ≡ false
      → lookup (Ids.publish f.packet_id) m.pending_packets ≢ none
      → f.result ≡ none
      → lookup f.packet_id m.shared.notify_ack ≡ some (with_waker w)
      → let r = process_packet t c now (acked (new_simple pub_ack f.packet_id)) m in
        (r.0 ≡ done false)
        × (r.1.outbox ≡ m.outbox)
        × Settled ack (Ids.publish f.packet_id) f w v r.1
        × NotResent t (Ids.publish f.packet_id) r.1
  unfolding handle on_pub_ack
  process_packet-acked m f w v h p e k =
      acknowledge-Settled (acked (new_simple pub_ack f.packet_id)) ack (Ids.publish f.packet_id) f w
        v m refl h p e k refl

  -- A PUBCOMP for a PUBREL that is still stored succeeds: the PUBREL is no longer stored and its timeout does
  -- not send it again, while what is queued for the transport stays as it is, a copy of the PUBREL among it
  -- included; the future that awaits the completion is woken, and its next poll reports success.
  pub process_packet-completed :
      (m : Transceiver t.State) (f : PublishFuture) (w v : Waker)
      → m.connecting ≡ false
      → lookup (Ids.pub_rel f.packet_id) m.pending_packets ≢ none
      → f.result ≡ none
      → lookup f.packet_id m.shared.notify_comp ≡ some (with_waker w)
      → let r = process_packet t c now (completed (new_simple pub_comp f.packet_id)) m in
        (r.0 ≡ done false)
        × (r.1.outbox ≡ m.outbox)
        × Settled comp (Ids.pub_rel f.packet_id) f w v r.1
        × NotResent t (Ids.pub_rel f.packet_id) r.1
  unfolding handle on_pub_comp
  process_packet-completed m f w v h p e k =
      acknowledge-Settled (completed (new_simple pub_comp f.packet_id)) comp
        (Ids.pub_rel f.packet_id) f w v m refl h p e k refl
