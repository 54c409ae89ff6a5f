-- ===== src/Transceiver/Process/ExactlyOnce.antt =====
-- The second quality of service on the receiving side, src/transceiver/mod.rs: a message is dispatched once
-- until its PUBREL.
use lmc_rs.Prelude.{
  ℕ, ◌+◌, ◌≤◌, ◌≡◌, ◌≢◌, refl, Bool, false, Option, none, some, List, [], ◌∷◌, arith, if◌then◌else◌,
  ◌==◌,
}
use lmc_rs.Prelude.Maps.{nat_eq, lookup, lookup-insert, lookup-remove}
use lmc_rs.Errors.{Qos, exactly_once}
use lmc_rs.Transport.{Transport}
use lmc_rs.Packets.Control
use lmc_rs.Packets.Outgoing.Requests.{encode_simple_packet}
use lmc_rs.Packets.Incoming.{IncomingPublishPacket}
use lmc_rs.Subscription.Receivers.{Channels}
use lmc_rs.Shared.{Waker}
use lmc_rs.Transceiver.Ids
use lmc_rs.Transceiver.Ids.{IdType, id_beq, id_beq_lem, id_eq}
use lmc_rs.Transceiver.State.{Transceiver, Effect, connect_result, dispatched, woke, wake_all}
use lmc_rs.Transceiver.Sending.{
  is_some, remember, clear_packet_timeout, queue_internal_packet, notify_stage, deliver,
}
use lmc_rs.Transceiver.Process.{accept, first_packet, answer_pending}
use lmc_rs.Transceiver.Process.Rules.{Rules}

abbrev repeats : ℕ → Option Qos → ℕ → Bool
repeats id (some exactly_once) packet_id = packet_id == id
repeats id _ packet_id = false

-- Whether a message has the second quality of service and the identifier.
abbrev pub is_repeat : ℕ → IncomingPublishPacket → Bool
is_repeat id msg = repeats id (Control.qos msg.info.flags) msg.info.packet_id

-- The number of such messages that have been dispatched.
abbrev pub times : ℕ → List Effect → ℕ
times id [] = 0
times id (dispatched msg sent ∷ log) = (if is_repeat id msg then 1 else 0) + times id log
times id (connect_result r ∷ log) = times id log
times id (woke w ∷ log) = times id log

abbrev pub held : {S : Type 0} → ℕ → Transceiver S → Bool
held id m = is_some (lookup (Ids.pub_rec id) m.pending_packets)

-- How often such messages have been dispatched, if the next PUBLISH counts already.
abbrev pub budget : {S : Type 0} → ℕ → Transceiver S → ℕ
budget id m = (if held id m then 0 else 1) + times id m.log

abbrev pub Falls : {S : Type 0} → ℕ → Transceiver S → Transceiver S → Type 0
Falls id m n = budget id n ≤ budget id m

times-wake_all :
    (id : ℕ) (ws : List (Option Waker)) (log : List Effect)
    → times id (wake_all ws log) ≡ times id log
times-wake_all id [] log = refl
times-wake_all id (none ∷ ws) log = times-wake_all id ws log
times-wake_all id (some w ∷ ws) log = times-wake_all id ws (woke w ∷ log)

held-remember :
    {S : Type 0} (now : ℕ) (pkt : List ℕ) (id : ℕ) (j : IdType) (m : Transceiver S)
    → Falls id m (remember now pkt j m)
held-remember now pkt id j m =
    ground (arith, lookup-insert j (Ids.pub_rec id) pkt m.pending_packets)

held-clear :
    {S : Type 0} (id : ℕ) (j : IdType) (m : Transceiver S)
    → j ≢ Ids.pub_rec id
    → Falls id m (clear_packet_timeout j m).1
unfolding clear_packet_timeout
held-clear id j m h =
    ground
      (arith, lookup-remove j (Ids.pub_rec id) m.pending_packets, id_beq_lem j (Ids.pub_rec id))

add_same : (a : ℕ) {b c : ℕ} → b ≡ c → a + b ≤ a + c
add_same a e = omega arith

pub rules :
    (t : Transport) (c : Channels) (id : ℕ)
    → Rules t c (Falls id) (λ j. j ≢ Ids.pub_rec id) (λ msg. is_repeat id msg ≡ false)
unfolding queue_internal_packet notify_stage deliver accept first_packet
rules t c id = record {
  stays = λ m. omega arith;
  follows = λ m n o f g. omega arith;
  sends = λ bytes set_dup m. omega arith;
  remembers = λ now pkt j m. held-remember now pkt id j m;
  forgets = λ j m h. held-clear id j m h;
  notifies = λ stage k m. ground (arith, times-wake_all id);
  delivers = λ msg m h. ground (arith, h);
  answers = λ a results m. add_same (if held id m then 0 else 1) (
      times-wake_all id
        (answer_pending results (lookup a.packet_id m.pending_subs) m.subscriptions m.shared.subs).2
        m.log);
  connects = λ pkt m. omega arith;
}
