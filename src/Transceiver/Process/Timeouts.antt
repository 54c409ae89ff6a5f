-- ===== src/Transceiver/Process/Timeouts.antt =====
-- Every packet of `pending_packets` has an entry in `timeout_queue`, so that it is sent again.
use lmc_rs.Prelude.{
  ℕ, ◌≡◌, ◌≢◌, refl, Bool, true, false, ◌||◌, none, Option-cases, List, [], ◌∷◌, ◌++◌, arith, ◌==◌,
}
use lmc_rs.Prelude.Maps.{lookup, lookup-insert, lookup-remove}
use lmc_rs.Packets.Control.{PacketType, type_code}
use lmc_rs.Transport.{Transport}
use lmc_rs.Subscription.Receivers.{Channels}
use lmc_rs.Transceiver.Ids.{IdType, id_beq, id_beq_lem, id_eq}
use lmc_rs.Transceiver.State.{Transceiver, Timeout}
use lmc_rs.Transceiver.Sending.{
  remember, clear_packet_timeout, queue_internal_packet, notify_stage, deliver,
}
use lmc_rs.Transceiver.Process.{accept, first_packet}
use lmc_rs.Transceiver.Process.Rules.{Rules}

abbrev pub awaited : IdType → List Timeout → Bool
awaited id [] = false
awaited id (t ∷ ts) = id_beq t.packet_id id || awaited id ts

-- SUBSCRIBE packets have a map of their own.
abbrev pub is_subscribe : IdType → Bool
is_subscribe id = type_code id.ty == type_code PacketType.subscribe

abbrev pub Covered : {S : Type 0} → Transceiver S → Type 0
Covered m =
    (id : IdType)
    → is_subscribe id ≡ false
    → lookup id m.pending_packets ≢ none
    → awaited id m.timeout_queue ≡ true

abbrev pub KeepsCover : {S : Type 0} → Transceiver S → Transceiver S → Type 0
KeepsCover m n = Covered m → Covered n

pub awaited-append :
    (id : IdType) (ts us : List Timeout) → awaited id (ts ++ us) ≡ (awaited id ts || awaited id us)
awaited-append id [] us = refl
awaited-append id (t ∷ ts) us = ground (arith, awaited-append id ts us)

pub remember-Covered :
    {S : Type 0} (now : ℕ) (pkt : List ℕ) (id : IdType) (m : Transceiver S)
    → KeepsCover m (remember now pkt id m)
remember-Covered now pkt id m h j k e = ground (
  arith,
  id_beq_lem id j,
  h j k,
  lookup-insert id j pkt m.pending_packets,
  awaited-append j m.timeout_queue (record { at = now; packet_id = id } ∷ []),
  Option-cases (lookup id m.pending_packets),
)

clear-Covered :
    {S : Type 0} (id : IdType) (m : Transceiver S) → KeepsCover m (clear_packet_timeout id m).1
unfolding clear_packet_timeout
clear-Covered id m h j k e = ground (arith, h j k, lookup-remove id j m.pending_packets)

pub rules : (t : Transport) (c : Channels) → Rules t c KeepsCover (λ _. Unit) (λ _. Unit)
unfolding queue_internal_packet notify_stage deliver accept first_packet
rules t c = record {
  stays = λ m h. h;
  follows = λ m n o f g h. g (f h);
  sends = λ bytes set_dup m h. h;
  remembers = remember-Covered;
  forgets = λ id m _. clear-Covered id m;
  notifies = λ stage id m h. h;
  delivers = λ msg m _ h. h;
  answers = λ a results m h. h;
  connects = λ pkt m h. h;
}
