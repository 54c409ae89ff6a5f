-- ===== src/Transceiver/Process/Rules.antt =====
-- What every handler keeps: a relation between the states before and after that the parts of the handlers
-- respect is respected by `process_packet`, whatever its result is.
use lmc_rs.Prelude.{ℕ, Bool, true, false, Option, none, some, List}
use lmc_rs.Errors.{IoResult, done, failed, crashed}
use lmc_rs.Transport.{Transport}
use lmc_rs.Packets.Frame.{Encode, make_packet}
use lmc_rs.Packets.Incoming.{IncomingPacket, IncomingPublishPacket}
use lmc_rs.Packets.Incoming.SubAck.{SubAckPacket, SubscriptionResult}
use lmc_rs.Subscription.Receivers.{Channels}
use lmc_rs.Futures.Publish.{Stage}
use lmc_rs.Transceiver.Ids.{IdType}
use lmc_rs.Transceiver.State.{Transceiver, Action, continue, ◌>>=◌, or_panic}
use lmc_rs.Transceiver.Sending.{
  make, remember, queue_internal_packet, queue_internal_packet_with_timeout, clear_packet_timeout,
  notify_stage, deliver,
}
use lmc_rs.Transceiver.Process.{first_packet, on_sub_ack, accept, asked_results, resend_or, when}
use lmc_rs.Prelude.Maps.{lookup, nat_eq}

abbrev pub Relation : Type 0 → Type 1
Relation S = Transceiver S → Transceiver S → Type 0

-- `Forgets` and `Delivers` say which entries may be removed and which messages may be dispatched.
pub record Rules (t : Transport) (c : Channels) (R : Relation t.State) (Forgets : IdType → Type 0)
    (Delivers : IncomingPublishPacket → Type 0) : Type 0 where
  pub stays : (m : Transceiver t.State) → R m m
  pub follows : (m n o : Transceiver t.State) → R m n → R n o → R m o
  pub sends :
      (bytes : List ℕ) (set_dup : Bool) (m : Transceiver t.State)
      → R m (queue_internal_packet t bytes set_dup m).1
  pub remembers :
      (now : ℕ) (pkt : List ℕ) (id : IdType) (m : Transceiver t.State) → R m (remember now pkt id m)
  pub forgets :
      (id : IdType) (m : Transceiver t.State) → Forgets id → R m (clear_packet_timeout id m).1
  pub notifies :
      (stage : Stage) (id : ℕ) (m : Transceiver t.State) → R m (notify_stage stage id m).1
  pub delivers :
      (msg : IncomingPublishPacket) (m : Transceiver t.State)
      → Delivers msg
      → R m (deliver c msg m).1
  pub answers :
      (a : SubAckPacket) (results : List SubscriptionResult) (m : Transceiver t.State)
      → R m (accept a results m).1
  pub connects : (pkt : IncomingPacket) (m : Transceiver t.State) → R m (first_packet pkt m).1

abbrev pub Respects : {S A : Type 0} → Relation S → Action S A → Type 0
Respects {S} R act = (m : Transceiver S) → R m (act m).1

module _ {t : Transport} {c : Channels} {R : Relation t.State} {Forgets : IdType → Type 0}
    {Delivers : IncomingPublishPacket → Type 0} (rules : Rules t c R Forgets Delivers) where
  continue-Respects :
      {A B : Type 0} (r : IoResult A) (f : A → Action t.State B) (m : Transceiver t.State)
      → ((a : A) → Respects R (f a))
      → R m (continue r f m).1
  continue-Respects (done a) f m h = h a m
  continue-Respects (failed e) f m h = rules.stays m
  continue-Respects crashed f m h = rules.stays m

  pub bind-Respects :
      {A B : Type 0} (act : Action t.State A) (f : A → Action t.State B)
      → Respects R act
      → ((a : A) → Respects R (f a))
      → Respects R (act >>= f)
  bind-Respects act f h g m =
      rules.follows m (act m).1 ((act >>= f) m).1 (h m) (continue-Respects (act m).0 f (act m).1 g)

  or_panic-Respects : {A : Type 0} (o : Option A) → Respects R (or_panic o)
  or_panic-Respects none m = rules.stays m
  or_panic-Respects (some a) m = rules.stays m

  pub on_sub_ack-Respects : (a : SubAckPacket) → Respects R (on_sub_ack a)
  unfolding on_sub_ack
  on_sub_ack-Respects a m =
      bind-Respects (or_panic (asked_results a (lookup a.packet_id m.pending_subs))) (accept a)
        (or_panic-Respects (asked_results a (lookup a.packet_id m.pending_subs))) (rules.answers a)
        m

  pub make-Respects : {P : Type 0} ⦃e : Encode P⦄ (p : P) → Respects R (make p)
  unfolding make
  make-Respects p = or_panic-Respects (make_packet p)

  pub with_timeout-Respects :
      (now : ℕ) (pkt : List ℕ) (id : IdType)
      → Respects R (queue_internal_packet_with_timeout t now pkt id)
  unfolding queue_internal_packet_with_timeout
  with_timeout-Respects now pkt id m =
      rules.follows m (remember now pkt id m)
        (queue_internal_packet t pkt false (remember now pkt id m)).1 (rules.remembers now pkt id m)
        (rules.sends pkt false (remember now pkt id m))

  pub when-Respects :
      (b : Bool) (act : Action t.State (Unit {0})) → Respects R act → Respects R (when b act)
  when-Respects true act h = h
  when-Respects false act h = rules.stays

  pub resend_or-Respects :
      (now : ℕ) (known : Option (List ℕ)) (first : Action t.State (Unit {0}))
      → Respects R first
      → Respects R (resend_or t c now known first)
  resend_or-Respects now none first h = h
  resend_or-Respects now (some pkt) first h = rules.sends pkt false

  pub clear_and-Respects :
      (id : IdType) (f : Bool → Action t.State (Unit {0}))
      → Forgets id
      → ((b : Bool) → Respects R (f b))
      → Respects R (clear_packet_timeout id >>= f)
  clear_and-Respects id f g h =
      bind-Respects (clear_packet_timeout id) f (λ m. rules.forgets id m g) h

  pub notify-Respects :
      (stage : Stage) (id : ℕ) (b : Bool) → Respects R (when b (notify_stage stage id))
  notify-Respects stage id b = when-Respects b (notify_stage stage id) (rules.notifies stage id)

  pub make_and-Respects :
      {B P : Type 0} ⦃e : Encode P⦄ (p : P) (f : List ℕ → Action t.State B)
      → ((pkt : List ℕ) → Respects R (f pkt))
      → Respects R (make p >>= f)
  make_and-Respects p f h = bind-Respects (make p) f (make-Respects p) h
