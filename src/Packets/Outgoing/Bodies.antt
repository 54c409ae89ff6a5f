-- ===== src/Packets/Outgoing/Bodies.antt =====
-- The bytes that each `encode` writes, in order, and their number, which is `compute_size`.
use lmc_rs.Prelude.{
  ℕ, ◌<◌, ◌≡◌, refl, ap, Bool, true, false, Option, none, some, List, [], ◌∷◌, ◌++◌, arith, length,
  length-append, All, if◌then◌else◌, ◌>>=◌, bind_assoc,
}
use lmc_rs.Errors.{Qos, at_least_once, qos_code, qos_ge}
use lmc_rs.ByteIo.{u16_trivial, from_native, u16_to_memory, ByteWriter, write_u16}
use lmc_rs.ByteIo.Reading.{prefixed}
use lmc_rs.ByteIo.Writing.{
  Writes, Writes-trivial, Writes-u8, Writes-u16, Writes-bytes, Writes-bytes_no_len, Writes-nothing,
  Writes-then,
}
use lmc_rs.Packets.Control
use lmc_rs.Packets.Control.{PublishFlags, into_inner}
use lmc_rs.Packets.Frame.{Encode}
use lmc_rs.Packets.Frame.Make.{Encodes}
use lmc_rs.Packets.Outgoing.{array_size, optional_size, write_optional}
use lmc_rs.Packets.Outgoing.Connect.{
  ConnectPacket, LastWill, header_to_memory, connect_header, will_size, write_will, connect_size,
  encode_connect, header_trivial, encode_connect_packet,
}
use lmc_rs.Packets.Outgoing.Publish.{
  OutgoingPublishPacket, publish_size, encode_publish, encode_publish_packet,
}
use lmc_rs.Packets.Outgoing.Requests.{
  encode_simple_packet, encode_empty_packet, encode_subscribe_packet, encode_unsubscribe_packet,
  EmptyPacket, SimplePacket, simple_flags, encode_simple, SubscribePacket, subscriptions_size,
  write_subscriptions, encode_subscribe, UnsubscribePacket, topics_size, write_topics,
  encode_unsubscribe, Simple, Empty,
}

-- A length that fits the two bytes in front of an array.
abbrev pub IsShort : List ℕ → Type 0
IsShort bytes = length bytes < 65536

abbrev pub IfSome {ℓ} : {A : Type 0} → (A → Type ℓ) → Option A → Type ℓ
IfSome P none = Unit
IfSome P (some a) = P a

abbrev pub optional_body : Option (List ℕ) → List ℕ
optional_body none = []
optional_body (some x) = prefixed x

Writes-optional :
    (o : Option (List ℕ)) → IfSome IsShort o → Writes (write_optional o) (optional_body o)
Writes-optional none h = Writes-nothing
Writes-optional (some x) h = Writes-bytes x h

size-optional : (o : Option (List ℕ)) → optional_size o ≡ length (optional_body o)
unfolding array_size
size-optional none = refl
size-optional (some x) = omega arith

-- `encode` runs a writer and then returns its flags.
Encodes-Writes :
    {P : Type 0} ⦃e : Encode P⦄ (p : P) (flags : ℕ) {body : List ℕ}
    (m : ByteWriter → Option ByteWriter)
    → e.compute_size p ≡ some (length body)
    → ((wr : ByteWriter) → e.encode p wr ≡ (m wr >>= λ wr'. some (flags, wr')))
    → Writes m body
    → Encodes p flags body
Encodes-Writes p flags m sized same w = record {
  sized = sized;
  writes = λ wr fits. rw (same wr, w.at wr fits) refl;
}

-- PUBACK and its like.
abbrev pub simple_body : ℕ → List ℕ
simple_body id = u16_to_memory (from_native id)

pub simple-Encodes :
    {kind : Simple} (p : SimplePacket kind)
    → Encodes p (simple_flags kind) (simple_body p.packet_id)
unfolding encode_simple
simple-Encodes {kind} p =
    Encodes-Writes p (simple_flags kind) _ refl (λ wr. refl) (Writes-u16 (from_native p.packet_id))

pub empty-Encodes : {kind : Empty} (p : EmptyPacket kind) → Encodes p 0 []
empty-Encodes p = Encodes-Writes p 0 some refl (λ wr. refl) Writes-nothing

-- SUBSCRIBE and UNSUBSCRIBE.
abbrev pub subscriptions_body : List (List ℕ × Qos) → List ℕ
subscriptions_body [] = []
subscriptions_body ((topic, qos) ∷ rest) =
    prefixed topic ++ (qos_code qos ∷ [] ++ subscriptions_body rest)

abbrev pub subscribe_body : SubscribePacket → List ℕ
subscribe_body p = simple_body p.packet_id ++ subscriptions_body p.topics

abbrev pub ShortTopics : List (List ℕ × Qos) → Type 0
ShortTopics [] = Unit
ShortTopics ((topic, qos) ∷ rest) = IsShort topic × ShortTopics rest

Writes-subscriptions :
    (l : List (List ℕ × Qos))
    → ShortTopics l
    → Writes (write_subscriptions l) (subscriptions_body l)
Writes-subscriptions [] h = Writes-nothing
Writes-subscriptions ((topic, qos) ∷ rest) (h, hs) =
    Writes-then (Writes-bytes topic h)
      (Writes-then (Writes-u8 (qos_code qos)) (Writes-subscriptions rest hs))

size-subscriptions :
    (l : List (List ℕ × Qos)) → subscriptions_size l ≡ length (subscriptions_body l)
unfolding array_size
size-subscriptions [] = refl
size-subscriptions ((topic, qos) ∷ rest) =
    omega
      (arith, size-subscriptions rest, length-append topic (qos_code qos ∷ subscriptions_body rest))

pub subscribe-Encodes :
    (p : SubscribePacket) → ShortTopics p.topics → Encodes p 2 (subscribe_body p)
unfolding encode_subscribe
subscribe-Encodes p h =
    Encodes-Writes p 2 _ (ap some (omega (arith, size-subscriptions p.topics)))
      (λ wr. simp bind_assoc)
      (Writes-then (Writes-u16 (from_native p.packet_id)) (Writes-subscriptions p.topics h))

abbrev pub topics_body : List (List ℕ) → List ℕ
topics_body [] = []
topics_body (topic ∷ rest) = prefixed topic ++ topics_body rest

abbrev pub unsubscribe_body : UnsubscribePacket → List ℕ
unsubscribe_body p = simple_body p.packet_id ++ topics_body p.topics

Writes-topics : (l : List (List ℕ)) → All IsShort l → Writes (write_topics l) (topics_body l)
Writes-topics [] h = Writes-nothing
Writes-topics (topic ∷ rest) (h, hs) = Writes-then (Writes-bytes topic h) (Writes-topics rest hs)

size-topics : (l : List (List ℕ)) → topics_size l ≡ length (topics_body l)
unfolding array_size
size-topics [] = refl
size-topics (topic ∷ rest) = omega (arith, size-topics rest, length-append topic (topics_body rest))

pub unsubscribe-Encodes :
    (p : UnsubscribePacket) → All IsShort p.topics → Encodes p 2 (unsubscribe_body p)
unfolding encode_unsubscribe
unsubscribe-Encodes p h =
    Encodes-Writes p 2 _ (ap some (omega (arith, size-topics p.topics))) (λ wr. simp bind_assoc)
      (Writes-then (Writes-u16 (from_native p.packet_id)) (Writes-topics p.topics h))

-- PUBLISH.
abbrev id_body : Bool → ℕ → List ℕ
id_body true id = simple_body id
id_body false id = []

abbrev pub publish_body : Qos → OutgoingPublishPacket → List ℕ
publish_body qos p =
    prefixed p.topic ++ (id_body (qos_ge qos at_least_once) p.packet_id ++ p.payload)

Writes-id :
    (b : Bool) (id : ℕ)
    → Writes (λ wr. if b then write_u16 (from_native id) wr else some wr) (id_body b id)
Writes-id true id = Writes-u16 (from_native id)
Writes-id false id = Writes-nothing

size-id : (b : Bool) (id : ℕ) → (if b then 2 else 0) ≡ length (id_body b id)
size-id true id = refl
size-id false id = refl

pub publish-Encodes :
    (p : OutgoingPublishPacket) (qos : Qos)
    → Control.qos p.flags ≡ some qos
    → IsShort p.topic
    → Encodes p (into_inner p.flags) (publish_body qos p)
unfolding encode_publish publish_size array_size
publish-Encodes p qos e h =
    Encodes-Writes p (into_inner p.flags) _
      (rw e (
        ap some (
          omega (
            arith,
            size-id (qos_ge qos at_least_once) p.packet_id,
            length-append p.topic (id_body (qos_ge qos at_least_once) p.packet_id ++ p.payload),
            length-append (id_body (qos_ge qos at_least_once) p.packet_id) p.payload,
          ))))
      (λ wr. rw e (simp bind_assoc))
      (Writes-then (Writes-bytes p.topic h) (
        Writes-then (Writes-id (qos_ge qos at_least_once) p.packet_id)
          (Writes-bytes_no_len p.payload)))

-- CONNECT.
abbrev pub will_body : Option LastWill → List ℕ
will_body none = []
will_body (some w) = prefixed w.topic ++ prefixed w.message

abbrev pub ShortWill : LastWill → Type 0
ShortWill w = IsShort w.topic × IsShort w.message

Writes-will : (o : Option LastWill) → IfSome ShortWill o → Writes (write_will o) (will_body o)
Writes-will none h = Writes-nothing
Writes-will (some w) (ht, hm) = Writes-then (Writes-bytes w.topic ht) (Writes-bytes w.message hm)

size-will : (o : Option LastWill) → will_size o ≡ length (will_body o)
unfolding array_size
size-will none = refl
size-will (some w) = omega (arith, length-append w.topic (prefixed w.message))

abbrev connect_tail : ConnectPacket → List ℕ
connect_tail p = will_body p.will ++ (optional_body p.username ++ optional_body p.password)

abbrev pub connect_body : ConnectPacket → List ℕ
connect_body p = header_to_memory (connect_header p) ++ (prefixed p.client_id ++ connect_tail p)

-- The lengths that `write_bytes` accepts.
pub record ShortConnect (p : ConnectPacket) : Type 0 where
  pub client_id : IsShort p.client_id
  pub will : IfSome ShortWill p.will
  pub username : IfSome IsShort p.username
  pub password : IfSome IsShort p.password

pub connect-Encodes : (p : ConnectPacket) → ShortConnect p → Encodes p 0 (connect_body p)
unfolding encode_connect connect_size array_size
connect-Encodes p h =
    Encodes-Writes p 0 _
      (ap some (
        omega (
          arith,
          length-append p.client_id (connect_tail p),
          length-append (will_body p.will) (optional_body p.username ++ optional_body p.password),
          length-append (optional_body p.username) (optional_body p.password),
          size-will p.will,
          size-optional p.username,
          size-optional p.password,
        )))
      (λ wr. simp bind_assoc)
      (Writes-then (Writes-trivial (connect_header p)) (
        Writes-then (Writes-bytes p.client_id h.client_id) (
          Writes-then (Writes-will p.will h.will) (
            Writes-then (Writes-optional p.username h.username)
              (Writes-optional p.password h.password)))))
