-- ===== src/Packets/Incoming/Total.antt =====
-- The decoders of incoming packets do not panic.
use lmc_rs.Prelude.{
  ◌⊎◌, ℕ, suc, ◌+◌, ◌<◌, ◌≤◌, ◌≡◌, ◌≢◌, refl, subst, Bool, true, false, some, List, [], ◌∷◌, ◌++◌,
  length, length-set, arith, set, leb, lt→ltb, if◌then◌else◌, inl, inr, Bool-cases, replicate,
}
use lmc_rs.Errors.{Qos, Decoded, ok, err, panicked, PacketDecodeError, at_least_once, qos_ge}
use lmc_rs.Utf8.{is_utf8}
use lmc_rs.ByteIo.{
  Trivial, Reader, ◌>>=◌, pure, raise, read_trivial, u16_trivial, read_u16, take_bytes,
  read_byte_array, read_utf8, read_remaining, to_native, remaining, continue,
}
use lmc_rs.Packets.Control
use lmc_rs.Packets.Control.{ControlField, PublishFlags, try_from, type_code, PacketType}
use lmc_rs.Packets.Control.Field.{flags-lt}
use lmc_rs.Packets.Control.Flags.{try_from-Classified}
use lmc_rs.Packets.Incoming.{
  lift, conn_ack_trivial, decode_conn_ack, read_id, decode_publish, decode_simple, from_bytes,
  IncomingPacket, conn_ack, sub_ack, publish, acked, received, released, completed, unsubscribed,
  read_as,
}
use lmc_rs.Packets.Incoming.SubAck.{
  SubscriptionResult, SubscriptionResultList, static, dynamic, map_decoded, parse_sub_result,
  fill_static, push_dynamic, read_results, decode_sub_ack, max_static_subs, refused,
}
use lmc_rs.Packets.Outgoing.Requests.{Simple}

pub record NoPanic {A : Type 0} (m : Reader A) : Type 0 where
  pub at : (bytes : List ℕ) → (m bytes).0 ≢ panicked

NoPanic-bind :
    {A B : Type 0} (m : Reader A) (f : A → Reader B)
    → NoPanic m
    → ((a : A) → NoPanic (f a))
    → NoPanic (m >>= f)
NoPanic-bind {A} {B} m f hm hf = record { at = λ bytes. go (m bytes).0 (m bytes).1 (hm.at bytes) }
  where
    go : (r : Decoded A) (rest : List ℕ) → r ≢ panicked → (continue r f rest).0 ≢ panicked
    go (ok a) rest h = (hf a).at rest
    go (err e) rest h = λ p. cc
    go panicked rest h = absurd (h refl)

NoPanic-pure : {A : Type 0} (a : A) → NoPanic (pure a)
NoPanic-pure a = record { at = λ bytes p. cc }

NoPanic-raise : {A : Type 0} (e : PacketDecodeError) → NoPanic (raise {A = A} e)
NoPanic-raise e = record { at = λ bytes p. cc }

NoPanic-if :
    {A : Type 0} (b : Bool) (m n : Reader A) → NoPanic m → NoPanic n → NoPanic (if b then m else n)
NoPanic-if true m n hm hn = hm
NoPanic-if false m n hm hn = hn

NoPanic-lift : {A : Type 0} (r : Decoded A) → r ≢ panicked → NoPanic (lift r)
NoPanic-lift r h = record { at = λ bytes. h }

NoPanic-trivial : {T : Type 0} ⦃t : Trivial T⦄ → NoPanic (read_trivial {T = T})
unfolding read_trivial
NoPanic-trivial = record { at = λ bytes. ground arith }

NoPanic-u16 : NoPanic read_u16
unfolding read_u16
NoPanic-u16 = NoPanic-trivial

NoPanic-take : (len : ℕ) → NoPanic (take_bytes len)
unfolding take_bytes
NoPanic-take len = record { at = λ bytes. ground arith }

NoPanic-array : NoPanic read_byte_array
unfolding read_byte_array
NoPanic-array = NoPanic-bind _ _ NoPanic-u16 (λ len. NoPanic-take (to_native len))

NoPanic-utf8 : NoPanic read_utf8
unfolding read_utf8
NoPanic-utf8 =
    NoPanic-bind _ _ NoPanic-array
      (λ s. NoPanic-if (is_utf8 s) _ _ (NoPanic-pure s) (NoPanic-raise _))

NoPanic-remaining : NoPanic read_remaining
NoPanic-remaining = record { at = λ bytes p. cc }

NoPanic-length : NoPanic remaining
NoPanic-length = record { at = λ bytes p. cc }

parse_sub_result-ne : (r : ℕ) → parse_sub_result r ≢ panicked
unfolding parse_sub_result
parse_sub_result-ne r = ground arith

sub_result_cases :
    (r : ℕ)
    → ((v : SubscriptionResult) × (parse_sub_result r ≡ ok v))
      ⊎ ((e : PacketDecodeError) × (parse_sub_result r ≡ err e))
sub_result_cases r = go (parse_sub_result r) (parse_sub_result-ne r)
  where
    go :
        (d : Decoded SubscriptionResult)
        → d ≢ panicked
        → ((v : SubscriptionResult) × (d ≡ ok v)) ⊎ ((e : PacketDecodeError) × (d ≡ err e))
    go (ok v) h = inl (v, refl)
    go (err e) h = inr (e, refl)
    go panicked h = absurd (h refl)

-- What a decoder of results may give: an error, or as many values as there were.
Fits : ℕ → Decoded (List SubscriptionResult) → Type 0
Fits n (ok values) = length values ≡ n
Fits n (err e) = Unit
Fits n panicked = ⊥

fill_static-Fits :
    (rs : List ℕ) (i : ℕ) (values : List SubscriptionResult)
    → i + length rs ≤ length values
    → Fits (length values) (fill_static rs i values)
unfolding fill_static Fits
fill_static-Fits [] i values h = refl
fill_static-Fits (r ∷ rs) i values h = elim (sub_result_cases r) [
  | inl (v, e) ↦
      let same = length-set values i v in
      rw (e, fill_static, lt→ltb i (length values) (omega arith))
        (subst (λ n. Fits n (fill_static rs (suc i) (set values i v))) same
          (fill_static-Fits rs (suc i) (set values i v) (omega (arith, same))))
  | inr (x, e) ↦ rw (e, fill_static) tt
]

push_dynamic-ne :
    (rs : List ℕ) (values : List SubscriptionResult) → push_dynamic rs values ≢ panicked
unfolding push_dynamic
push_dynamic-ne [] values = λ p. cc
push_dynamic-ne (r ∷ rs) values = elim (sub_result_cases r) [
  | inl (v, e) ↦ rw (e, push_dynamic) (push_dynamic-ne rs (values ++ (v ∷ [])))
  | inr (x, e) ↦ rw (e, push_dynamic) (λ p. cc)
]

-- The slice of `sub_results` stands within the values.
InRange : SubscriptionResultList → Type 0
InRange (static len values) = len ≤ length values
InRange (dynamic values) = Unit

ReadsInRange : Decoded SubscriptionResultList → Type 0
ReadsInRange (ok results) = InRange results
ReadsInRange (err e) = Unit
ReadsInRange panicked = ⊥

static-InRange :
    (n m : ℕ) (d : Decoded (List SubscriptionResult))
    → n ≤ m
    → Fits m d
    → ReadsInRange (map_decoded d (static n))
unfolding Fits InRange ReadsInRange
static-InRange n m (ok values) h e = omega (arith, e)
static-InRange n m (err x) h e = tt
static-InRange n m panicked h e = e

dynamic-InRange :
    (d : Decoded (List SubscriptionResult)) → d ≢ panicked → ReadsInRange (map_decoded d dynamic)
unfolding InRange ReadsInRange
dynamic-InRange (ok values) h = tt
dynamic-InRange (err x) h = tt
dynamic-InRange panicked h = h refl

-- Reading as many results as there are bytes does not panic, and of what it gives `sub_results` does not.
read_results-InRange : (bytes : List ℕ) → ReadsInRange (read_results (length bytes) bytes)
unfolding read_results
read_results-InRange bytes = elim (Bool-cases (leb (length bytes) max_static_subs)) [
  | inl small ↦
      let few : length bytes ≤ 16 = ground (arith, small) in
      rw small (
        static-InRange (length bytes) 16 (fill_static bytes 0 (replicate max_static_subs refused))
          few (fill_static-Fits bytes 0 (replicate max_static_subs refused) (omega (arith, few))))
  | inr large ↦ rw large (dynamic-InRange (push_dynamic bytes []) (push_dynamic-ne bytes []))
]

ReadsInRange-ne : (d : Decoded SubscriptionResultList) → ReadsInRange d → d ≢ panicked
unfolding ReadsInRange
ReadsInRange-ne (ok rs) h = λ p. cc
ReadsInRange-ne (err e) h = λ p. cc
ReadsInRange-ne panicked h = absurd h

NoPanic-sub_ack : NoPanic decode_sub_ack
unfolding decode_sub_ack
NoPanic-sub_ack = NoPanic-bind _ _ NoPanic-u16 λ id. record {
  at = λ bytes.
      let d = read_results (length bytes) bytes in
      (NoPanic-bind _ _ (NoPanic-lift d (ReadsInRange-ne d (read_results-InRange bytes)))
          λ rs. NoPanic-pure (record { packet_id = to_native id; results = rs })).at
        [];
}

NoPanic-conn_ack : NoPanic decode_conn_ack
unfolding decode_conn_ack
NoPanic-conn_ack = NoPanic-bind _ _ NoPanic-trivial (λ hdr. NoPanic-pure _)

NoPanic-simple : {kind : Simple} → NoPanic (decode_simple {kind = kind})
unfolding decode_simple
NoPanic-simple = NoPanic-bind _ _ NoPanic-u16 (λ id. NoPanic-pure _)

NoPanic-id : (qos : Qos) → NoPanic (read_id (some qos))
NoPanic-id qos =
    NoPanic-if (qos_ge qos at_least_once) _ _ (NoPanic-bind _ _ NoPanic-u16 (λ id. NoPanic-pure _))
      (NoPanic-pure 0)

NoPanic-rest :
    (f : PublishFlags) (qos : Qos) → Control.qos f ≡ some qos → NoPanic (read_id (Control.qos f))
NoPanic-rest f qos e = rw e (NoPanic-id qos)

-- The identifier of a message is read only behind flags that `try_from` accepted.
NoPanic-publish : (c : ControlField) → Control.flags c < 256 → NoPanic (decode_publish c)
unfolding decode_publish
NoPanic-publish c h = elim (try_from-Classified (Control.flags c) h) [
  | inl (f, qos, accepted, _, has_qos, _) ↦ rw accepted (
      NoPanic-bind _ _ NoPanic-utf8 λ topic.
        NoPanic-bind _ _ (NoPanic-rest f qos has_qos)
          λ id. NoPanic-bind _ _ NoPanic-remaining λ payload. NoPanic-pure _)
  | inr (rejected, _) ↦ rw rejected (record { at = λ bytes p. cc })
]

NoPanic-as :
    {A : Type 0} (name : A → IncomingPacket) (m : Reader A) → NoPanic m → NoPanic (read_as name m)
NoPanic-as name m h = NoPanic-bind m _ h (λ a. NoPanic-pure _)

-- Whatever a server sends, decoding it gives a packet or an error, and never a panic.
pub NoPanic-from_bytes : (c : ControlField) → c.byte < 256 → NoPanic (from_bytes c)
unfolding from_bytes
NoPanic-from_bytes c h = record {
  at = λ bytes. ground (
    arith,
    (NoPanic-as conn_ack _ NoPanic-conn_ack).at bytes,
    (NoPanic-as sub_ack _ NoPanic-sub_ack).at bytes,
    (NoPanic-as publish _ (NoPanic-publish c (flags-lt c h))).at bytes,
    (NoPanic-as acked _ NoPanic-simple).at bytes,
    (NoPanic-as received _ NoPanic-simple).at bytes,
    (NoPanic-as released _ NoPanic-simple).at bytes,
    (NoPanic-as completed _ NoPanic-simple).at bytes,
    (NoPanic-as unsubscribed _ NoPanic-simple).at bytes,
  );
}
