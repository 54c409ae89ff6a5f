-- ===== src/Packets/Incoming/SubAck.antt =====
-- SUBACK: results kept in place or in a `Vec`.
use lmc_rs.Prelude.{
  ℕ, suc, Option, none, some, List, [], ◌∷◌, ◌++◌, length, set, take, replicate, ltb, leb, ◌==◌,
  if◌then◌else◌,
}
use lmc_rs.Errors.{
  Qos, at_most_once, at_least_once, exactly_once, Decoded, ok, err, panicked, malformed_packet,
}
use lmc_rs.ByteIo.{Reader, ◌>>=◌, pure, read_u16, remaining, read_remaining, to_native}

-- `Result<QoS, ()>`
pub data SubscriptionResult : Type 0 where
  granted : Qos → SubscriptionResult
  refused : SubscriptionResult

-- `(size_of::<Vec<_>>() - size_of::<usize>()) / size_of::<SubscriptionResult>()` with words of 8 bytes
-- and results of 1 byte.
abbrev pub max_static_subs : ℕ
max_static_subs = 16

pub data SubscriptionResultList : Type 0 where
  static : ℕ → List SubscriptionResult → SubscriptionResultList
  dynamic : List SubscriptionResult → SubscriptionResultList

pub record SubAckPacket : Type 0 where
  pub packet_id : ℕ
  pub results : SubscriptionResultList

-- `&values[..*len]` panics where there are fewer values.
abbrev list_results : SubscriptionResultList → Option (List SubscriptionResult)
list_results (static len values) = if leb len (length values) then some (take len values) else none
list_results (dynamic values) = some values

-- The method `sub_results`; `none` is a panic.
unfoldable pub sub_results : SubAckPacket → Option (List SubscriptionResult)
sub_results p = list_results p.results

unfoldable pub parse_sub_result : ℕ → Decoded SubscriptionResult
parse_sub_result r =
    if r == 0
    then ok (granted at_most_once)
    else if r == 1
    then ok (granted at_least_once)
    else if r == 2
    then ok (granted exactly_once)
    else if r == 128
    then ok refused
    else err malformed_packet

abbrev pub map_decoded : {A B : Type 0} → Decoded A → (A → B) → Decoded B
map_decoded (ok a) f = ok (f a)
map_decoded (err e) f = err e
map_decoded panicked f = panicked

abbrev pub and_then : {A B : Type 0} → Decoded A → (A → Decoded B) → Decoded B
and_then (ok a) f = f a
and_then (err e) f = err e
and_then panicked f = panicked

-- `values[i] = value`, which panics out of range.
abbrev pub set_at :
    List SubscriptionResult → ℕ → SubscriptionResult → Decoded (List SubscriptionResult)
set_at values i value = if ltb i (length values) then ok (set values i value) else panicked

-- `for (i, &r) in ... { values[i] = parse_sub_result(r)?; }`
unfoldable pub fill_static :
    List ℕ → ℕ → List SubscriptionResult → Decoded (List SubscriptionResult)
fill_static [] i values = ok values
fill_static (r ∷ rs) i values =
    and_then (parse_sub_result r) λ value. and_then (set_at values i value) (fill_static rs (suc i))

-- `for &r in ... { values.push(parse_sub_result(r)?); }`
unfoldable pub push_dynamic : List ℕ → List SubscriptionResult → Decoded (List SubscriptionResult)
push_dynamic [] values = ok values
push_dynamic (r ∷ rs) values = elim (parse_sub_result r) [
  | ok value ↦ push_dynamic rs (values ++ (value ∷ []))
  | err e ↦ err e
  | panicked ↦ panicked
]

unfoldable pub read_results : ℕ → List ℕ → Decoded SubscriptionResultList
unfolding fill_static push_dynamic
read_results num_results bytes =
    if leb num_results max_static_subs
    then map_decoded (fill_static bytes 0 (replicate max_static_subs refused)) (static num_results)
    else map_decoded (push_dynamic bytes []) dynamic

unfoldable pub decode_sub_ack : Reader SubAckPacket
unfolding read_results
decode_sub_ack = do
  packet_id ← read_u16
  num_results ← remaining
  bytes ← read_remaining
  results ← λ rest. (read_results num_results bytes, rest)
  pure (record { packet_id = to_native packet_id; results = results })
