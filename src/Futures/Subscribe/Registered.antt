-- ===== src/Futures/Subscribe/Registered.antt =====
-- `SubscribeFuture` and the wakers that wait for a topic.
use lmc_rs.Prelude.{
  Bool-cases, inl, inr, ℕ, suc, zero, ◌≤◌, ◌<◌, ◌≡◌, refl, Option, none, some, List, [], ◌∷◌, ◌++◌,
  length, length-append, length-set, get_elem?, set, lt→ltb, ltb, arith,
}
use lmc_rs.Prelude.Maps.{text_eq, text_beq, text_beq_lem, lookup, insert, lookup-insert}
use lmc_rs.Shared.{SubscriptionState, existing, pending, Waker}
use lmc_rs.Futures.{Poll, not_ready, ready}
use lmc_rs.Futures.Subscribe.{Subs, Answer, granted, refused, SubscribeFuture, poll}

pub get_elem?-set :
    {A : Type 0} (xs : List A) (i : ℕ) (v : A) → i < length xs → get_elem? (set xs i v) i ≡ some v
get_elem?-set [] i v h = absurd (omega arith)
get_elem?-set (x ∷ xs) zero v h = refl
get_elem?-set (x ∷ xs) (suc i) v h = get_elem?-set xs i v (omega arith)

get_elem?-append :
    {A : Type 0} (xs : List A) (v : A) → get_elem? (xs ++ (v ∷ [])) (length xs) ≡ some v
get_elem?-append [] v = refl
get_elem?-append (x ∷ xs) v = get_elem?-append xs v

-- The index that a future has kept is one of the wakers of its topic, while the topic is pending.
abbrev pub Within : Option ℕ → Option SubscriptionState → Type 0
Within (some i) (some (pending wakers)) = i < length wakers
Within _ _ = Unit

abbrev pub IsRegistered : SubscribeFuture → Subs → Type 0
IsRegistered f m = Within f.waker_index (lookup f.topic m)

-- What a poll is answered, and that it leaves its waker where the future finds it again.
abbrev pub Polled :
    Waker
    → SubscribeFuture
    → Option SubscriptionState
    → Option (Poll Answer × SubscribeFuture × Subs)
    → Type 0
Polled w f o none = ⊥
Polled w f none (some (a, f', m')) = (a ≡ ready refused) × (f'.result ≡ some refused)
Polled w f (some (existing qos)) (some (a, f', m')) =
    (a ≡ ready (granted qos)) × (f'.result ≡ some (granted qos))
Polled w f (some (pending wakers)) (some (a, f', m')) =
    (a ≡ not_ready)
    × (f'.result ≡ none)
    × IsRegistered f' m'
    × ((i : ℕ) × (ws : List (Option Waker)) × (f'.waker_index ≡ some i)
        × (lookup f.topic m' ≡ some (pending ws))
        × (get_elem? ws i ≡ some (some w)))

pub lookup_inserted :
    (k : List ℕ) (v : SubscriptionState) (m : Subs) → lookup k (insert k v m) ≡ some v
lookup_inserted k v m = ground (arith, lookup-insert k k v m, text_beq_lem k k)

poll-pending :
    (w : Waker) (f : SubscribeFuture) (m : Subs) (wakers : List (Option Waker)) (o : Option ℕ)
    → f.result ≡ none
    → lookup f.topic m ≡ some (pending wakers)
    → f.waker_index ≡ o
    → Within o (some (pending wakers))
    → Polled w f (some (pending wakers)) (poll w f m)
unfolding poll
poll-pending w f m wakers none fresh e first within =
    rw (fresh, e, first, lookup_inserted f.topic (pending (wakers ++ (some w ∷ []))) m)
      (
        refl,
        refl,
        omega (arith, length-append wakers (some w ∷ [])),
        (length wakers, wakers ++ (some w ∷ []), refl, refl, get_elem?-append wakers (some w)),
      )
poll-pending w f m wakers (some i) fresh e kept within =
    rw
      (
        fresh,
        e,
        kept,
        lt→ltb i (length wakers) within,
        lookup_inserted f.topic (pending (set wakers i (some w))) m,
      )
      (
        refl,
        refl,
        omega (arith, length-set wakers i (some w)),
        (i, set wakers i (some w), refl, refl, get_elem?-set wakers i (some w) within),
      )

-- A poll of a future that has no answer yet does not panic if the future is registered: it is refused if
-- the topic has no entry, granted the quality of service of an existing subscription, and otherwise not
-- ready, registered, and its waker stands at its index.
pub poll-Polled :
    (w : Waker) (f : SubscribeFuture) (m : Subs)
    → f.result ≡ none
    → IsRegistered f m
    → Polled w f (lookup f.topic m) (poll w f m)
poll-Polled w f m fresh within = go (lookup f.topic m) refl
  where
    go : (o : Option SubscriptionState) → lookup f.topic m ≡ o → Polled w f o (poll w f m)
    go none e = unfold poll in rw (fresh, e) (refl, refl)
    go (some (existing qos)) e = unfold poll in rw (fresh, e) (refl, refl)
    go (some (pending wakers)) e =
        poll-pending w f m wakers f.waker_index fresh e refl (rw e at within)

-- The wakers of a topic become no fewer.
abbrev pub Grows : Option SubscriptionState → Option SubscriptionState → Type 0
Grows (some (pending ws)) (some (pending vs)) = length ws ≤ length vs
Grows o p = o ≡ p

Grows-refl : (o : Option SubscriptionState) → Grows o o
Grows-refl none = refl
Grows-refl (some (existing q)) = refl
Grows-refl (some (pending ws)) = omega arith

insert-Grows :
    (k j : List ℕ) (ws vs : List (Option Waker)) (m : Subs)
    → lookup k m ≡ some (pending ws)
    → length ws ≤ length vs
    → Grows (lookup j m) (lookup j (insert k (pending vs) m))
insert-Grows k j ws vs m e le = elim (Bool-cases (text_beq k j)) [
  | inl same ↦
      let equal : k ≡ j = (text_beq_lem k j).0 same in
      let there : lookup j m ≡ some (pending ws) = rw equal at e in
      rw (lookup-insert k j (pending vs) m, same, there) le
  | inr other ↦ rw (lookup-insert k j (pending vs) m, other) (Grows-refl (lookup j m))
]

abbrev pub AllGrow : Subs → Option (Poll Answer × SubscribeFuture × Subs) → Type 0
AllGrow m none = Unit
AllGrow m (some (a, f, m')) = (j : List ℕ) → Grows (lookup j m) (lookup j m')

pub poll-AllGrow : (w : Waker) (f : SubscribeFuture) (m : Subs) → AllGrow m (poll w f m)
poll-AllGrow w f m = go f.result (lookup f.topic m) f.waker_index refl refl refl
  where
    go :
        (r : Option Answer) (o : Option SubscriptionState) (i : Option ℕ)
        → f.result ≡ r
        → lookup f.topic m ≡ o
        → f.waker_index ≡ i
        → AllGrow m (poll w f m)
    go (some r) o i er eo ei = unfold poll in rw er (λ j. Grows-refl (lookup j m))
    go none none i er eo ei = unfold poll in rw (er, eo) (λ j. Grows-refl (lookup j m))
    go none (some (existing q)) i er eo ei =
        unfold poll in rw (er, eo) (λ j. Grows-refl (lookup j m))
    go none (some (pending ws)) none er eo ei =
        unfold poll in
        rw (er, eo, ei)
          (λ j.
            insert-Grows f.topic j ws (ws ++ (some w ∷ [])) m eo
              (omega (arith, length-append ws (some w ∷ []))))
    go none (some (pending ws)) (some i) er eo ei = elim (Bool-cases (ltb i (length ws))) [
      | inl fits ↦
          unfold poll in
          rw (er, eo, ei, fits)
            (λ j.
              insert-Grows f.topic j ws (set ws i (some w)) m eo
                (omega (arith, length-set ws i (some w))))
      | inr out ↦ unfold poll in rw (er, eo, ei, out) tt
    ]
