-- ===== src/Client/Subscribing/Later.antt =====
-- What clients do to the shared state of src/shared.rs in time, by `Client::subscribe` of src/lib.rs and beside
-- it: without the transceiver's task, an entry that is pending stays so.
use lmc_rs.Prelude.{
  ℕ, ◌≡◌, refl, sym, ap, ◌∙◌, subst, none, some, Option, List, [], ◌>>=◌, Bool-cases, inl, inr,
  length, set, ltb,
}
use lmc_rs.Prelude.Maps.{lookup, lookup-insert, text_eq, text_beq, insert}
use lmc_rs.Errors.{Qos}
use lmc_rs.Shared.{ClientShared, SubscriptionState, existing, pending, Waker}
use lmc_rs.Futures.{Poll, not_ready, ready}
use lmc_rs.Futures.Subscribe
use lmc_rs.Futures.Subscribe.{SubscribeFuture, Answer, granted, refused, Subs}
use lmc_rs.Futures.Subscribe.Registered.{Grows, AllGrow, poll-AllGrow}
use lmc_rs.Client.{begin_subscribe, begin_with}
use lmc_rs.Client.Subscribing.{
  Func, Subscribing, awaits_other, awaits_broker, sends, returns, fails, start, poll, cancel, go_on,
  on_other, on_broker,
}

-- `func` leaves the map of subscriptions alone.
abbrev pub LeavesSubs : {R : Type 0} → Func R → Type 0
LeavesSubs func = (s : ClientShared) → (func s).1.subs ≡ s.subs

-- What clients do to the shared state in time: calls of `subscribe` and their polls and their ends, and what
-- does not concern the map of subscriptions.
pub data Later : ClientShared → ClientShared → Type 1 where
  no_time : (s : ClientShared) → Later s s
  called :
      (R : Type 0) (func : Func R) (topic : List ℕ) (qos : Qos) (s r : ClientShared)
      → LeavesSubs func
      → Later s r
      → Later s (start func topic qos r).1
  polled :
      (R : Type 0) (func : Func R) (topic : List ℕ) (qos : Qos) (w : Waker) (x y : Subscribing R)
      (s r n : ClientShared)
      → LeavesSubs func
      → poll func topic qos w x r ≡ some (y, n)
      → Later s r
      → Later s n
  cancelled :
      (R : Type 0) (func : Func R) (topic : List ℕ) (qos : Qos) (x : Subscribing R)
      (s r n : ClientShared)
      → cancel func topic qos x r ≡ some n
      → Later s r
      → Later s n
  elsewhere : (s r n : ClientShared) → n.subs ≡ r.subs → Later s r → Later s n

-- Somebody is taken to be subscribing to the topic.
abbrev pub IsPending : List ℕ → Subs → Type 0
IsPending topic m = (ws : List (Option Waker)) × (lookup topic m ≡ some (pending ws))

Grows-IsPending :
    (topic : List ℕ) (m : Subs) (n : Subs)
    → Grows (lookup topic m) (lookup topic n)
    → IsPending topic m
    → IsPending topic n
Grows-IsPending topic m n g h =
    go (lookup topic n) refl (subst (λ o. Grows o (lookup topic n)) h.1 g)
  where
    go :
        (o : Option SubscriptionState)
        → lookup topic n ≡ o
        → Grows (some (pending h.0)) (lookup topic n)
        → IsPending topic n
    go none e k = absurd (cc (subst (Grows (some (pending h.0))) e k))
    go (some (existing q)) e k = absurd (cc (subst (Grows (some (pending h.0))) e k))
    go (some (pending vs)) e k = (vs, e)

insert-IsPending :
    (topic k : List ℕ) (vs : List (Option Waker)) (m : Subs)
    → IsPending topic m
    → IsPending topic (insert k (pending vs) m)
insert-IsPending topic k vs m h = elim (Bool-cases (text_beq k topic)) [
  | inl same ↦ (vs, rw (lookup-insert k topic (pending vs) m, same) refl)
  | inr other ↦ (h.0, rw (lookup-insert k topic (pending vs) m, other) h.1)
]

same-IsPending : (topic : List ℕ) {m n : Subs} → n ≡ m → IsPending topic m → IsPending topic n
same-IsPending topic e h = subst (IsPending topic) (sym e) h

AfterDrop : List ℕ → Option Subs → Type 0
AfterDrop topic none = Unit
AfterDrop topic (some m) = IsPending topic m

drop-IsPending :
    (topic : List ℕ) (f : SubscribeFuture) (m : Subs)
    → IsPending topic m
    → AfterDrop topic (Subscribe.drop f m)
unfolding AfterDrop Subscribe.drop
drop-IsPending topic f m h = go f.result f.waker_index (lookup f.topic m) refl refl refl
  where
    go :
        (p : Option Answer) (i : Option ℕ) (o : Option SubscriptionState)
        → f.result ≡ p
        → f.waker_index ≡ i
        → lookup f.topic m ≡ o
        → AfterDrop topic (Subscribe.drop f m)
    go (some p) i o ep ei eo = rw ep h
    go none none o ep ei eo = rw (ep, ei) h
    go none (some i) none ep ei eo = rw (ep, ei, eo) h
    go none (some i) (some (existing q)) ep ei eo = rw (ep, ei, eo) h
    go none (some i) (some (pending ws)) ep ei eo = elim (Bool-cases (ltb i (length ws))) [
      | inl fits ↦ rw (ep, ei, eo, fits) (insert-IsPending topic f.topic (set ws i none) m h)
      | inr out ↦ rw (ep, ei, eo, out) tt
    ]

dropped-IsPending :
    (topic : List ℕ) (s n : ClientShared) (r : Option Subs)
    → AfterDrop topic r
    → (r >>= λ subs. some (record s { subs = subs })) ≡ some n
    → IsPending topic n.subs
unfolding AfterDrop
dropped-IsPending topic s n none h e = absurd cc
dropped-IsPending topic s n (some m) h e =
    let state : record s { subs = m } ≡ n = cc in
    same-IsPending topic (ap (λ (x : ClientShared). x.subs) (sym state)) h

module _ {R : Type 0} (func : Func R) (topic : List ℕ) (qos : Qos) where
  go_on-IsPending :
      (other : List ℕ) (o : Option SubscriptionState) (s : ClientShared)
      → LeavesSubs func
      → IsPending other s.subs
      → IsPending other (go_on func topic qos (begin_with topic s o)).1.subs
  go_on-IsPending other none s k h =
      same-IsPending other (k (record s { subs = insert topic (pending []) s.subs }))
        (insert-IsPending other topic [] s.subs h)
  go_on-IsPending other (some (existing q)) s k h = same-IsPending other (k s) h
  go_on-IsPending other (some (pending ws)) s k h = h

  start-IsPending :
      (other : List ℕ) (s : ClientShared)
      → LeavesSubs func
      → IsPending other s.subs
      → IsPending other (start func topic qos s).1.subs
  unfolding start begin_subscribe
  start-IsPending other s k h = go_on-IsPending other (lookup topic s.subs) s k h

  on_other-IsPending :
      (other : List ℕ) (s : ClientShared) (r : Option (Poll Answer × SubscribeFuture × Subs))
      (y : Subscribing R) (n : ClientShared)
      → LeavesSubs func
      → AllGrow s.subs r
      → (r >>= λ x. some (on_other func topic qos s x)) ≡ some (y, n)
      → IsPending other s.subs
      → IsPending other n.subs
  on_other-IsPending other s none y n k g e h = absurd cc
  on_other-IsPending other s (some (not_ready, f, m)) y n k g e h =
      let state : record s { subs = m } ≡ n = cc in
      same-IsPending other (ap (λ (x : ClientShared). x.subs) (sym state))
        (Grows-IsPending other s.subs m (g other) h)
  on_other-IsPending other s (some (ready (granted q), f, m)) y n k g e h =
      let state : (func (record s { subs = m })).1 ≡ n = cc in
      same-IsPending other
        (ap (λ (x : ClientShared). x.subs) (sym state) ∙ k (record s { subs = m }))
        (Grows-IsPending other s.subs m (g other) h)
  on_other-IsPending other s (some (ready refused, f, m)) y n k g e h =
      let state : record s { subs = m } ≡ n = cc in
      same-IsPending other (ap (λ (x : ClientShared). x.subs) (sym state))
        (Grows-IsPending other s.subs m (g other) h)

  on_broker-IsPending :
      (other : List ℕ) (ret : R) (s : ClientShared)
      (r : Option (Poll Answer × SubscribeFuture × Subs)) (y : Subscribing R) (n : ClientShared)
      → AllGrow s.subs r
      → (r >>= λ x. some (on_broker func topic qos ret s x)) ≡ some (y, n)
      → IsPending other s.subs
      → IsPending other n.subs
  on_broker-IsPending other ret s none y n g e h = absurd cc
  on_broker-IsPending other ret s (some (a, f, m)) y n g e h =
      same-IsPending other (ap (λ (x : ClientShared). x.subs) (sym (state a e)))
        (Grows-IsPending other s.subs m (g other) h)
    where
      state :
          (b : Poll Answer)
          → some (on_broker func topic qos ret s (b, f, m)) ≡ some (y, n)
          → record s { subs = m } ≡ n
      state not_ready e = cc
      state (ready (granted q)) e = cc
      state (ready refused) e = cc

  poll-IsPending :
      (other : List ℕ) (w : Waker) (x y : Subscribing R) (s n : ClientShared)
      → LeavesSubs func
      → poll func topic qos w x s ≡ some (y, n)
      → IsPending other s.subs
      → IsPending other n.subs
  unfolding poll
  poll-IsPending other w (awaits_other f) y s n k e h =
      on_other-IsPending other s (Subscribe.poll w f s.subs) y n k (poll-AllGrow w f s.subs) e h
  poll-IsPending other w (awaits_broker ret f) y s n k e h =
      on_broker-IsPending other ret s (Subscribe.poll w f s.subs) y n (poll-AllGrow w f s.subs) e h
  poll-IsPending other w (sends ret q cmd) y s n k e h =
      let state : s ≡ n = cc in
      same-IsPending other (ap (λ (x : ClientShared). x.subs) (sym state)) h
  poll-IsPending other w (returns ret q) y s n k e h =
      let state : s ≡ n = cc in
      same-IsPending other (ap (λ (x : ClientShared). x.subs) (sym state)) h
  poll-IsPending other w (fails x) y s n k e h =
      let state : s ≡ n = cc in
      same-IsPending other (ap (λ (x : ClientShared). x.subs) (sym state)) h

  cancel-IsPending :
      (other : List ℕ) (x : Subscribing R) (s n : ClientShared)
      → cancel func topic qos x s ≡ some n
      → IsPending other s.subs
      → IsPending other n.subs
  unfolding cancel
  cancel-IsPending other (awaits_other f) s n e h =
      dropped-IsPending other s n (Subscribe.drop f s.subs) (drop-IsPending other f s.subs h) e
  cancel-IsPending other (awaits_broker ret f) s n e h =
      dropped-IsPending other s n (Subscribe.drop f s.subs) (drop-IsPending other f s.subs h) e
  cancel-IsPending other (sends ret q cmd) s n e h =
      let state : s ≡ n = cc in
      same-IsPending other (ap (λ (x : ClientShared). x.subs) (sym state)) h
  cancel-IsPending other (returns ret q) s n e h =
      let state : s ≡ n = cc in
      same-IsPending other (ap (λ (x : ClientShared). x.subs) (sym state)) h
  cancel-IsPending other (fails x) s n e h =
      let state : s ≡ n = cc in
      same-IsPending other (ap (λ (x : ClientShared). x.subs) (sym state)) h

pub Later-IsPending :
    (topic : List ℕ) (s r : ClientShared)
    → Later s r
    → IsPending topic s.subs
    → IsPending topic r.subs
Later-IsPending topic _ _ (no_time s) h = h
Later-IsPending topic _ _ (called R func k qos s r leaves l) h =
    start-IsPending func k qos topic r leaves (Later-IsPending topic s r l h)
Later-IsPending topic _ _ (polled R func k qos w x y s r n leaves e l) h =
    poll-IsPending func k qos topic w x y r n leaves e (Later-IsPending topic s r l h)
Later-IsPending topic _ _ (cancelled R func k qos x s r n e l) h =
    cancel-IsPending func k qos topic x r n e (Later-IsPending topic s r l h)
Later-IsPending topic _ _ (elsewhere s r n e l) h =
    same-IsPending topic e (Later-IsPending topic s r l h)
