-- ===== src/Transceiver/Step/Overdue.antt =====
-- The loop over the timeouts in a tick of src/transceiver/mod.rs: none is overdue behind it.
use lmc_rs.Prelude.{
  append-nil, leb, ℕ, zero, suc, ◌-◌, ◌<◌, ◌≤◌, ◌≡◌, refl, sym, ap, ◌∙◌, subst, Bool, true, false,
  Option, none, some, List, [], ◌∷◌, ◌++◌, append_assoc, length, ltb, ltb→lt, All, All-append, ◌==◌,
  if◌then◌else◌, arith,
}
use lmc_rs.Errors.{IoResult, done, failed, crashed}
use lmc_rs.Transport.{Transport}
use lmc_rs.Packets.Control.{PacketType, type_code}
use lmc_rs.Transceiver.State.{pure, Transceiver, Timeout, Action, continue, ◌>>◌, modify}
use lmc_rs.Transceiver.Sending.{queue_internal_packet}
use lmc_rs.Transceiver.Step.{
  TaskState, ping, on_tick, want_continue, push_timeout, resend, resend_front, resend_timeouts,
  stored,
}
use lmc_rs.Transceiver.Step.Ages.{Sorted, NotOverdue, Fresh, later-NotOverdue, Fresh-NotOverdue}

module _ (t : Transport) (now delay : ℕ) where
  -- What the loop has not visited yet is in front of what it has refreshed.
  abbrev Visiting : List Timeout → Transceiver t.State → Type 0
  Visiting old m =
      (fresh : List Timeout) × (m.timeout_queue ≡ old ++ fresh)
      × Fresh now fresh
      × (m.packet_resend_delay ≡ delay)

  -- Where an action ends well, its state has the property.
  abbrev Ensures :
      {A : Type 0}
      → (Transceiver t.State → Type 0)
      → Action t.State A
      → Transceiver t.State
      → Type 0
  Ensures {A} P act m = (a : A) → (act m).0 ≡ done a → P (act m).1

  continue-Ensures :
      {A : Type 0} (P Q : Transceiver t.State → Type 0) (r : IoResult (Unit {0}))
      (f : Action t.State A) (n : Transceiver t.State)
      → (r ≡ done tt → P n)
      → (P n → Ensures Q f n)
      → Ensures Q (λ k. continue r (λ _. f) k) n
  continue-Ensures P Q (done tt) f n h g a e = g (h refl) a e
  continue-Ensures P Q (failed x) f n h g a e = absurd cc
  continue-Ensures P Q crashed f n h g a e = absurd cc

  push-Visiting :
      (to : Timeout) (old : List Timeout) (m : Transceiver t.State)
      → Visiting old m
      → Visiting old (push_timeout (record to { at = now }) m)
  push-Visiting to old m h = (
    h.0 ++ (record to { at = now } ∷ []),
    ap (λ ts. ts ++ (record to { at = now } ∷ [])) h.1
        ∙ append_assoc old h.0 (record to { at = now } ∷ []),
    All-append (λ u. u.at ≡ now) h.0 (record to { at = now } ∷ []) h.2 (refl, tt),
    h.3,
  )

  resend-Visiting :
      (to : Timeout) (pkt : Option (List ℕ)) (old : List Timeout) (m : Transceiver t.State)
      → Visiting old m
      → Ensures (Visiting old) (resend t now to pkt) m
  unfolding queue_internal_packet
  resend-Visiting to none old m h a e = h
  resend-Visiting to (some pkt) old m h a e =
      let dup = type_code to.packet_id.ty == type_code PacketType.publish in
      continue-Ensures (Visiting old) (Visiting old) (queue_internal_packet t pkt dup m).0
        (modify (push_timeout (record to { at = now }))) (queue_internal_packet t pkt dup m).1
        (λ _. h) (λ k _ _. push-Visiting to old (queue_internal_packet t pkt dup m).1 k) a e

  abbrev Done : Transceiver t.State → Type 0
  Done m = NotOverdue now delay m.timeout_queue

  due-Done :
      (b : Bool) (next : Action t.State (Unit {0})) (to : Timeout) (ts fresh : List Timeout)
      (m : Transceiver t.State)
      → b ≡ ltb (now - to.at) delay
      → 0 < delay
      → m.timeout_queue ≡ to ∷ (ts ++ fresh)
      → m.packet_resend_delay ≡ delay
      → All (λ u. to.at ≤ u.at) ts
      → Fresh now fresh
      → ((n : Transceiver t.State) → Visiting ts n → Ensures Done next n)
      → Ensures Done
          (λ k.
            if b
            then (done tt, k)
            else (resend t now to (stored t now to.packet_id k) >> next)
                (record k { timeout_queue = ts ++ fresh }))
          m
  due-Done true next to ts fresh m b d q r s f h a e = subst (NotOverdue now delay) (sym q) (
    ltb→lt (now - to.at) delay (sym b),
    All-append (λ u. now - u.at < delay) ts fresh
        (later-NotOverdue now delay to.at ts (ltb→lt (now - to.at) delay (sym b)) s)
        (Fresh-NotOverdue now delay fresh d f),
  )
  due-Done false next to ts fresh m b d q r s f h a e =
      let popped = record m { timeout_queue = ts ++ fresh } in
      let again = resend t now to (stored t now to.packet_id m) in
      continue-Ensures (Visiting ts) Done (again popped).0 next (again popped).1
        (resend-Visiting to (stored t now to.packet_id m) ts popped (fresh, refl, f, r) tt)
        (h (again popped).1) a e

  front-Done :
      (n : ℕ) (to : Timeout) (ts fresh : List Timeout) (m : Transceiver t.State)
      → m.timeout_queue ≡ to ∷ (ts ++ fresh)
      → Ensures Done (resend_front t now (resend_timeouts t now n) (to ∷ (ts ++ fresh))) m
      → Ensures Done (resend_front t now (resend_timeouts t now n) m.timeout_queue) m
  front-Done n to ts fresh m q h =
      subst (λ x. Ensures Done (resend_front t now (resend_timeouts t now n) x) m) (sym q) h

  resend_timeouts-Done :
      (n : ℕ) (old : List Timeout) (m : Transceiver t.State)
      → length old ≡ n
      → 0 < delay
      → Sorted old
      → Visiting old m
      → Ensures Done (resend_timeouts t now n) m
  unfolding resend_timeouts
  resend_timeouts-Done zero [] m l d s h a e =
      subst (NotOverdue now delay) (sym h.1) (Fresh-NotOverdue now delay h.0 d h.2)
  resend_timeouts-Done zero (to ∷ ts) m l d s h a e = absurd (omega (arith, l))
  resend_timeouts-Done (suc n) [] m l d s h a e = absurd (omega (arith, l))
  resend_timeouts-Done (suc n) (to ∷ ts) m l d s h a e =
      front-Done n to ts h.0 m h.1
        (due-Done (ltb (now - to.at) m.packet_resend_delay) (resend_timeouts t now n) to ts h.0 m
          (ap (ltb (now - to.at)) h.3) d h.1 h.3 s.0 h.2
          (λ k v. resend_timeouts-Done n ts k (omega (arith, l)) d s.1 v))
        a e

  -- What a tick finds, and keeps until its loop.
  abbrev Ordered : Transceiver t.State → Type 0
  Ordered m = Sorted m.timeout_queue × (m.packet_resend_delay ≡ delay)

  ping_when-Ordered :
      (b : Bool) (m : Transceiver t.State)
      → Ordered m
      → Ordered
          (if b
            then queue_internal_packet t m.ping_req false (record m { last_tx = now })
            else (done tt, m)).1
  unfolding queue_internal_packet
  ping_when-Ordered true m h = h
  ping_when-Ordered false m h = h

  ping-Ordered : (m : Transceiver t.State) → Ordered m → Ordered (ping t now m).1
  unfolding ping
  ping-Ordered m h = ping_when-Ordered (leb m.ping_interval (now - m.last_tx)) m h

  loop-Done :
      (m : Transceiver t.State)
      → 0 < delay
      → Ordered m
      → Ensures Done (λ n. resend_timeouts t now (length n.timeout_queue) n) m
  loop-Done m d h =
      resend_timeouts-Done (length m.timeout_queue) m.timeout_queue m refl d h.0
        ([], sym (append-nil m.timeout_queue), tt, h.1)

  tick_when-Done :
      (b : Bool) (m : Transceiver t.State)
      → b ≡ false
      → 0 < delay
      → Ordered m
      → Ensures Done
          (λ k.
            (if b
              then (done want_continue, k)
              else (ping t now
                    >> (λ n. resend_timeouts t now (length n.timeout_queue) n)
                    >> pure want_continue)
                  k))
          m
  tick_when-Done true m h d s a e = absurd cc
  tick_when-Done false m h d s a e =
      let again = λ (n : Transceiver t.State). resend_timeouts t now (length n.timeout_queue) n in
      let resent = (ping t now >> again) m in
      continue-Ensures Done Done resent.0 (pure want_continue) resent.1
        (λ f.
          continue-Ensures Ordered Done (ping t now m).0 again (ping t now m).1
            (λ _. ping-Ordered m s) (loop-Done (ping t now m).1 d) tt f)
        (λ k _ _. k) a e

-- When a connected task has its timeouts in the order of their age and waits some time before it sends a
-- packet again, then no timeout is overdue after a tick that ends without an error.
pub on_tick-NotOverdue :
    (t : Transport) (now : ℕ) (m : Transceiver t.State) (a : TaskState)
    → m.connecting ≡ false
    → 0 < m.packet_resend_delay
    → Sorted m.timeout_queue
    → (on_tick t now m).0 ≡ done a
    → NotOverdue now m.packet_resend_delay (on_tick t now m).1.timeout_queue
unfolding on_tick
on_tick-NotOverdue t now m a h d s e =
    tick_when-Done t now m.packet_resend_delay m.connecting m h d (s, refl) a e
