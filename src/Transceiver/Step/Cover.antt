-- ===== src/Transceiver/Step/Cover.antt =====
-- The commands and the ticks of src/transceiver/mod.rs keep a timeout for every packet.
use lmc_rs.Prelude.{
  length, zero, suc, Bool, ◌-◌, ltb, if◌then◌else◌, ℕ, ◌≡◌, ◌≢◌, refl, true, false, ◌||◌, Option,
  none, some, List, [], ◌∷◌, ◌==◌, arith,
}
use lmc_rs.Prelude.Maps.{lookup}
use lmc_rs.Errors.{IoResult, done, failed, crashed}
use lmc_rs.Transport.{Transport}
use lmc_rs.Packets.Control.{PacketType, type_code}
use lmc_rs.Transceiver.Ids.{IdType, id_beq, id_beq_lem, id_eq}
use lmc_rs.Transceiver.State.{pure, ◌>>◌, Transceiver, Timeout, Action, continue, modify}
use lmc_rs.Transceiver.Sending.{queue_internal_packet, try_send_packet}
use lmc_rs.Transceiver.Process.Timeouts.{awaited, awaited-append, is_subscribe, Covered, KeepsCover}
use lmc_rs.Transceiver.Step.{
  ping, on_tick, want_continue, TaskState, resend_front, resend_timeouts, push_timeout, resend,
  stored,
}
use lmc_rs.Subscription.Receivers.{Channels}
use lmc_rs.Transceiver.Process.Timeouts.{rules}
use lmc_rs.Transceiver.Step.Ticks.{ping-Respects}
use lmc_rs.Transceiver.Step.Rules.{RestRules}

grow-Covered : {S : Type 0} (to : Timeout) (m : Transceiver S) → KeepsCover m (push_timeout to m)
grow-Covered to m h id k e = ground (arith, h id k e, awaited-append id m.timeout_queue (to ∷ []))

pub rest : (t : Transport) → RestRules t KeepsCover
unfolding try_send_packet
rest t = record {
  tries = λ bytes set_dup m h. h;
  grows = grow-Covered;
  ignores = λ rx subs shared n closed last_tx m h. h;
}

module _ (t : Transport) (now : ℕ) where
  -- All packets have a timeout, but for the one whose timeout has just been taken from the queue.
  abbrev Missing : IdType → Transceiver t.State → Type 0
  Missing taken m =
      (id : IdType)
      → is_subscribe id ≡ false
      → lookup id m.pending_packets ≢ none
      → (id_beq taken id || awaited id m.timeout_queue) ≡ true

  -- A branch that ends well keeps the timeouts.
  abbrev WellKept : {A : Type 0} → Action t.State A → Transceiver t.State → Type 0
  WellKept {A} act m = (a : A) → (act m).0 ≡ done a → Covered (act m).1

  continue-Covered :
      {A : Type 0} (r : IoResult (Unit {0})) (f : Action t.State A) (n : Transceiver t.State)
      → (r ≡ done tt → Covered n)
      → (Covered n → WellKept f n)
      → WellKept (λ k. continue r (λ _. f) k) n
  continue-Covered (done tt) f n h g a e = g (h refl) a e
  continue-Covered (failed x) f n h g a e = absurd cc
  continue-Covered crashed f n h g a e = absurd cc

  refresh-Covered :
      (to : Timeout) (m : Transceiver t.State)
      → Missing to.packet_id m
      → Covered (push_timeout (record to { at = now }) m)
  refresh-Covered to m h id k e =
      ground (arith, h id k e, awaited-append id m.timeout_queue (record to { at = now } ∷ []))

  pushed-Covered :
      (to : Timeout) (r : IoResult (Unit {0})) (n : Transceiver t.State)
      → Missing to.packet_id n
      → WellKept (λ k. continue r (λ _. modify (push_timeout (record to { at = now }))) k) n
  pushed-Covered to (done u) n h a e = refresh-Covered to n h
  pushed-Covered to (failed x) n h a e = absurd cc
  pushed-Covered to crashed n h a e = absurd cc

  resend-Covered :
      (to : Timeout) (pkt : Option (List ℕ)) (m : Transceiver t.State)
      → pkt ≡ stored t now to.packet_id m
      → Missing to.packet_id m
      → WellKept (resend t now to pkt) m
  unfolding queue_internal_packet
  resend-Covered to none m e h a f id k l = ground (arith, h id k l, id_beq_lem to.packet_id id)
  resend-Covered to (some pkt) m e h a f id k l =
      pushed-Covered to
        (queue_internal_packet t pkt (type_code to.packet_id.ty == type_code PacketType.publish)
          m).0
        (queue_internal_packet t pkt (type_code to.packet_id.ty == type_code PacketType.publish)
          m).1
        h a f id k l

  front_due-Covered :
      (b : Bool) (next : Action t.State (Unit {0})) (to : Timeout) (ts : List Timeout)
      (m : Transceiver t.State)
      → m.timeout_queue ≡ to ∷ ts
      → Covered m
      → ((n : Transceiver t.State) → Covered n → WellKept next n)
      → WellKept
          (λ k.
            if b
            then (done tt, m)
            else (resend t now to (stored t now to.packet_id m) >> next)
                (record m { timeout_queue = ts }))
          m
  front_due-Covered true next to ts m e h g a f = h
  front_due-Covered false next to ts m e h g a f =
      let popped = record m { timeout_queue = ts } in
      let again = resend t now to (stored t now to.packet_id m) in
      continue-Covered (again popped).0 next (again popped).1
        (λ d.
          resend-Covered to (stored t now to.packet_id m) popped refl
            (λ id k l. ground (arith, h id k l, e)) tt d)
        (g (again popped).1) a f

  resend_front-Covered :
      (next : Action t.State (Unit {0})) (ts : List Timeout) (m : Transceiver t.State)
      → m.timeout_queue ≡ ts
      → Covered m
      → ((n : Transceiver t.State) → Covered n → WellKept next n)
      → WellKept (resend_front t now next ts) m
  resend_front-Covered next [] m e h g a f = h
  resend_front-Covered next (to ∷ ts) m e h g a f =
      front_due-Covered (ltb (now - to.at) m.packet_resend_delay) next to ts m e h g a f

  resend_timeouts-Covered :
      (n : ℕ) (m : Transceiver t.State) → Covered m → WellKept (resend_timeouts t now n) m
  unfolding resend_timeouts
  resend_timeouts-Covered zero m h a f = h
  resend_timeouts-Covered (suc n) m h a f =
      resend_front-Covered (resend_timeouts t now n) m.timeout_queue m refl h
        (resend_timeouts-Covered n) a f

  tick_when-Covered :
      (c : Channels) (b : Bool) (m : Transceiver t.State)
      → Covered m
      → WellKept
          (λ k.
            (if b
              then (done want_continue, k)
              else (ping t now
                    >> (λ n. resend_timeouts t now (length n.timeout_queue) n)
                    >> pure want_continue)
                  k))
          m
  tick_when-Covered c true m h a f = h
  tick_when-Covered c false m h a f =
      let again = λ (n : Transceiver t.State). resend_timeouts t now (length n.timeout_queue) n in
      let resent = (ping t now >> again) m in
      continue-Covered resent.0 (pure want_continue) resent.1
        (λ d.
          continue-Covered (ping t now m).0 again (ping t now m).1
            (λ _. ping-Respects (rules t c) (rest t) now m h)
            (resend_timeouts-Covered (length (ping t now m).1.timeout_queue) (ping t now m).1) tt d)
        (λ k b e. k) a f

  pub on_tick-Covered :
      (c : Channels) (m : Transceiver t.State) (a : TaskState)
      → Covered m
      → (on_tick t now m).0 ≡ done a
      → Covered (on_tick t now m).1
  unfolding on_tick
  on_tick-Covered c m a h f = tick_when-Covered c m.connecting m h a f
