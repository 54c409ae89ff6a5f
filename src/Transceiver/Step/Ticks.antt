-- ===== src/Transceiver/Step/Ticks.antt =====
-- The ticks of the alarm, `task_step` of src/transceiver/mod.rs: what they keep.
use lmc_rs.Prelude.{
  ℕ, zero, suc, ◌-◌, Bool, true, false, Option, none, some, List, [], ◌∷◌, length, ltb, leb, ◌==◌,
  if◌then◌else◌,
}
use lmc_rs.Errors.{done}
use lmc_rs.Transport.{Transport}
use lmc_rs.Packets.Control.{PacketType, type_code}
use lmc_rs.Packets.Incoming.{IncomingPublishPacket}
use lmc_rs.Subscription.Receivers.{Channels}
use lmc_rs.Transceiver.Ids.{IdType}
use lmc_rs.Transceiver.State.{Transceiver, Timeout, Action, ◌>>◌, modify, pure}
use lmc_rs.Transceiver.Sending.{queue_internal_packet}
use lmc_rs.Transceiver.Process.Rules.{Relation, Rules, Respects, bind-Respects}
use lmc_rs.Transceiver.Step.{
  push_timeout, ping, resend, resend_front, resend_timeouts, on_tick, stored, want_continue,
}
use lmc_rs.Transceiver.Step.Rules.{RestRules}

module _ {t : Transport} {c : Channels} {R : Relation t.State} {Forgets : IdType → Type 0}
    {Delivers : IncomingPublishPacket → Type 0} (rules : Rules t c R Forgets Delivers)
    (rest : RestRules t R) (now : ℕ) where
  ping_now-Respects :
      (b : Bool) (m : Transceiver t.State)
      → R m (
          (if b
            then queue_internal_packet t m.ping_req false (record m { last_tx = now })
            else (done tt, m)).1)
  ping_now-Respects true m =
      rules.follows m (record m { last_tx = now })
        (queue_internal_packet t m.ping_req false (record m { last_tx = now })).1
        (rest.ignores m.rx_pkt m.pending_subs m.shared m.subscriptions m.cmd_queue_closed now m)
        (rules.sends m.ping_req false (record m { last_tx = now }))
  ping_now-Respects false m = rules.stays m

  pub ping-Respects : Respects R (ping t now)
  unfolding ping
  ping-Respects m = ping_now-Respects (leb m.ping_interval (now - m.last_tx)) m

  pub resend-Respects : (to : Timeout) (pkt : Option (List ℕ)) → Respects R (resend t now to pkt)
  resend-Respects to none m = rules.stays m
  resend-Respects to (some pkt) m =
      bind-Respects rules
        (queue_internal_packet t pkt (type_code to.packet_id.ty == type_code PacketType.publish))
        (λ _. modify (push_timeout (record to { at = now })))
        (rules.sends pkt (type_code to.packet_id.ty == type_code PacketType.publish))
        (λ _. rest.grows (record to { at = now })) m

  module _
      (pops : (ts : List Timeout) (m : Transceiver t.State)
        → R m (record m { timeout_queue = ts })) where
    front_due-Respects :
        (b : Bool) (next : Action t.State (Unit {0})) (to : Timeout) (ts : List Timeout)
        (m : Transceiver t.State)
        → Respects R next
        → R m (
            (if b
              then (done tt, m)
              else (resend t now to (stored t now to.packet_id m) >> next)
                  (record m { timeout_queue = ts })).1)
    front_due-Respects true next to ts m h = rules.stays m
    front_due-Respects false next to ts m h =
        rules.follows m (record m { timeout_queue = ts })
          ((resend t now to (stored t now to.packet_id m) >> next)
            (record m { timeout_queue = ts })).1
          (pops ts m)
          (bind-Respects rules (resend t now to (stored t now to.packet_id m)) (λ _. next)
            (resend-Respects to (stored t now to.packet_id m)) (λ _. h)
            (record m { timeout_queue = ts }))

    resend_front-Respects :
        (next : Action t.State (Unit {0})) (ts : List Timeout) (m : Transceiver t.State)
        → Respects R next
        → R m (resend_front t now next ts m).1
    resend_front-Respects next [] m h = rules.stays m
    resend_front-Respects next (to ∷ ts) m h =
        front_due-Respects (ltb (now - to.at) m.packet_resend_delay) next to ts m h

    pub resend_timeouts-Respects : (n : ℕ) → Respects R (resend_timeouts t now n)
    unfolding resend_timeouts
    resend_timeouts-Respects zero m = rules.stays m
    resend_timeouts-Respects (suc n) m =
        resend_front-Respects (resend_timeouts t now n) m.timeout_queue m
          (resend_timeouts-Respects n)

    tick_when-Respects :
        (b : Bool) (m : Transceiver t.State)
        → R m (
            (if b
              then (done want_continue, m)
              else (ping t now
                    >> (λ n. resend_timeouts t now (length n.timeout_queue) n)
                    >> pure want_continue)
                  m).1)
    tick_when-Respects true m = rules.stays m
    tick_when-Respects false m =
        bind-Respects rules (ping t now >> (λ n. resend_timeouts t now (length n.timeout_queue) n))
          (λ _. pure want_continue)
          (bind-Respects rules (ping t now)
            (λ _ n. resend_timeouts t now (length n.timeout_queue) n) ping-Respects
            (λ _ n. resend_timeouts-Respects (length n.timeout_queue) n))
          (λ _. rules.stays) m

    pub on_tick-Respects : Respects R (on_tick t now)
    unfolding on_tick
    on_tick-Respects m = tick_when-Respects m.connecting m
