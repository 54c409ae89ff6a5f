-- ===== src/Transceiver/Step/Once.antt =====
-- The second quality of service over the runs of the task of src/transceiver/mod.rs.
use lmc_rs.Prelude.{if◌then◌else◌, ◌+◌, ℕ, suc, ◌≤◌, subst, List, All, arith}
use lmc_rs.Transport.{Transport}
use lmc_rs.Subscription.Receivers.{Channels}
use lmc_rs.Transceiver.Ids.{id_eq}
use lmc_rs.Transceiver.State.{Transceiver}
use lmc_rs.Transceiver.Sending.{try_send_packet}
use lmc_rs.Transceiver.Process.ExactlyOnce.{times, held, Falls, rules}
use lmc_rs.Transceiver.Process.Repeats.{NotReleased, process_packet-Falls}
use lmc_rs.Transceiver.Step.Rules.{RestRules, on_command-Respects}
use lmc_rs.Transceiver.Step.Ticks.{on_tick-Respects}
use lmc_rs.Transceiver.Step.Runs.{state_of}
use lmc_rs.Transceiver.Step.Reach.{
  Event, got, Step, read_ready, read_packet, read_part, read_blocked, write_all, write_blocked,
  obey, tick, Run, rests, steps, with_read,
}

-- An event that does not end the exchange of an identifier: every one but its PUBREL.
abbrev pub Unreleased : ℕ → Event → Type 0
Unreleased id (got pkt) = NotReleased id pkt
Unreleased id _ = Unit

rest : (t : Transport) (id : ℕ) → RestRules t (Falls id)
unfolding try_send_packet
rest t id = record {
  tries = λ bytes set_dup m. omega arith;
  grows = λ to m. omega arith;
  ignores = λ rx subs shared n closed last_tx m. omega arith;
}

module _ {t : Transport} {c : Channels} where
  Step-Falls :
      (id : ℕ) (e : Event) (m n : Transceiver t.State)
      → Step t c e m n
      → Unreleased id e
      → Falls id m n
  Step-Falls id _ _ _ (read_ready m) h = omega arith
  Step-Falls id _ _ _ (read_packet now m n rx s pkt r p) h =
      subst (Falls id m) (state_of p) (process_packet-Falls t c now id pkt (with_read rx s m) h)
  Step-Falls id _ _ _ (read_part m rx s r) h = omega arith
  Step-Falls id _ _ _ (read_blocked m rx s r) h = omega arith
  Step-Falls id _ _ _ (write_all m fuel last_tx o s r) h = omega arith
  Step-Falls id _ _ _ (write_blocked m fuel last_tx o s r) h = omega arith
  Step-Falls id _ _ _ (obey now m n cmd closed connecting idle r) h =
      subst (Falls id m) (state_of r) (on_command-Respects (rules t c id) (rest t id) now cmd m)
  Step-Falls id _ _ _ (tick now m n r) h =
      subst (Falls id m) (state_of r)
        (on_tick-Respects (rules t c id) (rest t id) now (λ ts m. omega arith) m)

  Run-Falls :
      (id : ℕ) (es : List Event) (m n : Transceiver t.State)
      → Run t c es m n
      → All (Unreleased id) es
      → Falls id m n
  Run-Falls id _ _ _ (rests m) h = omega arith
  Run-Falls id _ _ _ (steps e es m n o s r) h =
      omega (arith, Step-Falls id e m n s h.0, Run-Falls id es n o r h.1)

  -- Until the PUBREL of an identifier is read, a run hands at most one message with the second quality of
  -- service and that identifier to the subscriptions, however often it is read; it hands none where the
  -- PUBREC of the message is stored already.
  pub Run-times :
      (id : ℕ) (es : List Event) (m n : Transceiver t.State)
      → Run t c es m n
      → All (Unreleased id) es
      → times id n.log + (if held id m then 1 else 0) ≤ suc (times id m.log)
  Run-times id es m n r h = ground (arith, Run-Falls id es m n r h)
