-- ===== src/Transceiver/Step/Runs.antt =====
-- What the runs of the task of src/transceiver/mod.rs keep.
use lmc_rs.Prelude.{◌≡◌, ap, subst, List}
use lmc_rs.Transport.{Transport}
use lmc_rs.Packets.Incoming.{
  IncomingPacket, conn_ack, sub_ack, publish, acked, received, released, completed, unsubscribed,
  ping_resp,
}
use lmc_rs.Subscription.Receivers.{Channels}
use lmc_rs.Transceiver.Ids.{id_eq}
use lmc_rs.Transceiver.State.{Transceiver}
use lmc_rs.Transceiver.Process.Respects.{process_packet-Respects, Allowed}
use lmc_rs.Transceiver.Process.Timeouts
use lmc_rs.Transceiver.Process.Timeouts.{Covered}
use lmc_rs.Transceiver.Step.{want_continue}
use lmc_rs.Transceiver.Step.Rules.{on_command-Respects}
use lmc_rs.Transceiver.Step.Cover
use lmc_rs.Transceiver.Step.Cover.{on_tick-Covered}
use lmc_rs.Transceiver.Step.Reach.{
  Event, Step, read_ready, read_packet, read_part, read_blocked, write_all, write_blocked, obey,
  tick, Run, rests, steps, with_read,
}

pub allowed : (pkt : IncomingPacket) → Allowed (λ _. Unit) (λ _. Unit) pkt
allowed (conn_ack r) = tt
allowed (sub_ack a) = tt
allowed (publish msg) = tt
allowed (acked p) = tt
allowed (received p) = tt
allowed (released p) = tt
allowed (completed p) = tt
allowed (unsubscribed p) = tt
allowed ping_resp = tt

pub state_of : {A B : Type 0} {r : A × B} {a : A} {b : B} → r ≡ (a, b) → r.1 ≡ b
state_of e = ap (λ x. x.1) e

result_of : {A B : Type 0} {r : A × B} {a : A} {b : B} → r ≡ (a, b) → r.0 ≡ a
result_of e = ap (λ x. x.0) e

module _ {t : Transport} {c : Channels} where
  Step-Covered : (e : Event) (m n : Transceiver t.State) → Step t c e m n → Covered m → Covered n
  Step-Covered _ _ _ (read_ready m) h = h
  Step-Covered _ _ _ (read_packet now m n rx s pkt r p) h =
      subst Covered (state_of p)
        (process_packet-Respects (Timeouts.rules t c) now pkt (allowed pkt) (with_read rx s m) h)
  Step-Covered _ _ _ (read_part m rx s r) h = h
  Step-Covered _ _ _ (read_blocked m rx s r) h = h
  Step-Covered _ _ _ (write_all m fuel last_tx o s r) h = h
  Step-Covered _ _ _ (write_blocked m fuel last_tx o s r) h = h
  Step-Covered _ _ _ (obey now m n cmd closed connecting idle r) h =
      subst Covered (state_of r)
        (on_command-Respects (Timeouts.rules t c) (Cover.rest t) now cmd m h)
  Step-Covered _ _ _ (tick now m n r) h =
      subst Covered (state_of r) (on_tick-Covered t now c m want_continue h (result_of r))

  -- The packets that wait for an answer all have a timeout after a run, if they have one before: whatever
  -- the run reads, writes, is ordered to do or sends again. (Only SUBSCRIBE packets wait elsewhere.)
  pub Run-Covered :
      (es : List Event) (m n : Transceiver t.State) → Run t c es m n → Covered m → Covered n
  Run-Covered _ _ _ (rests m) h = h
  Run-Covered _ _ _ (steps e es m n o s r) h = Run-Covered es n o r (Step-Covered e m n s h)
