-- ===== src/Tls/Silent.antt =====
-- The task of src/transceiver/mod.rs over the `Transport` of src/tls/mod.rs, where the socket is at its end
-- or broken.
use lmc_rs.Prelude.{ℕ, ◌≡◌, refl, ap, ◌∙◌, Bool, false, Option, some, arith}
use lmc_rs.Errors.{IoResult, done, failed, IoError}
use lmc_rs.Transport.Tcp.{TcpStream, is_would_block}
use lmc_rs.Subscription.Receivers.{Channels}
use lmc_rs.Transceiver.State.{Transceiver}
use lmc_rs.Transceiver.Step.{want_continue}
use lmc_rs.Transceiver.Step.Reach.{with_read}
use lmc_rs.Transceiver.Task.{readable, task_step, read_prepared}
use lmc_rs.Tls.{
  Connection, State, read_proxy, has_plaintext, process, after_read_tls, pre_read, IoState,
}
use lmc_rs.Tls.Fills.{tls}

-- Bytes, none at the end of the stream, or an error that is not that it would block.
pub data Heard : IoResult ℕ → Type 0 where
  some_bytes : (n : ℕ) → Heard (done n)
  broken : (e : IoError) → is_would_block e ≡ false → Heard (failed e)

module _ (k : TcpStream) (c : Connection) where
  after_read_tls-process :
      (r : IoResult ℕ) (s : State k c) → Heard r → after_read_tls k c r s ≡ process k c s
  after_read_tls-process _ s (some_bytes n) = refl
  after_read_tls-process _ s (broken e h) = rw h refl

  pre_read-silent :
      (s : State k c) (r : IoResult ℕ × c.State × k.State) (io : IoState) (state : c.State)
      → c.read_tls (read_proxy k) s.tls s.tcp ≡ r
      → Heard r.0
      → c.process_new_packets r.1 ≡ (some io, state)
      → io.plaintext_bytes_to_read ≡ 0
      → pre_read k c s ≡ (done false, record { tcp = r.2; tls = state })
  unfolding pre_read
  pre_read-silent s r io state e h p z =
      ap
        (λ (x : IoResult ℕ × c.State × k.State).
          after_read_tls k c x.0 (record { tcp = x.2; tls = x.1 }))
        e
      ∙ after_read_tls-process r.0 (record { tcp = r.2; tls = r.1 }) h
      ∙ ap (λ (x : Option IoState × c.State). (has_plaintext x.0, record { tcp = r.2; tls = x.1 }))
          p
      ∙ ap (λ (b : Bool). (done b, record { tcp = r.2; tls = state })) (ground (arith, z))

  -- Where the socket of a TLS connection is readable and `read_tls` meets the end of the stream, or an error
  -- that is not that it would block, but no plaintext is left to read: the turn is not an error, the task
  -- goes on, and nothing but the transport has changed, so that it does not learn that the connection is
  -- gone.
  pub task_step-silent :
      (channels : Channels) (fuel now : ℕ) (m : Transceiver (State k c))
      (r : IoResult ℕ × c.State × k.State) (io : IoState) (state : c.State)
      → c.read_tls (read_proxy k) m.transport.tls m.transport.tcp ≡ r
      → Heard r.0
      → c.process_new_packets r.1 ≡ (some io, state)
      → io.plaintext_bytes_to_read ≡ 0
      → task_step (tls k c) channels fuel now (readable (done tt)) m
        ≡ some (done want_continue, record m { transport = record { tcp = r.2; tls = state } })
  unfolding task_step
  task_step-silent channels fuel now m r io state e h p z =
      ap
        (λ (x : IoResult Bool × State k c).
          read_prepared (tls k c) channels fuel now x.0 (with_read m.rx_pkt x.1 m))
        (pre_read-silent m.transport r io state e h p z)
