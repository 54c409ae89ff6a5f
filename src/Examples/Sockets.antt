-- ===== src/Examples/Sockets.antt =====
-- A socket, and a TLS connection that has met the end of its stream.
use lmc_rs.Prelude.{ℕ, List, ◌∷◌, ◌≢◌, ◌≤◌, ◌<◌, length, All, ◌≡◌, refl, true, false, [], some}
use lmc_rs.Errors.{IoResult, done, failed, crashed, would_block}
use lmc_rs.Transport.Contract.{Honours}
use lmc_rs.Transport.Tcp.{TcpStream}
use lmc_rs.Tls.{Connection, Secured}
use lmc_rs.Tls.Fills.{tls, tls-Honours}
use lmc_rs.Tls.Silent.{some_bytes, task_step-silent}
use lmc_rs.Transceiver.State.{Transceiver}
use lmc_rs.Transceiver.Step.{want_continue}
use lmc_rs.Transceiver.Task.{readable, task_step}
use lmc_rs.Examples.Scripted.{Script, script}
use lmc_rs.Examples.States.{working, channels}

-- A socket without input would block.
abbrev pub read_at : List ℕ → Script → ℕ → IoResult (List ℕ) × Script
read_at [] s n = (failed would_block, s)
read_at (b ∷ bs) s n = script.read s n

pub read_at_fits :
    (xs : List ℕ) (s : Script) (n : ℕ) (bytes : List ℕ)
    → (read_at xs s n).0 ≡ done bytes
    → (length bytes ≤ n) × All (λ b. b < 256) bytes
read_at_fits [] s n bytes e = absurd cc
read_at_fits (x ∷ xs) s n bytes e = script.read_fits s n bytes e

pub read_at_returns : (xs : List ℕ) (s : Script) (n : ℕ) → (read_at xs s n).0 ≢ crashed
read_at_returns [] s n e = cc
read_at_returns (x ∷ xs) s n e = cc

pub sent-read_at : (xs : List ℕ) (s : Script) (n : ℕ) → (read_at xs s n).1.output ≡ s.output
sent-read_at [] s n = refl
sent-read_at (x ∷ xs) s n = refl

abbrev pub socket : TcpStream
socket = record {
  State = Script;
  try_read = λ s n. read_at s.input s n;
  try_write = λ s src. script.write s src false;
  sent = script.accepted;
  try_read_fits = λ s n. read_at_fits s.input s n;
  try_read_returns = λ s n. read_at_returns s.input s n;
  sent-try_read = λ s n. sent-read_at s.input s n;
  try_write_takes = λ s src. script.write_takes s src false;
  try_write_returns = λ s src. script.write_returns s src false;
  sent-try_write = λ s src e. absurd cc;
}

abbrev connection : Connection
connection = record {
  State = Script;
  wants_read = λ s. true;
  wants_write = λ s. false;
  read_tls = λ rd s r. (done 0, s, r);
  write_tls = λ wr s w. (done 1, s, w);
  process_new_packets = λ s. (some (record { plaintext_bytes_to_read = 0 }), s);
  reader_read = script.read;
  writer_write = λ s src. script.write s src false;
  writer_flush = script.flush;
  send_close_notify = λ s. s;
  taken = script.accepted;
  reader_fits = script.read_fits;
  reader_returns = script.read_returns;
  writer_takes = λ s src. script.write_takes s src false;
  writer_returns = λ s src. script.write_returns s src false;
  writer_ready = λ s src e. absurd cc;
  flush_returns = script.flush_returns;
  flush_ready = λ s e. absurd cc;
  taken-send_close_notify = λ s. refl;
  taken-reader_read = script.accepted-read;
  taken-writer_flush = λ s. refl;
  taken-process_new_packets = λ s. refl;
  taken-read_tls = λ rd s r. refl;
  taken-write_tls = λ wr s w. refl;
}

tls-Honours_example : Honours (tls socket connection)
tls-Honours_example = tls-Honours socket connection

abbrev nothing : Script
nothing = record { input = []; output = [] }

-- A task over that connection, whose other fields are those of another.
abbrev secured : Transceiver (Secured Script Script)
secured = record {
  transport = record { tcp = nothing; tls = nothing };
  outbox = working.outbox;
  pending_packets = working.pending_packets;
  pending_subs = working.pending_subs;
  rx_pkt = working.rx_pkt;
  connecting = working.connecting;
  ping_interval = working.ping_interval;
  last_tx = working.last_tx;
  timeout_queue = working.timeout_queue;
  shared = working.shared;
  subscriptions = working.subscriptions;
  disconnect_sent = working.disconnect_sent;
  cmd_queue_closed = working.cmd_queue_closed;
  ping_req = working.ping_req;
  packet_resend_delay = working.packet_resend_delay;
  log = working.log;
}

task_step-silent_example :
    task_step (tls socket connection) channels 9 100 (readable (done tt)) secured
    ≡ some (done want_continue, secured)
task_step-silent_example =
    task_step-silent socket connection channels 9 100 secured (done 0, nothing, nothing)
      (record { plaintext_bytes_to_read = 0 }) nothing refl (some_bytes 0) refl refl
