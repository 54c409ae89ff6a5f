-- ===== src/Tls/Fills.antt =====
-- The struct `Transport` of src/tls/mod.rs as an implementation of the trait.
use lmc_rs.Prelude.{
  subst, ℕ, ◌≤◌, ◌<◌, length, take, ◌++◌, All, zero, suc, ◌≡◌, ◌≢◌, refl, ◌∙◌, Bool, true, false,
  Option, none, some, List, append-nil, arith,
}
use lmc_rs.Errors.{IoResult, done, failed, crashed, would_block, other_error, decode_failed}
use lmc_rs.Transport.{Transport}
use lmc_rs.Transport.Contract.{Honours}
use lmc_rs.Transport.Tcp.{TcpStream}
use lmc_rs.Transport.Tcp.Fills.{Took, of_laws-Took}
use lmc_rs.Tls.{
  Connection, IoState, State, read_proxy, write_proxy, has_plaintext, process, after_read_tls,
  progress, or_would_block, wants, pre_read, read, pre_write, write, flush, send_close_notify,
}

or_would_block-Took :
    (before src next : List ℕ) (zero_if_would_block : Bool) (r : IoResult ℕ)
    → Took before src next r
    → Took before src next (or_would_block zero_if_would_block r)
or_would_block-Took before src next true (done zero) h = h
or_would_block-Took before src next false (done zero) h = h.1 ∙ append-nil before
or_would_block-Took before src next true (done (suc n)) h = ground (arith, h)
or_would_block-Took before src next false (done (suc n)) h = ground (arith, h)
or_would_block-Took before src next z (failed err) h = h
or_would_block-Took before src next z crashed h = h

or_would_block-ready :
    (r : IoResult ℕ) → r ≢ failed would_block → or_would_block true r ≢ failed would_block
or_would_block-ready (done zero) h e = cc
or_would_block-ready (done (suc n)) h e = ground (arith, e)
or_would_block-ready (failed err) h e = h e
or_would_block-ready crashed h e = cc

progress-ready : (r : IoResult ℕ) → progress r ≢ failed would_block
progress-ready (done zero) e = cc
progress-ready (done (suc n)) e = ground (arith, e)
progress-ready (failed would_block) e = cc
progress-ready (failed other_error) e = cc
progress-ready (failed (decode_failed d)) e = cc
progress-ready crashed e = cc

has_plaintext-ready : (o : Option IoState) → has_plaintext o ≢ failed would_block
has_plaintext-ready none e = cc
has_plaintext-ready (some io_state) e = cc

module _ (k : TcpStream) (c : Connection) where
  process-ready : (s : State k c) → (process k c s).0 ≢ failed would_block
  process-ready s = has_plaintext-ready (c.process_new_packets s.tls).0

  after_read_tls-ready :
      (r : IoResult ℕ) (s : State k c) → (after_read_tls k c r s).0 ≢ failed would_block
  after_read_tls-ready (done n) s e = process-ready s e
  after_read_tls-ready (failed would_block) s e = cc
  after_read_tls-ready (failed other_error) s e = process-ready s e
  after_read_tls-ready (failed (decode_failed d)) s e = process-ready s e
  after_read_tls-ready crashed s e = cc

  taken-after_read_tls :
      (r : IoResult ℕ) (s : State k c) → c.taken (after_read_tls k c r s).1.tls ≡ c.taken s.tls
  taken-after_read_tls (done n) s = c.taken-process_new_packets s.tls
  taken-after_read_tls (failed would_block) s = refl
  taken-after_read_tls (failed other_error) s = c.taken-process_new_packets s.tls
  taken-after_read_tls (failed (decode_failed d)) s = c.taken-process_new_packets s.tls
  taken-after_read_tls crashed s = refl

  pub taken-pre_read : (s : State k c) → c.taken (pre_read k c s).1.tls ≡ c.taken s.tls
  unfolding pre_read
  taken-pre_read s =
      let r = c.read_tls (read_proxy k) s.tls s.tcp in
      taken-after_read_tls r.0 (record { tcp = r.2; tls = r.1 })
      ∙ c.taken-read_tls (read_proxy k) s.tls s.tcp

  pub write-Took :
      (s : State k c) (src : List ℕ) (zero_if_would_block : Bool)
      → Took
          (c.taken s.tls)
          src
          (c.taken (write k c s src zero_if_would_block).1.tls)
          (write k c s src zero_if_would_block).0
  unfolding write
  write-Took s src z =
      let r = c.writer_write s.tls src in
      or_would_block-Took (c.taken s.tls) src (c.taken r.1) z r.0 (
        of_laws-Took (c.taken s.tls) src (c.taken r.1) r.0 (c.writer_takes s.tls src)
          (c.writer_returns s.tls src) (λ e. absurd (c.writer_ready s.tls src e)))

  pub write_takes :
      (s : State k c) (src : List ℕ) (zero_if_would_block : Bool) (n : ℕ)
      → (write k c s src zero_if_would_block).0 ≡ done n
      → (n ≤ length src)
        × (c.taken (write k c s src zero_if_would_block).1.tls ≡ c.taken s.tls ++ take n src)
  write_takes s src z n e =
      subst (Took (c.taken s.tls) src (c.taken (write k c s src z).1.tls)) e (write-Took s src z)

  pub write_returns :
      (s : State k c) (src : List ℕ) (zero_if_would_block : Bool)
      → (write k c s src zero_if_would_block).0 ≢ crashed
  write_returns s src z e =
      subst (Took (c.taken s.tls) src (c.taken (write k c s src z).1.tls)) e (write-Took s src z)

  pub read_fits :
      (s : State k c) (n : ℕ) (bytes : List ℕ)
      → (read k c s n).0 ≡ done bytes
      → (length bytes ≤ n) × All (λ b. b < 256) bytes
  unfolding read
  read_fits s = c.reader_fits s.tls

  pub read_returns : (s : State k c) (n : ℕ) → (read k c s n).0 ≢ crashed
  unfolding read
  read_returns s = c.reader_returns s.tls

  pub taken-read : (s : State k c) (n : ℕ) → c.taken (read k c s n).1.tls ≡ c.taken s.tls
  unfolding read
  taken-read s = c.taken-reader_read s.tls

  pub taken-pre_write : (s : State k c) → c.taken (pre_write k c s).1.tls ≡ c.taken s.tls
  unfolding pre_write
  taken-pre_write s = c.taken-write_tls (write_proxy k) s.tls s.tcp

  pub flush_returns : (s : State k c) → (flush k c s).0 ≢ crashed
  unfolding flush
  flush_returns s = c.flush_returns s.tls

  pub taken-flush : (s : State k c) → c.taken (flush k c s).1.tls ≡ c.taken s.tls
  unfolding flush
  taken-flush s = c.taken-writer_flush s.tls

  abbrev pub tls : Transport
  tls = record {
    State = State k c;
    read = read k c;
    write = write k c;
    flush = flush k c;
    pre_read = pre_read k c;
    pre_write = pre_write k c;
    send_close_notify = send_close_notify k c;
    wants = wants k c;
    accepted = λ s. c.taken s.tls;
    read_fits = read_fits;
    read_returns = read_returns;
    accepted-read = taken-read;
    accepted-pre_read = taken-pre_read;
    accepted-pre_write = taken-pre_write;
    write_takes = write_takes;
    write_returns = write_returns;
    flush_returns = flush_returns;
    accepted-flush = taken-flush;
  }

  -- Over any TCP stream and any TLS connection that behave as documented, the transport keeps what the
  -- task relies on: `pre_read`, `pre_write`, `flush`, and `write` where no bytes stand for it,
  -- never answer that they would block, and neither a write that would block nor the close notification
  -- takes bytes.
  pub tls-Honours : Honours tls
  unfolding pre_read pre_write write flush send_close_notify
  tls-Honours = record {
    pre_read-ready = λ s.
        let r = c.read_tls (read_proxy k) s.tls s.tcp in
        after_read_tls-ready r.0 (record { tcp = r.2; tls = r.1 });
    pre_write-ready = λ s. progress-ready (c.write_tls (write_proxy k) s.tls s.tcp).0;
    write-ready =
        λ s src. or_would_block-ready (c.writer_write s.tls src).0 (c.writer_ready s.tls src);
    accepted-write = λ s src z e.
        subst (Took (c.taken s.tls) src (c.taken (write k c s src z).1.tls)) e (write-Took s src z);
    flush-ready = λ s. c.flush_ready s.tls;
    accepted-send_close_notify = λ s. c.taken-send_close_notify s.tls;
  }
