-- ===== src/Tls.antt =====
-- src/tls/mod.rs: the `Transport` that puts TLS over TCP. rustls' `ConnectionCommon` is a parameter.
pub mod Fills
pub mod Silent
pub mod ClientAuth
use lmc_rs.Prelude.{
  ℕ, ◌≤◌, ◌<◌, ◌≡◌, ◌≢◌, Bool, false, Option, none, some, List, length, take, ◌++◌, All, ltb, leb,
  ◌&&◌, not, if◌then◌else◌,
}
use lmc_rs.Errors.{IoResult, done, failed, crashed, IoError, would_block, other_error}
use lmc_rs.Transport.{WantedFlags}
use lmc_rs.Transport.Tcp.{TcpStream, is_would_block}

-- `io::Read` and `io::Write` of something that keeps a state.
pub record Read (R : Type 0) : Type 0 where
  pub read : R → ℕ → IoResult (List ℕ) × R

pub record Write (W : Type 0) : Type 0 where
  pub write : W → List ℕ → IoResult ℕ × W
  pub flush : W → IoResult (Unit {0}) × W

-- `TryRWProxy`
abbrev pub read_proxy : (k : TcpStream) → Read k.State
read_proxy k = record { read = k.try_read }

abbrev pub write_proxy : (k : TcpStream) → Write k.State
write_proxy k = record { write = k.try_write; flush = λ s. (done tt, s) }

-- `rustls::IoState`
pub record IoState : Type 0 where
  pub plaintext_bytes_to_read : ℕ

-- `ConnectionCommon`: `reader_read` is `reader().read`, and `writer_write` and `writer_flush` are those of
-- `writer()`. An error of `process_new_packets` is `none`. `taken` is the plaintext that the writer has taken;
-- it takes what its buffer has room for, and never answers that it would block.
pub record Connection : Type 1 where
  pub State : Type 0
  pub wants_read : State → Bool
  pub wants_write : State → Bool
  pub read_tls : {R : Type 0} → Read R → State → R → IoResult ℕ × State × R
  pub write_tls : {W : Type 0} → Write W → State → W → IoResult ℕ × State × W
  pub process_new_packets : State → Option IoState × State
  pub reader_read : State → ℕ → IoResult (List ℕ) × State
  pub writer_write : State → List ℕ → IoResult ℕ × State
  pub writer_flush : State → IoResult (Unit {0}) × State
  pub send_close_notify : State → State
  pub taken : State → List ℕ
  pub reader_fits :
      (s : State) (n : ℕ) (bytes : List ℕ)
      → (reader_read s n).0 ≡ done bytes
      → (length bytes ≤ n) × All (λ b. b < 256) bytes
  pub reader_returns : (s : State) (n : ℕ) → (reader_read s n).0 ≢ crashed
  pub writer_takes :
      (s : State) (src : List ℕ) (n : ℕ)
      → (writer_write s src).0 ≡ done n
      → (n ≤ length src) × (taken (writer_write s src).1 ≡ taken s ++ take n src)
  pub writer_returns : (s : State) (src : List ℕ) → (writer_write s src).0 ≢ crashed
  pub writer_ready : (s : State) (src : List ℕ) → (writer_write s src).0 ≢ failed would_block
  pub flush_returns : (s : State) → (writer_flush s).0 ≢ crashed
  pub flush_ready : (s : State) → (writer_flush s).0 ≢ failed would_block
  pub taken-send_close_notify : (s : State) → taken (send_close_notify s) ≡ taken s
  pub taken-reader_read : (s : State) (n : ℕ) → taken (reader_read s n).1 ≡ taken s
  pub taken-writer_flush : (s : State) → taken (writer_flush s).1 ≡ taken s
  pub taken-process_new_packets : (s : State) → taken (process_new_packets s).1 ≡ taken s
  pub taken-read_tls :
      {R : Type 0} (rd : Read R) (s : State) (r : R) → taken (read_tls rd s r).1 ≡ taken s
  pub taken-write_tls :
      {W : Type 0} (wr : Write W) (s : State) (w : W) → taken (write_tls wr s w).1 ≡ taken s

-- The struct `Transport`.
pub record Secured (T K : Type 0) : Type 0 where
  pub tcp : K
  pub tls : T

-- The result of `process_new_packets`, whose error is wrapped with the kind `Other`.
abbrev pub has_plaintext : Option IoState → IoResult Bool
has_plaintext none = failed other_error
has_plaintext (some io_state) = done (ltb 0 io_state.plaintext_bytes_to_read)

-- `Err(WouldBlock)`
abbrev pub blocks : {A : Type 0} → IoResult A → Bool
blocks (done x) = false
blocks (failed err) = is_would_block err
blocks crashed = false

-- The match of `pre_write`.
abbrev pub progress : IoResult ℕ → IoResult (Unit {0})
progress (done written) = if leb written 0 then failed other_error else done tt
progress (failed err) = if is_would_block err then done tt else failed err
progress crashed = crashed

-- What `write` makes of the writer's result.
abbrev pub or_would_block : Bool → IoResult ℕ → IoResult ℕ
or_would_block zero_if_would_block (done written) =
    if leb written 0 && not zero_if_would_block then failed would_block else done written
or_would_block zero_if_would_block (failed err) = failed err
or_would_block zero_if_would_block crashed = crashed

module _ (k : TcpStream) (c : Connection) where
  abbrev pub State : Type 0
  State = Secured c.State k.State

  unfoldable pub wants : State → Bool → Bool → WantedFlags
  wants s _rd_hint _wr_hint = record { read = c.wants_read s.tls; write = c.wants_write s.tls }

  abbrev pub process : State → IoResult Bool × State
  process s = let r = c.process_new_packets s.tls in (has_plaintext r.0, record s { tls = r.1 })

  -- A panic of `read_tls` unwinds.
  abbrev pub after_read_tls : IoResult ℕ → State → IoResult Bool × State
  after_read_tls crashed s = (crashed, s)
  after_read_tls (done n) s = process s
  after_read_tls (failed err) s = if is_would_block err then (done false, s) else process s

  unfoldable pub pre_read : State → IoResult Bool × State
  pre_read s =
      let r = c.read_tls (read_proxy k) s.tls s.tcp in
      after_read_tls r.0 (record { tcp = r.2; tls = r.1 })

  unfoldable pub read : State → ℕ → IoResult (List ℕ) × State
  read s n = let r = c.reader_read s.tls n in (r.0, record s { tls = r.1 })

  unfoldable pub pre_write : State → IoResult (Unit {0}) × State
  pre_write s =
      let r = c.write_tls (write_proxy k) s.tls s.tcp in
      (progress r.0, record { tcp = r.2; tls = r.1 })

  unfoldable pub write : State → List ℕ → Bool → IoResult ℕ × State
  write s src zero_if_would_block =
      let r = c.writer_write s.tls src in
      (or_would_block zero_if_would_block r.0, record s { tls = r.1 })

  unfoldable pub flush : State → IoResult (Unit {0}) × State
  flush s = let r = c.writer_flush s.tls in (r.0, record s { tls = r.1 })

  unfoldable pub send_close_notify : State → State
  send_close_notify s = record s { tls = c.send_close_notify s.tls }
