-- ===== src/Transport/Tcp.antt =====
-- `TcpTransport` of src/transport.rs. tokio's `TcpStream` is a parameter.
pub mod Fills
use lmc_rs.Prelude.{
  ℕ, ◌≤◌, ◌<◌, ◌≡◌, ◌≢◌, Bool, true, false, List, length, take, ◌++◌, All, if◌then◌else◌,
}
use lmc_rs.Errors.{
  IoResult, done, failed, crashed, IoError, would_block, other_error, decode_failed,
}
use lmc_rs.Transport.{WantedFlags}

-- `TcpStream::try_read` and `try_write`. `sent` are the bytes that `try_write` has taken: on `Ok(n)` the first
-- `n` of the slice, and none of them when it would block.
pub record TcpStream : Type 1 where
  pub State : Type 0
  pub try_read : State → ℕ → IoResult (List ℕ) × State
  pub try_write : State → List ℕ → IoResult ℕ × State
  pub sent : State → List ℕ
  pub try_read_fits :
      (s : State) (n : ℕ) (bytes : List ℕ)
      → (try_read s n).0 ≡ done bytes
      → (length bytes ≤ n) × All (λ b. b < 256) bytes
  pub try_read_returns : (s : State) (n : ℕ) → (try_read s n).0 ≢ crashed
  pub sent-try_read : (s : State) (n : ℕ) → sent (try_read s n).1 ≡ sent s
  pub try_write_takes :
      (s : State) (src : List ℕ) (n : ℕ)
      → (try_write s src).0 ≡ done n
      → (n ≤ length src) × (sent (try_write s src).1 ≡ sent s ++ take n src)
  pub try_write_returns : (s : State) (src : List ℕ) → (try_write s src).0 ≢ crashed
  pub sent-try_write :
      (s : State) (src : List ℕ)
      → (try_write s src).0 ≡ failed would_block
      → sent (try_write s src).1 ≡ sent s

-- `err.kind() == io::ErrorKind::WouldBlock`
abbrev pub is_would_block : IoError → Bool
is_would_block would_block = true
is_would_block other_error = false
is_would_block (decode_failed e) = false

abbrev pub zero_unless : IoError → IoResult ℕ
zero_unless err = if is_would_block err then done 0 else failed err

-- The match of `write` where `zero_if_would_block` is set.
abbrev pub or_zero : IoResult ℕ → IoResult ℕ
or_zero (done n) = done n
or_zero (failed err) = zero_unless err
or_zero crashed = crashed

module _ (k : TcpStream) where
  unfoldable pub wants : k.State → Bool → Bool → WantedFlags
  wants s rd_hint wr_hint = record { read = rd_hint; write = wr_hint }

  unfoldable pub pre_read : k.State → IoResult Bool × k.State
  pre_read s = (done true, s)

  unfoldable pub read : k.State → ℕ → IoResult (List ℕ) × k.State
  read s n = k.try_read s n

  unfoldable pub pre_write : k.State → IoResult (Unit {0}) × k.State
  pre_write s = (done tt, s)

  unfoldable pub write : k.State → List ℕ → Bool → IoResult ℕ × k.State
  write s src zero_if_would_block =
      let r = k.try_write s src in if zero_if_would_block then (or_zero r.0, r.1) else r

  unfoldable pub flush : k.State → IoResult (Unit {0}) × k.State
  flush s = (done tt, s)

  unfoldable pub send_close_notify : k.State → k.State
  send_close_notify s = s
