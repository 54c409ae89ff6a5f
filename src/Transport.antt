-- ===== src/Transport.antt =====
-- The trait `Transport` of src/transport.rs, an interface of the code that reads and writes; the laws are
-- the documented behaviour of its methods. Transport.Tcp and Tls fill it.
pub mod Contract
pub mod Tcp
use lmc_rs.Prelude.{ℕ, ◌≤◌, ◌<◌, ◌≡◌, ◌≢◌, Bool, List, length, take, ◌++◌, All}
use lmc_rs.Errors.{IoResult, done, crashed}

pub record WantedFlags : Type 0 where
  pub read : Bool
  pub write : Bool

-- `accepted` are the bytes that `write` has taken so far. `read s n` is given a slice of `n` bytes and
-- the result holds the bytes that it puts there.
pub record Transport : Type 1 where
  pub State : Type 0
  pub read : State → ℕ → IoResult (List ℕ) × State
  pub write : State → List ℕ → Bool → IoResult ℕ × State
  pub flush : State → IoResult (Unit {0}) × State
  pub pre_read : State → IoResult Bool × State
  pub pre_write : State → IoResult (Unit {0}) × State
  pub send_close_notify : State → State
  pub wants : State → Bool → Bool → WantedFlags
  pub accepted : State → List ℕ
  pub read_fits :
      (s : State) (n : ℕ) (bytes : List ℕ)
      → (read s n).0 ≡ done bytes
      → (length bytes ≤ n) × All (λ b. b < 256) bytes
  pub read_returns : (s : State) (n : ℕ) → (read s n).0 ≢ crashed
  pub accepted-read : (s : State) (n : ℕ) → accepted (read s n).1 ≡ accepted s
  pub accepted-pre_read : (s : State) → accepted (pre_read s).1 ≡ accepted s
  pub accepted-pre_write : (s : State) → accepted (pre_write s).1 ≡ accepted s
  pub write_takes :
      (s : State) (src : List ℕ) (zero_if_would_block : Bool) (n : ℕ)
      → (write s src zero_if_would_block).0 ≡ done n
      → (n ≤ length src) × (accepted (write s src zero_if_would_block).1 ≡ accepted s ++ take n src)
  pub write_returns :
      (s : State) (src : List ℕ) (zero_if_would_block : Bool)
      → (write s src zero_if_would_block).0 ≢ crashed
  pub flush_returns : (s : State) → (flush s).0 ≢ crashed
  pub accepted-flush : (s : State) → accepted (flush s).1 ≡ accepted s
