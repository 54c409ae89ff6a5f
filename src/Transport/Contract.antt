-- ===== src/Transport/Contract.antt =====
-- What the task of src/transceiver/mod.rs relies on beyond the laws of `Transport`. The comments of the trait
-- of src/transport.rs promise `pre_read-ready`, `pre_write-ready` and `write-ready`: which methods never
-- return `WouldBlock`, and that a write of no bytes stands for it on request. The others are what its
-- implementations do: `flush` does not return it either, a write that would block takes no bytes, and the
-- notice of the end of TLS is not among the bytes of MQTT.
use lmc_rs.Prelude.{ℕ, ◌≡◌, ◌≢◌, Bool, true, List}
use lmc_rs.Errors.{failed, would_block}
use lmc_rs.Transport.{Transport}

pub record Honours (t : Transport) : Type 0 where
  pub pre_read-ready : (s : t.State) → (t.pre_read s).0 ≢ failed would_block
  pub pre_write-ready : (s : t.State) → (t.pre_write s).0 ≢ failed would_block
  pub write-ready : (s : t.State) (src : List ℕ) → (t.write s src true).0 ≢ failed would_block
  pub accepted-write :
      (s : t.State) (src : List ℕ) (zero_if_would_block : Bool)
      → (t.write s src zero_if_would_block).0 ≡ failed would_block
      → t.accepted (t.write s src zero_if_would_block).1 ≡ t.accepted s
  pub flush-ready : (s : t.State) → (t.flush s).0 ≢ failed would_block
  pub accepted-send_close_notify : (s : t.State) → t.accepted (t.send_close_notify s) ≡ t.accepted s
