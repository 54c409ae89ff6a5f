-- ===== src/Packets/Outgoing.antt =====
-- The packets that the client writes, and their `Encode` implementations.
pub mod Connect
pub mod Publish
pub mod Requests
pub mod Bodies
use lmc_rs.Prelude.{ℕ, ◌+◌, Option, none, some, List, length}
use lmc_rs.ByteIo.{ByteWriter, write_bytes}

-- `array_size`
unfoldable pub array_size : List ℕ → ℕ
array_size a = 2 + length a

-- `if let Some(x) = ... { ... }` on a field: nothing is written for `None`.
abbrev pub optional_size : Option (List ℕ) → ℕ
optional_size none = 0
optional_size (some x) = array_size x

abbrev pub write_optional : Option (List ℕ) → ByteWriter → Option ByteWriter
write_optional none wr = some wr
write_optional (some x) wr = write_bytes x wr
