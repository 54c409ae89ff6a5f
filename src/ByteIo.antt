-- ===== src/ByteIo.antt =====
-- src/transceiver/byte_io.rs: the reader and the writer of MQTT's data types. A byte is a number, a
-- `&str` is the list of its bytes.
pub mod Reading
pub mod Writing
use lmc_rs.Prelude.{
  ℕ, zero, suc, ◌+◌, ◌-◌, ◌*◌, ◌/◌, ◌%◌, ◌≡◌, Bool, Option, none, some, List, [], ◌∷◌, ◌++◌, ltb,
  leb, if◌then◌else◌, length, take, drop, get_or,
}
use lmc_rs.Errors.{
  PacketDecodeError, reached_end_unexpectedly, utf8_error, Decoded, ok, err, panicked,
}
use lmc_rs.Utf8.{is_utf8}

-- `BigEndian<u16>`: the two bytes that the value has in memory.
pub record BigEndian : Type 0 where
  pub first : ℕ
  pub second : ℕ

abbrev pub from_native : ℕ → BigEndian
from_native v = record { first = v / 256; second = v % 256 }

abbrev pub to_native : BigEndian → ℕ
to_native b = b.first * 256 + b.second

-- A packed `Copy` type: its size, how it is read from raw memory and the bytes that it has there.
pub record Trivial (T : Type 0) : Type 0 where
  pub size_of : ℕ
  pub from_memory : List ℕ → T
  pub to_memory : T → List ℕ
  pub length-to_memory : (t : T) → length (to_memory t) ≡ size_of
  pub from_memory-to_memory : (t : T) → from_memory (to_memory t) ≡ t

-- A method of `ByteReader`: the slice that is left comes back beside the result, also on an error.
abbrev pub Reader : Type 0 → Type 0
Reader A = List ℕ → Decoded A × List ℕ

abbrev pub continue : {A B : Type 0} → Decoded A → (A → Reader B) → Reader B
continue (ok a) f rest = f a rest
continue (err e) f rest = (err e, rest)
continue panicked f rest = (panicked, rest)

infixl 5 ◌>>=◌ ◌>>◌
abbrev pub ◌>>=◌ : {A B : Type 0} → Reader A → (A → Reader B) → Reader B
◌>>=◌ m f bytes = let (r, rest) = m bytes in continue r f rest

abbrev pub ◌>>◌ : {B : Type 0} → Reader (Unit {0}) → Reader B → Reader B
m >> k = m >>= λ _. k

abbrev pub pure : {A : Type 0} → A → Reader A
pure a bytes = (ok a, bytes)

abbrev pub raise : {A : Type 0} → PacketDecodeError → Reader A
raise e bytes = (err e, bytes)

-- `panic!`, and `assert!` on a test that fails.
abbrev pub panic : {A : Type 0} → Reader A
panic bytes = (panicked, bytes)

unfoldable pub read_u8 : Reader ℕ
read_u8 [] = (err reached_end_unexpectedly, [])
read_u8 (b ∷ rest) = (ok b, rest)

unfoldable pub read_trivial : {T : Type 0} ⦃t : Trivial T⦄ → Reader T
read_trivial ⦃t⦄ bytes =
    if ltb (length bytes) t.size_of
    then (err reached_end_unexpectedly, bytes)
    else (ok (t.from_memory (take t.size_of bytes)), drop t.size_of bytes)

abbrev pub u16_to_memory : BigEndian → List ℕ
u16_to_memory b = b.first ∷ b.second ∷ []

abbrev u16_from_memory : List ℕ → BigEndian
u16_from_memory bs = record { first = get_or bs 0 0; second = get_or bs 1 0 }

instance abbrev pub u16_trivial : Trivial BigEndian
u16_trivial = record {
  size_of = 2;
  from_memory = u16_from_memory;
  to_memory = u16_to_memory;
  length-to_memory = λ t i. 2;
  from_memory-to_memory = λ t i. t;
}

unfoldable pub read_u16 : Reader BigEndian
unfolding read_trivial
read_u16 = read_trivial

-- The second half of `read_byte_array`: the bytes behind the length.
unfoldable pub take_bytes : ℕ → Reader (List ℕ)
take_bytes len bytes =
    if ltb (length bytes) len
    then (err reached_end_unexpectedly, bytes)
    else (ok (take len bytes), drop len bytes)

unfoldable pub read_byte_array : Reader (List ℕ)
unfolding read_u16 take_bytes
read_byte_array = do len ← read_u16; take_bytes (to_native len)

unfoldable pub read_utf8 : Reader (List ℕ)
unfolding read_byte_array
read_utf8 = do slice ← read_byte_array; if is_utf8 slice then pure slice else raise utf8_error

abbrev pub remaining : Reader ℕ
remaining bytes = (ok (length bytes), bytes)

abbrev pub read_remaining : Reader (List ℕ)
read_remaining bytes = (ok bytes, [])

-- `ByteWriter`: what is written from the start of the slice, and the number of bytes left in it.
pub record ByteWriter : Type 0 where
  pub written : List ℕ
  pub space : ℕ

abbrev pub new : ℕ → ByteWriter
new len = record { written = []; space = len }

-- A write of raw bytes behind its `assert!`; `none` is a panic.
unfoldable pub write_raw : List ℕ → ByteWriter → Option ByteWriter
write_raw bytes wr =
    if leb (length bytes) wr.space
    then some (record wr { written = wr.written ++ bytes; space = wr.space - length bytes })
    else none

unfoldable pub write_trivial : {T : Type 0} ⦃t : Trivial T⦄ → T → ByteWriter → Option ByteWriter
unfolding write_raw
write_trivial ⦃t⦄ value wr = write_raw (t.to_memory value) wr

unfoldable pub write_u8 : ℕ → ByteWriter → Option ByteWriter
unfolding write_raw
write_u8 byte wr = write_raw (byte ∷ []) wr

unfoldable pub write_u16 : BigEndian → ByteWriter → Option ByteWriter
unfolding write_trivial
write_u16 value wr = write_trivial value wr

-- `u16::try_from(array_len).expect("array too wide")`, then one check and two copies.
unfoldable pub write_bytes : List ℕ → ByteWriter → Option ByteWriter
unfolding write_raw
write_bytes bytes wr =
    if leb 65536 (length bytes)
    then none
    else write_raw (u16_to_memory (from_native (length bytes)) ++ bytes) wr

unfoldable pub write_bytes_no_len : List ℕ → ByteWriter → Option ByteWriter
unfolding write_raw
write_bytes_no_len bytes wr = write_raw bytes wr

unfoldable pub finish_and_check : ByteWriter → Option (Unit {0})
finish_and_check wr = if leb wr.space 0 then some tt else none
