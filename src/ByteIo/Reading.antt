-- ===== src/ByteIo/Reading.antt =====
-- What the methods of `ByteReader` do on the bytes that stand for a value, and on any bytes.
use lmc_rs.Prelude.{
  ℕ, ◌+◌, ◌*◌, ◌≤◌, ◌<◌, ◌≡◌, sym, ◌∙◌, true, List, [], ◌∷◌, ◌++◌, arith, length, All,
  length-append, take_append, drop_append, take-append-drop, length-take, le→ltb_false,
}
use lmc_rs.Errors.{ok}
use lmc_rs.Utf8.{is_utf8}
use lmc_rs.ByteIo.{
  BigEndian, from_native, to_native, Trivial, read_trivial, u16_trivial, u16_to_memory, read_u16,
  take_bytes, read_byte_array, read_utf8,
}

abbrev pub IsByte : ℕ → Type 0
IsByte b = b < 256

-- A byte array behind its length.
abbrev pub prefixed : List ℕ → List ℕ
prefixed bytes = u16_to_memory (from_native (length bytes)) ++ bytes

pub to_native-from_native : (v : ℕ) → to_native (from_native v) ≡ v
to_native-from_native v = omega arith

pub read_trivial-append :
    {T : Type 0} ⦃t : Trivial T⦄ (value : T) (rest : List ℕ)
    → read_trivial (t.to_memory value ++ rest) ≡ (ok value, rest)
unfolding read_trivial
read_trivial-append {T} ⦃t⦄ value rest = rw (← t.length-to_memory value) (
    rw (
      le→ltb_false (length (t.to_memory value ++ rest)) (length (t.to_memory value)) fits,
      take_append (t.to_memory value) rest,
      drop_append (t.to_memory value) rest,
      t.from_memory-to_memory value,
    ))
  where
    fits : length (t.to_memory value) ≤ length (t.to_memory value ++ rest)
    fits = omega (arith, length-append (t.to_memory value) rest)

pub read_u16-append :
    (b : BigEndian) (rest : List ℕ) → read_u16 (u16_to_memory b ++ rest) ≡ (ok b, rest)
unfolding read_u16
read_u16-append b rest = read_trivial-append b rest

pub take_bytes-append :
    (bytes rest : List ℕ) → take_bytes (length bytes) (bytes ++ rest) ≡ (ok bytes, rest)
unfolding take_bytes
take_bytes-append bytes rest = rw (
  le→ltb_false (length (bytes ++ rest)) (length bytes) (omega (arith, length-append bytes rest)),
  take_append bytes rest,
  drop_append bytes rest,
)

read_byte_array_step :
    (b : BigEndian) (more : List ℕ)
    → read_byte_array (u16_to_memory b ++ more) ≡ take_bytes (to_native b) more
unfolding read_byte_array
read_byte_array_step b more = rw (read_u16-append b more)

pub read_byte_array-append :
    (bytes rest : List ℕ) → read_byte_array (prefixed bytes ++ rest) ≡ (ok bytes, rest)
read_byte_array-append bytes rest = rw (
  read_byte_array_step (from_native (length bytes)) (bytes ++ rest),
  to_native-from_native (length bytes),
  take_bytes-append bytes rest,
)

pub read_utf8-append :
    (text rest : List ℕ) → is_utf8 text ≡ true → read_utf8 (prefixed text ++ rest) ≡ (ok text, rest)
unfolding read_utf8
read_utf8-append text rest h = rw (read_byte_array-append text rest, h)

take_bytes_inv :
    (len : ℕ) (bytes : List ℕ) {array rest : List ℕ}
    → take_bytes len bytes ≡ (ok array, rest)
    → (bytes ≡ array ++ rest) × (length array ≡ len)
unfolding take_bytes
take_bytes_inv len bytes e = ground (arith, take-append-drop len bytes, length-take len bytes)

-- A successful read of an array took exactly the bytes that stand for it.
pub read_byte_array_inv :
    (bytes : List ℕ) {array rest : List ℕ}
    → All IsByte bytes
    → read_byte_array bytes ≡ (ok array, rest)
    → bytes ≡ prefixed array ++ rest
unfolding read_byte_array
read_byte_array_inv [] h e = ground arith
read_byte_array_inv (a ∷ []) h e = ground arith
read_byte_array_inv (a ∷ b ∷ more) {array} {rest} h e =
    let (split, len) =
      take_bytes_inv (a * 256 + b) more
        (sym (read_byte_array_step (record { first = a; second = b }) more) ∙ e) in
    rw (split, len) (ground arith)
