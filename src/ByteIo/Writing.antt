-- ===== src/ByteIo/Writing.antt =====
-- What the methods of `ByteWriter` put into the slice.
use lmc_rs.Prelude.{
  ℕ, ◌+◌, ◌-◌, ◌≤◌, ◌<◌, ◌≡◌, ap, Option, some, false, append-nil, List, [], ◌∷◌, ◌++◌, arith,
  append_assoc, leb, length, length-append, ◌>>=◌,
}
use lmc_rs.ByteIo.{
  BigEndian, Trivial, ByteWriter, u16_trivial, u16_to_memory, write_raw, write_trivial, write_u8,
  write_u16, write_bytes, write_bytes_no_len,
}
use lmc_rs.ByteIo.Reading.{prefixed}

-- The writer behind `bytes` more.
abbrev pub advance : ByteWriter → List ℕ → ByteWriter
advance wr bytes = record { written = wr.written ++ bytes; space = wr.space - length bytes }

-- `m` appends `bytes` wherever they fit.
pub record Writes (m : ByteWriter → Option ByteWriter) (bytes : List ℕ) : Type 0 where
  pub at : (wr : ByteWriter) → length bytes ≤ wr.space → m wr ≡ some (advance wr bytes)

pub Writes-raw : (bytes : List ℕ) → Writes (write_raw bytes) bytes
unfolding write_raw
Writes-raw bytes = record { at = λ wr h. ground arith }

pub Writes-trivial :
    {T : Type 0} ⦃t : Trivial T⦄ (value : T) → Writes (write_trivial value) (t.to_memory value)
unfolding write_trivial
Writes-trivial ⦃t⦄ value = Writes-raw (t.to_memory value)

pub Writes-u8 : (byte : ℕ) → Writes (write_u8 byte) (byte ∷ [])
unfolding write_u8
Writes-u8 byte = Writes-raw (byte ∷ [])

pub Writes-u16 : (value : BigEndian) → Writes (write_u16 value) (u16_to_memory value)
unfolding write_u16
Writes-u16 value = Writes-trivial value

pub Writes-bytes :
    (bytes : List ℕ) → length bytes < 65536 → Writes (write_bytes bytes) (prefixed bytes)
unfolding write_bytes
Writes-bytes bytes h = record {
  at = λ wr fits. rw not_wide ((Writes-raw (prefixed bytes)).at wr fits);
}
  where
    not_wide : leb 65536 (length bytes) ≡ false
    not_wide = ground arith

pub Writes-bytes_no_len : (bytes : List ℕ) → Writes (write_bytes_no_len bytes) bytes
unfolding write_bytes_no_len
Writes-bytes_no_len bytes = Writes-raw bytes

pub Writes-nothing : Writes some []
Writes-nothing = record { at = λ wr h. rw (append-nil wr.written) (ground arith) }

pub Writes-then :
    {m n : ByteWriter → Option ByteWriter} {xs ys : List ℕ}
    → Writes m xs
    → Writes n ys
    → Writes (λ wr. m wr >>= n) (xs ++ ys)
Writes-then {m} {n} {xs} {ys} wm wn = record {
  at = λ wr fits.
      let split : length (xs ++ ys) ≡ length xs + length ys = length-append xs ys in
      rw
        (wm.at wr (omega arith), wn.at (advance wr xs) (omega arith), append_assoc wr.written xs ys)
        (ap (λ (k : ℕ). some (record { written = wr.written ++ (xs ++ ys); space = k }))
          (omega arith));
}
