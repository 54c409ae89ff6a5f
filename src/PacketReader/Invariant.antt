-- ===== src/PacketReader/Invariant.antt =====
-- What holds between two calls of `recv`: the size that is stored is the one that the gathered bytes
-- spell, and no more bytes are gathered than the fixed header or the packet has.
use lmc_rs.Prelude.{
  ℕ, zero, suc, ◌+◌, ◌-◌, ◌*◌, ◌%◌, ◌^◌, ◌≤◌, ◌<◌, ◌≡◌, refl, Option, none, some, List, [], ◌∷◌,
  ◌++◌, arith, length, All, drop, max, length-drop, ◌⊎◌, inl, inr, Option-cases,
}
use native.Mathlib.Nat.{pow-le-pow_right}
use lmc_rs.Errors.{done}
use lmc_rs.ByteIo.Reading.{IsByte}
use lmc_rs.PacketReader.Length.{or_group_lem, group_fits}
use lmc_rs.Packets.Frame.{max_header_size}
use lmc_rs.PacketReader.{
  PacketReader, PacketSizeInfo, parse_length, parse_packet_size, check_size, or_group, default,
}

-- Bytes behind the length field do not change it.
pub parse_length-append :
    (bytes more : List ℕ) (pos ret shift : ℕ) (r : ℕ × ℕ)
    → parse_length bytes pos ret shift ≡ some r
    → parse_length (bytes ++ more) pos ret shift ≡ some r
unfolding parse_length
parse_length-append [] more pos ret shift r e = cc
parse_length-append (b ∷ bytes) more pos ret shift r e =
    ground (arith, parse_length-append bytes more (pos + 1) (or_group ret b shift) (shift + 7) r)

-- The offset that is found lies behind a byte at least and within the bytes.
pub parse_length_pos :
    (bytes : List ℕ) (pos ret shift value start : ℕ)
    → parse_length bytes pos ret shift ≡ some (value, start)
    → (pos < start) × (start ≤ pos + length bytes)
unfolding parse_length
parse_length_pos [] pos ret shift value start e = cc
parse_length_pos (b ∷ bytes) pos ret shift value start e =
    ground (arith, parse_length_pos bytes (pos + 1) (or_group ret b shift) (shift + 7) value start)

pow_mono : {i j : ℕ} → i ≤ j → 2 ^ i ≤ 2 ^ j
pow_mono h = pow-le-pow_right (omega arith) h

-- The value of a length field of few bytes.
parse_length-lt :
    (m : ℕ) (bytes : List ℕ) (pos ret shift value start : ℕ)
    → All IsByte bytes
    → shift + 7 * length bytes ≤ m
    → m ≤ 63
    → ret < 2 ^ shift
    → parse_length bytes pos ret shift ≡ some (value, start)
    → value < 2 ^ m
unfolding parse_length
parse_length-lt m [] pos ret shift value start hb hs hm hr e = cc
parse_length-lt m (b ∷ bytes) pos ret shift value start hb hs hm hr e =
    let next : ret + b % 128 * 2 ^ shift < 2 ^ (shift + 7) =
      group_fits (b % 128) ret shift (omega arith) hr in
    let within : 2 ^ (shift + 7) ≤ 2 ^ m = pow_mono (omega arith) in
    let word : 2 ^ m ≤ 2 ^ 63 = pow_mono hm in
    let group : or_group ret b shift ≡ ret + b % 128 * 2 ^ shift =
      or_group_lem ret b shift hb.0 hr (omega arith) in
    ground (
      arith,
      group,
      next,
      within,
      parse_length-lt m bytes (pos + 1) (or_group ret b shift) (shift + 7) value start hb.1
          (omega arith) hm (omega (arith, group, next)),
    )

-- The size that stands in a fixed header.
pub record IsSize (bytes : List ℕ) (info : PacketSizeInfo) : Type 0 where
  pub behind : 2 ≤ info.start_offset
  pub read : info.start_offset ≤ length bytes
  pub ordered : info.start_offset ≤ info.size
  pub bounded : info.size ≤ 2 ^ 28 + 5

pub All-drop : (n : ℕ) (bytes : List ℕ) → All IsByte bytes → All IsByte (drop n bytes)
All-drop zero bytes h = h
All-drop (suc n) [] h = h
All-drop (suc n) (b ∷ bytes) h = All-drop n bytes h.1

check_size-some :
    (value start : ℕ)
    → value < 2 ^ 28
    → start ≤ 5
    → check_size (some (value, start))
      ≡ done (some (record { size = value + start; start_offset = start }))
check_size-some value start hv hs = ground arith

-- Within a fixed header the size is read or bytes are missing; it is never refused as too large.
pub parse_header :
    (bytes : List ℕ)
    → All IsByte bytes
    → length bytes ≤ max_header_size
    → (parse_packet_size bytes ≡ done none)
      ⊎ ((info : PacketSizeInfo) × (parse_packet_size bytes ≡ done (some info)) × IsSize bytes info)
unfolding parse_packet_size
parse_header bytes hb hl = elim (Option-cases (parse_length (drop 1 bytes) 1 0 0)) [
  | inl e ↦ inl (rw e refl)
  | inr ((value, start), e) ↦
      let tail : length (drop 1 bytes) ≡ length bytes - 1 = length-drop 1 bytes in
      let small : value < 2 ^ 28 =
        parse_length-lt 28 (drop 1 bytes) 1 0 0 value start (All-drop 1 bytes hb) (omega arith)
          (omega arith) (omega arith) e in
      let (behind, read) = parse_length_pos (drop 1 bytes) 1 0 0 value start e in
      inr (
        record { size = value + start; start_offset = start },
        rw e (check_size-some value start small (omega arith)),
        record {
          behind = behind;
          read = omega arith;
          ordered = omega arith;
          bounded = omega arith;
        },
      )
]

-- How many bytes are gathered, and where the packet begins in them.
abbrev pub Within : List ℕ → Option PacketSizeInfo → Type 0
Within bytes none = length bytes ≤ max_header_size
Within bytes (some info) =
    (length bytes ≤ max max_header_size info.size)
    × (2 ≤ info.start_offset)
    × (info.start_offset ≤ info.size)
    × (info.start_offset ≤ length bytes)

pub record IsValid (rd : PacketReader) : Type 0 where
  pub spelled : parse_packet_size rd.bytes ≡ done rd.size
  pub within : Within rd.bytes rd.size
  pub raw : All IsByte rd.bytes

pub default-IsValid : IsValid default
unfolding parse_packet_size parse_length
default-IsValid = record { spelled = refl; within = omega arith; raw = tt }

pub parse_packet_size-append :
    (bytes more : List ℕ) (info : PacketSizeInfo)
    → 1 ≤ length bytes
    → parse_packet_size bytes ≡ done (some info)
    → parse_packet_size (bytes ++ more) ≡ done (some info)
unfolding parse_packet_size
parse_packet_size-append [] more info h e = absurd (omega arith)
parse_packet_size-append (b ∷ bytes) more info h e =
    elim (Option-cases (parse_length bytes 1 0 0)) [
      | inl missing ↦ absurd (ground arith)
      | inr (r, found) ↦ rw (parse_length-append bytes more 1 0 0 r found) (rw found at e)
    ]
