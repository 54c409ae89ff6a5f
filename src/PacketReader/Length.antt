-- ===== src/PacketReader/Length.antt =====
-- The length field: `parse_packet_size` reads what `encode_packet_size` writes.
use lmc_rs.Prelude.{
  ℕ, zero, suc, ◌+◌, ◌*◌, ◌/◌, ◌%◌, ◌^◌, ◌<◌, ◌≡◌, refl, ◌∙◌, some, List, ◌∷◌, ◌++◌, arith, length,
  bit_and,
}
use native.Mathlib.Nat.{mod-eq_of_lt}
use native.Mathlib.Numerals.{towards_suc}
use lmc_rs.Prelude.Bits.{low_bits, top_bit, bit_or_shifted}
use lmc_rs.PacketReader.{parse_length, or_group}
use lmc_rs.Packets.Frame.Size.{size_field}

pub or_group_lem :
    (ret b shift : ℕ)
    → b < 256
    → ret < 2 ^ shift
    → b % 128 * 2 ^ shift < 2 ^ 64
    → or_group ret b shift ≡ ret + b % 128 * 2 ^ shift
or_group_lem ret b shift hb hr fits =
    rw (low_bits b hb, mod-eq_of_lt fits) (bit_or_shifted shift ret (b % 128) hr)

-- One round on a last byte, and on a byte with the top bit set over the group `g`.
parse_length-last :
    (w pos ret shift : ℕ) (rest : List ℕ)
    → w < 128
    → ret < 2 ^ shift
    → w * 2 ^ shift < 2 ^ 64
    → parse_length (w ∷ rest) pos ret shift ≡ some (ret + w * 2 ^ shift, pos + 1)
unfolding parse_length
parse_length-last w pos ret shift rest hw hr fits =
    let small : w % 128 ≡ w = omega arith in
    let group : or_group ret w shift ≡ ret + w * 2 ^ shift =
      or_group_lem ret w shift (omega arith) hr (rw small fits) ∙ rw small refl in
    let top : bit_and w 0x80 ≡ 0 = omega (arith, top_bit w (omega arith)) in rw (top, group) refl

parse_length-more :
    (g pos ret shift : ℕ) (rest : List ℕ)
    → g < 128
    → ret < 2 ^ shift
    → g * 2 ^ shift < 2 ^ 64
    → parse_length ((g + 128) ∷ rest) pos ret shift
      ≡ parse_length rest (pos + 1) (ret + g * 2 ^ shift) (shift + 7)
unfolding parse_length
parse_length-more g pos ret shift rest hg hr fits =
    let small : (g + 128) % 128 ≡ g = omega arith in
    let group : or_group ret (g + 128) shift ≡ ret + g * 2 ^ shift =
      or_group_lem ret (g + 128) shift (omega arith) hr (rw small fits) ∙ rw small refl in
    let top : bit_and (g + 128) 0x80 ≡ 128 = omega (arith, top_bit (g + 128) (omega arith)) in
    rw (top, group) refl

next_shift : (shift : ℕ) → 2 ^ (shift + 7) ≡ 2 ^ shift * 128
next_shift shift = simp towards_suc (omega arith)

-- The value is its low group, and the other groups one shift further on.
groups_sum :
    (value shift : ℕ) → value % 128 * 2 ^ shift + value / 128 * 2 ^ (shift + 7) ≡ value * 2 ^ shift
groups_sum value shift =
    let whole : value / 128 * 128 + value % 128 ≡ value = omega arith in
    let scaled : (value / 128 * 128 + value % 128) * 2 ^ shift ≡ value * 2 ^ shift =
      rw whole refl in
    rw next_shift (omega (arith, scaled))

-- The low group stays below the next shift.
pub group_fits : (g ret s : ℕ) → g < 128 → ret < 2 ^ s → ret + g * 2 ^ s < 2 ^ (s + 7)
group_fits g ret s hg hr = rw (next_shift s) (grind arith)

-- A length that `encode_packet_size` wrote is read back, whatever follows.
pub parse_length-size_field :
    (k v pos ret shift : ℕ) (rest : List ℕ)
    → v < 128 ^ suc k
    → ret < 2 ^ shift
    → v * 2 ^ shift < 2 ^ 64
    → parse_length (size_field k v ++ rest) pos ret shift
      ≡ some (ret + v * 2 ^ shift, pos + length (size_field k v))
unfolding size_field
parse_length-size_field zero v pos ret shift rest hv hr fits =
    let small : v % 128 ≡ v = omega arith in
    rw small (parse_length-last v pos ret shift rest (omega arith) hr fits)
parse_length-size_field (suc k) v pos ret shift rest hv hr fits = ground (
  arith,
  parse_length-last v pos ret shift rest,
  groups_sum v shift,
  parse_length-more (v % 128) pos ret shift (size_field k (v / 128) ++ rest),
  group_fits (v % 128) ret shift,
  parse_length-size_field k (v / 128) (pos + 1) (ret + v % 128 * 2 ^ shift) (shift + 7) rest
      (omega arith),
)
