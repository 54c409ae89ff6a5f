-- ===== src/PacketReader/Prefixes.antt =====
-- The size of a packet of which the front has come, src/transceiver/packet_reader.rs.
use lmc_rs.Prelude.{
  ℕ, ◌+◌, ◌≤◌, ◌≡◌, refl, some, List, [], ◌∷◌, ◌++◌, arith, length, drop, inl, inr, Option-cases,
}
use lmc_rs.Errors.{done}
use lmc_rs.PacketReader.{PacketSizeInfo, parse_length, parse_packet_size, check_size, or_group}
use lmc_rs.PacketReader.Invariant.{parse_length_pos}

-- The front of a stream that is at hand.
pub split_stream :
    (f bytes u rest : List ℕ)
    → length f ≤ length bytes
    → bytes ++ u ≡ f ++ rest
    → (bytes ≡ f ++ drop (length f) bytes) × (drop (length f) bytes ++ u ≡ rest)
split_stream [] bytes u rest h e = (refl, e)
split_stream (x ∷ f) [] u rest h e = absurd (omega arith)
split_stream (x ∷ f) (b ∷ bytes) u rest h e =
    ground (arith, split_stream f bytes u rest (omega arith))

-- A length field that ends within `bytes` is found there.
pub parse_length-prefix :
    (bytes more : List ℕ) (pos ret shift value start : ℕ)
    → parse_length (bytes ++ more) pos ret shift ≡ some (value, start)
    → start ≤ pos + length bytes
    → parse_length bytes pos ret shift ≡ some (value, start)
unfolding parse_length
parse_length-prefix [] more pos ret shift value start e h =
    absurd (omega (arith, parse_length_pos more pos ret shift value start e))
parse_length-prefix (b ∷ bytes) more pos ret shift value start e h =
    ground (
      arith,
      parse_length-prefix bytes more (pos + 1) (or_group ret b shift) (shift + 7) value start,
    )

pub check_size_start :
    (value start : ℕ) (info : PacketSizeInfo)
    → check_size (some (value, start)) ≡ done (some info)
    → info.start_offset ≡ start
check_size_start value start info e = ground arith

pub parse_packet_size-prefix :
    (bytes more : List ℕ) (info : PacketSizeInfo)
    → parse_packet_size (bytes ++ more) ≡ done (some info)
    → 1 ≤ length bytes
    → info.start_offset ≤ length bytes
    → parse_packet_size bytes ≡ done (some info)
unfolding parse_packet_size
parse_packet_size-prefix [] more info e full h = absurd (omega arith)
parse_packet_size-prefix (b ∷ bytes) more info e full h =
    elim (Option-cases (parse_length (bytes ++ more) 1 0 0)) [
      | inl missing ↦ absurd (ground arith)
      | inr ((value, start), found) ↦
          let same : check_size (some (value, start)) ≡ done (some info) = rw found at e in
          let near : start ≤ 1 + length bytes =
            omega (arith, check_size_start value start info same) in
          rw (parse_length-prefix bytes more 1 0 0 value start found near) same
    ]
