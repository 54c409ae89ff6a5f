-- ===== src/PacketReader/Malformed.antt =====
-- A fixed header whose four bytes of length all announce another byte.
use lmc_rs.Prelude.{ℕ, ◌+◌, ◌≤◌, ◌<◌, ◌≡◌, none, List, [], ◌∷◌, arith, refl}
use lmc_rs.Prelude.Bits.{top_bit}
use lmc_rs.Errors.{done}
use lmc_rs.Transport.{Transport}
use lmc_rs.PacketReader.{
  PacketReader, need_more_data, parse_length, parse_packet_size, or_group, recv, recv_n,
}

abbrev pub Continued : ℕ → Type 0
Continued b = (128 ≤ b) × (b < 256)

parse_length-Continued :
    (b pos ret shift : ℕ) (bytes : List ℕ)
    → Continued b
    → parse_length (b ∷ bytes) pos ret shift
      ≡ parse_length bytes (pos + 1) (or_group ret b shift) (shift + 7)
unfolding parse_length
parse_length-Continued b pos ret shift bytes h = ground (arith, top_bit b h.1)

abbrev pub malformed : ℕ → ℕ → ℕ → ℕ → ℕ → PacketReader
malformed b c d e f = record { bytes = b ∷ c ∷ d ∷ e ∷ f ∷ []; size = none }

parse_packet_size-malformed :
    (b c d e f : ℕ)
    → Continued c
    → Continued d
    → Continued e
    → Continued f
    → parse_packet_size (malformed b c d e f).bytes ≡ done none
unfolding parse_packet_size parse_length
parse_packet_size-malformed b c d e f hc hd he hf =
    rw
      (
        parse_length-Continued c 1 0 0 (d ∷ e ∷ f ∷ []) hc,
        parse_length-Continued d 2 (or_group 0 c 0) 7 (e ∷ f ∷ []) hd,
        parse_length-Continued e 3 (or_group (or_group 0 c 0) d 7) 14 (f ∷ []) he,
        parse_length-Continued f 4 (or_group (or_group (or_group 0 c 0) d 7) e 14) 21 [] hf,
      )
      refl

-- When the four bytes behind the first all have their top bit set, which no length field has, `recv`
-- asks for more data without reading from the transport or changing anything, so that each later call
-- does the same.
pub recv-malformed :
    (t : Transport) (s : Transport.State t) (b c d e f : ℕ)
    → Continued c
    → Continued d
    → Continued e
    → Continued f
    → recv t (malformed b c d e f) s ≡ (done need_more_data, malformed b c d e f, s)
unfolding recv recv_n
recv-malformed t s b c d e f hc hd he hf =
    rw (parse_packet_size-malformed b c d e f hc hd he hf) refl
