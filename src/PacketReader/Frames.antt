-- ===== src/PacketReader/Frames.antt =====
-- The reader on packets that `make_packet` has built.
use lmc_rs.Prelude.{
  ℕ, zero, suc, ◌+◌, ◌-◌, ◌≤◌, ◌<◌, ◌≡◌, refl, sym, ap, ◌∙◌, false, some, List, [], ◌∷◌, ◌++◌,
  arith, length, drop, take, ltb, length-append, length-drop, append-nil, take_append, drop_append,
}
use lmc_rs.Errors.{done}
use lmc_rs.Packets.Control.{PacketType}
use lmc_rs.Packets.Control.Field.{first_byte}
use lmc_rs.Packets.Frame.Size.{size_field, length-size_field}
use lmc_rs.Packets.Frame.Make.{frame, max_content}
use lmc_rs.Packets.Frame.{max_header_size}
use lmc_rs.Packets.Incoming.{from_bytes}
use lmc_rs.PacketReader.{PacketSizeInfo, parse_packet_size, decode_packet, from_decoded}
use lmc_rs.PacketReader.Length.{parse_length-size_field}

-- The bytes of one whole packet.
pub record IsFrame (bytes : List ℕ) (info : PacketSizeInfo) : Type 0 where
  pub spelled : parse_packet_size bytes ≡ done (some info)
  pub whole : info.size ≡ length bytes
  pub behind : 1 ≤ info.start_offset
  pub ordered : info.start_offset ≤ info.size
  pub header : info.start_offset ≤ max_header_size

abbrev pub frame_info : List ℕ → PacketSizeInfo
frame_info body =
    let start = 1 + length (size_field 3 (length body)) in
    record { size = length body + start; start_offset = start }

pub frame-IsFrame :
    (ty : PacketType) (flags : ℕ) (body : List ℕ)
    → length body < max_content
    → IsFrame (frame ty flags body) (frame_info body)
unfolding frame max_content parse_packet_size
frame-IsFrame ty flags body h = record {
  spelled =
      rw (parse_length-size_field 3 (length body) 1 0 0 body h (omega arith) (omega arith))
        (ground (arith, length-size_field 3 (length body)));
  whole = omega (arith, length-append (size_field 3 (length body)) body);
  behind = omega arith;
  ordered = omega arith;
  header = omega (arith, length-size_field 3 (length body));
}

-- Decoding reads the body of the frame.
pub decode_packet-frame :
    (ty : PacketType) (flags : ℕ) (body : List ℕ)
    → decode_packet (frame ty flags body) (frame_info body)
      ≡ from_decoded (from_bytes (record { byte = first_byte ty flags }) body).0
unfolding frame decode_packet
decode_packet-frame ty flags body =
    let field = size_field 3 (length body) in
    let ordered : ltb (length body + (1 + length field)) (1 + length field) ≡ false =
      ground arith in
    let offset : 1 + length field ≡ suc (length field) = omega arith in
    let len : length body + (1 + length field) - (1 + length field) ≡ length body = omega arith in
    let whole : take (length body) body ≡ body =
      sym (ap (take (length body)) (append-nil body)) ∙ take_append body [] in
    rw (ordered, len, offset, drop_append field body, whole)

take_enough : (n : ℕ) (xs ys : List ℕ) → n ≤ length xs → take n (xs ++ ys) ≡ take n xs
take_enough zero xs ys h = refl
take_enough (suc n) [] ys h = absurd (omega arith)
take_enough (suc n) (x ∷ xs) ys h = ap (◌∷◌ x) (take_enough n xs ys (omega arith))

drop_enough : (n : ℕ) (xs ys : List ℕ) → n ≤ length xs → drop n (xs ++ ys) ≡ drop n xs ++ ys
drop_enough zero xs ys h = refl
drop_enough (suc n) [] ys h = absurd (omega arith)
drop_enough (suc n) (x ∷ xs) ys h = drop_enough n xs ys (omega arith)

-- What follows a packet does not change what is decoded.
pub decode_packet-append :
    (bytes more : List ℕ) (info : PacketSizeInfo)
    → IsFrame bytes info
    → decode_packet (bytes ++ more) info ≡ decode_packet bytes info
unfolding decode_packet
decode_packet-append [] more info f = absurd (omega (arith, f.whole, f.behind, f.ordered))
decode_packet-append (b ∷ bytes) more info f =
    let fits : info.start_offset ≤ length (b ∷ bytes) = omega (arith, f.whole, f.ordered) in
    let cut : length (drop info.start_offset (b ∷ bytes)) ≡ length (b ∷ bytes) - info.start_offset =
      length-drop info.start_offset (b ∷ bytes) in
    rw (
      drop_enough info.start_offset (b ∷ bytes) more fits,
      take_enough (info.size - info.start_offset) (drop info.start_offset (b ∷ bytes)) more
          (omega (arith, f.whole)),
    )
