-- ===== src/PacketReader/Stream.antt =====
-- `recv` on a stream of whole packets, however the transport cuts it into pieces.
use lmc_rs.Prelude.{
  All-append, ℕ, ◌+◌, ◌-◌, ◌≤◌, ◌<◌, ◌≡◌, sym, ap, ◌∙◌, Bool, true, false, none, some, List, [],
  ◌++◌, arith, length, All, drop, ltb, leb, length-append, append_assoc, inl, inr, Bool-cases,
  Option-cases,
}
use native.Mathlib.Decide.{dec_lt}
use lmc_rs.Errors.{IoResult, done, failed, IoError}
use lmc_rs.ByteIo.Reading.{IsByte}
use lmc_rs.Transport.{Transport}
use lmc_rs.Packets.Frame.{max_header_size}
use lmc_rs.PacketReader.{
  PacketReader, PacketSizeInfo, PacketReadState, need_more_data, connection_closed,
  parse_packet_size, store_size, decode_packet, take_packet, after_body, after_header, recv,
  with_state, recv_body, recv_header,
}
use lmc_rs.PacketReader.Invariant.{IsValid, Within, parse_packet_size-append}
use lmc_rs.PacketReader.Taking.{
  store_size-IsValid, take_packet-IsValid, bytes-store_size, bytes-take_packet,
}
use lmc_rs.PacketReader.Recv.{
  Received, unasked, came, ended, broke, fell, recv_n-Received, grown-IsValid, came_within,
}
use lmc_rs.PacketReader.Frames.{IsFrame, decode_packet-append}
use lmc_rs.PacketReader.Prefixes.{split_stream, parse_packet_size-prefix}

module _ (t : Transport) (unread : t.State → List ℕ)
    (feeds : (s s' : t.State) (n : ℕ) (bytes : List ℕ)
      → t.read s n ≡ (done bytes, s')
      → unread s ≡ bytes ++ unread s') where
  open t use {State, read}

  -- What one call comes to, with the packet `f` and then `rest` ahead.
  pub data Outcome (s : State) (f : List ℕ) (info : PacketSizeInfo) (rest : List ℕ)
      : IoResult PacketReadState × PacketReader × State → Type 0 where
    waits :
        (rd : PacketReader) (s' : State)
        → rd.bytes ++ unread s' ≡ f ++ rest
        → length (unread s') < length (unread s)
        → Outcome s f info rest (done need_more_data, rd, s')
    delivers :
        (r : IoResult PacketReadState) (rd : PacketReader) (s' : State)
        → r ≡ decode_packet f info
        → rd.bytes ++ unread s' ≡ rest
        → Outcome s f info rest (r, rd, s')
    closes :
        (rd : PacketReader) (s' : State) (n : ℕ)
        → read s n ≡ (done [], s')
        → Outcome s f info rest (done connection_closed, rd, s')
    breaks :
        (e : IoError) (rd : PacketReader) (s' : State) (n : ℕ)
        → read s n ≡ (failed e, s')
        → Outcome s f info rest (failed e, rd, s')

  module _ (f rest : List ℕ) (info : PacketSizeInfo) (frame : IsFrame f info) where
    -- The reader and the transport hold the stream `f ++ rest`.
    abbrev Ahead : PacketReader → State → Type 0
    Ahead rd s = rd.bytes ++ unread s ≡ f ++ rest

    ahead_spelled : parse_packet_size (f ++ rest) ≡ done (some info)
    ahead_spelled =
        parse_packet_size-append f rest info
          (omega (arith, frame.whole, frame.behind, frame.ordered)) frame.spelled

    -- A size that is stored is the size of `f`.
    same_size :
        (rd : PacketReader) (s : State) (found : PacketSizeInfo)
        → IsValid rd
        → Ahead rd s
        → rd.size ≡ some found
        → found ≡ info
    same_size rd s found v ahead e =
        let within : Within rd.bytes (some found) = rw e at v.within in
        let spelled : parse_packet_size (rd.bytes ++ unread s) ≡ done (some found) =
          parse_packet_size-append rd.bytes (unread s) found (omega arith) (rw e at v.spelled) in
        cc (sym spelled ∙ ap parse_packet_size ahead ∙ ahead_spelled)

    -- While no size is stored, the length field is not there in full.
    unread_header :
        (rd : PacketReader) (s : State)
        → IsValid rd
        → Ahead rd s
        → rd.size ≡ none
        → length rd.bytes < info.start_offset
    unread_header rd s v ahead e = elim (dec_lt (length rd.bytes) info.start_offset) [
      | yes less ↦ less
      | no enough ↦
          let found : parse_packet_size rd.bytes ≡ done (some info) =
            parse_packet_size-prefix rd.bytes (unread s) info
              (ap parse_packet_size ahead ∙ ahead_spelled) (omega (arith, frame.behind))
              (omega arith) in
          let missing : parse_packet_size rd.bytes ≡ done none = rw e at v.spelled in
          absurd (cc (sym found ∙ missing))
    ]

    taken :
        (rd : PacketReader) (s s' : State)
        → IsValid rd
        → rd.size ≡ some info
        → Ahead rd s'
        → info.size ≤ length rd.bytes
        → Outcome s f info rest (with_state t s' (take_packet rd info))
    taken rd s s' v e ahead ready =
        let (front, behind) =
          split_stream f rd.bytes (unread s') rest (omega (arith, frame.whole)) ahead in
        let kept : (take_packet rd info).1.bytes ≡ drop (length f) rd.bytes =
          bytes-take_packet rd info v e ∙ ap (λ (n : ℕ). drop n rd.bytes) frame.whole in
        let same : decode_packet rd.bytes info ≡ decode_packet f info =
          ap (λ (b : List ℕ). decode_packet b info) front
          ∙ decode_packet-append f (drop (length f) rd.bytes) info frame in
        delivers (take_packet rd info).0 (take_packet rd info).1 s'
          ((take_packet-IsValid rd info v e ready).0 ∙ same) (rw kept behind)

    grown-Ahead :
        (rd : PacketReader) (s s' : State) (n : ℕ) (bytes : List ℕ)
        → Ahead rd s
        → read s n ≡ (done bytes, s')
        → (rd.bytes ++ bytes) ++ unread s' ≡ f ++ rest
    grown-Ahead rd s s' n bytes ahead got =
        append_assoc rd.bytes bytes (unread s')
        ∙ ap (◌++◌ rd.bytes) (sym (feeds s s' n bytes got))
        ∙ ahead

    shrinks :
        (s s' : State) (n : ℕ) (bytes : List ℕ)
        → read s n ≡ (done bytes, s')
        → 0 < length bytes
        → length (unread s') < length (unread s)
    shrinks s s' n bytes got more =
        omega (arith, ap length (feeds s s' n bytes got), length-append bytes (unread s'))

    body_taken :
        (rd : PacketReader) (s s' : State)
        → IsValid rd
        → rd.size ≡ some info
        → Ahead rd s'
        → length (unread s') < length (unread s)
        → Outcome s f info rest (after_body t info (done false, rd, s'))
    body_taken rd s s' v e ahead less = elim (Bool-cases (leb info.size (length rd.bytes))) [
      | inl ready ↦ rw ready (taken rd s s' v e ahead (ground arith))
      | inr missing ↦ rw missing (waits rd s' ahead less)
    ]

    after_body-Outcome :
        (rd : PacketReader) (s : State) (n : ℕ) {x : IoResult Bool × PacketReader × State}
        → IsValid rd
        → rd.size ≡ some info
        → Ahead rd s
        → 0 < n
        → n ≤ info.size - length rd.bytes
        → Received t rd s n x
        → Outcome s f info rest (after_body t info x)
    after_body-Outcome rd s n v e ahead pos fits (unasked z) = absurd (omega arith)
    after_body-Outcome rd s n v e ahead pos fits (came bytes s' asked got more) =
        let (short, raw) = came_within t s s' n bytes got in
        body_taken (record rd { bytes = rd.bytes ++ bytes }) s s'
          (grown-IsValid t rd info bytes v e (omega arith) raw) e
          (grown-Ahead rd s s' n bytes ahead got) (shrinks s s' n bytes got more)
    after_body-Outcome rd s n v e ahead pos fits (ended s' got) = closes rd s' n got
    after_body-Outcome rd s n v e ahead pos fits (broke x s' got) = breaks x rd s' n got
    after_body-Outcome rd s n v e ahead pos fits (fell s' got) =
        absurd (t.read_returns s n (ap (λ (p : IoResult (List ℕ) × State). p.0) got))

    stored :
        (s s' : State) (x : IoResult PacketReadState × PacketReader)
        → x.0 ≡ done need_more_data
        → x.1.bytes ++ unread s' ≡ f ++ rest
        → length (unread s') < length (unread s)
        → Outcome s f info rest (with_state t s' x)
    stored s s' x same ahead less = rw same (waits x.1 s' ahead less)

    after_header-Outcome :
        (rd : PacketReader) (s : State) (n : ℕ) {x : IoResult Bool × PacketReader × State}
        → IsValid rd
        → Ahead rd s
        → 0 < n
        → n + length rd.bytes ≤ max_header_size
        → Received t rd s n x
        → Outcome s f info rest (after_header t x)
    after_header-Outcome rd s n v ahead pos fits (unasked z) = absurd (omega arith)
    after_header-Outcome rd s n v ahead pos fits (came bytes s' asked got more) =
        let (short, raw) = came_within t s s' n bytes got in
        let grown : PacketReader = record rd { bytes = rd.bytes ++ bytes } in
        let all : All IsByte grown.bytes = All-append IsByte rd.bytes bytes v.raw raw in
        let room : length grown.bytes ≤ max_header_size =
          omega (arith, length-append rd.bytes bytes) in
        let kept = bytes-store_size grown (done need_more_data) all room in
        stored s s' (store_size grown (parse_packet_size grown.bytes) (done need_more_data))
          (store_size-IsValid grown (done need_more_data) all room).0
          (ap (λ (b : List ℕ). b ++ unread s') kept ∙ grown-Ahead rd s s' n bytes ahead got)
          (shrinks s s' n bytes got more)
    after_header-Outcome rd s n v ahead pos fits (ended s' got) = closes rd s' n got
    after_header-Outcome rd s n v ahead pos fits (broke x s' got) = breaks x rd s' n got
    after_header-Outcome rd s n v ahead pos fits (fell s' got) =
        absurd (t.read_returns s n (ap (λ (p : IoResult (List ℕ) × State). p.0) got))

    recv_body-Outcome :
        (rd : PacketReader) (s : State)
        → IsValid rd
        → rd.size ≡ some info
        → Ahead rd s
        → Outcome s f info rest (recv_body t rd s info)
    recv_body-Outcome rd s v e ahead = elim (Bool-cases (ltb (length rd.bytes) info.size)) [
      | inl more ↦ rw more (
          after_body-Outcome rd s (info.size - length rd.bytes) v e ahead (ground arith)
            (omega arith) (recv_n-Received t rd s (info.size - length rd.bytes)))
      | inr full ↦
          let ready : leb info.size (length rd.bytes) ≡ true = ground arith in
          rw (full, ready) (taken rd s s v e ahead (ground arith))
    ]

    recv_header-Outcome :
        (rd : PacketReader) (s : State)
        → IsValid rd
        → rd.size ≡ none
        → Ahead rd s
        → Outcome s f info rest (recv_header t rd s)
    recv_header-Outcome rd s v e ahead =
        let less : length rd.bytes < info.start_offset = unread_header rd s v ahead e in
        let room : ltb max_header_size (length rd.bytes) ≡ false = ground (arith, frame.header) in
        rw room (
          after_header-Outcome rd s (max_header_size - length rd.bytes) v ahead
            (omega (arith, frame.header)) (omega (arith, frame.header))
            (recv_n-Received t rd s (max_header_size - length rd.bytes)))

    -- With a whole packet ahead, each call of `recv` on a valid reader delivers exactly what decoding
    -- that packet gives and keeps the stream behind it, or takes at least one more byte of it from the
    -- transport, or reports that the transport closed or failed, however the transport cuts the stream.
    pub recv-Outcome :
        (rd : PacketReader) (s : State)
        → IsValid rd
        → Ahead rd s
        → Outcome s f info rest (recv t rd s)
    unfolding recv
    recv-Outcome rd s v ahead = elim (Option-cases rd.size) [
      | inl e ↦ rw (e, recv) (recv_header-Outcome rd s v e ahead)
      | inr (found, e) ↦
          let same : found ≡ info = same_size rd s found v ahead e in
          rw (e, recv, same) (recv_body-Outcome rd s v (e ∙ ap some same) ahead)
    ]
