-- ===== src/PacketReader/Recv.antt =====
-- One call of `recv`: it keeps the invariant, and what it returns.
use lmc_rs.Prelude.{
  All-append, ℕ, zero, suc, ◌+◌, ◌-◌, ◌≤◌, ◌<◌, ◌≡◌, ◌≢◌, refl, ap, Bool, true, false, none, some,
  List, [], ◌∷◌, ◌++◌, arith, length, All, ltb, leb, length-append, if◌then◌else◌, inl, inr,
  Bool-cases, Option-cases,
}
use lmc_rs.Errors.{IoResult, done, failed, crashed, IoError}
use lmc_rs.ByteIo.Reading.{IsByte}
use lmc_rs.Transport.{Transport}
use lmc_rs.Packets.Frame.{max_header_size}
use lmc_rs.PacketReader.{
  PacketReader, PacketSizeInfo, PacketReadState, need_more_data, parse_packet_size, take_packet,
  recv_n, append_read, after_body, after_header, recv, with_state, recv_body, recv_header,
}
use lmc_rs.PacketReader.Invariant.{IsValid, Within, parse_packet_size-append}
use lmc_rs.PacketReader.Taking.{store_size-IsValid, take_packet-IsValid, decode_packet-ne}

module _ (t : Transport) where
  open t use {State, read, read_fits, read_returns}

  -- What `recv_n` returns: nothing is wanted, bytes have come, or the transport ended or failed.
  pub data Received (rd : PacketReader) (s : State) (n : ℕ)
      : IoResult Bool × PacketReader × State → Type 0 where
    unasked : n ≡ 0 → Received rd s n (done false, rd, s)
    came :
        (bytes : List ℕ) (s' : State)
        → 0 < n
        → read s n ≡ (done bytes, s')
        → 0 < length bytes
        → Received rd s n (done false, record rd { bytes = rd.bytes ++ bytes }, s')
    ended : (s' : State) → read s n ≡ (done [], s') → Received rd s n (done true, rd, s')
    broke :
        (e : IoError) (s' : State) → read s n ≡ (failed e, s') → Received rd s n (failed e, rd, s')
    fell : (s' : State) → read s n ≡ (crashed, s') → Received rd s n (crashed, rd, s')

  append_read-Received :
      (rd : PacketReader) (s : State) (n : ℕ) (r : IoResult (List ℕ)) (s' : State)
      → 0 < n
      → read s n ≡ (r, s')
      → Received rd s n (append_read t rd (r, s'))
  append_read-Received rd s n (done []) s' h e = ended s' e
  append_read-Received rd s n (done (b ∷ bytes)) s' h e =
      let some_bytes : leb (length (b ∷ bytes)) 0 ≡ false = ground arith in
      rw some_bytes (came (b ∷ bytes) s' h e (omega arith))
  append_read-Received rd s n (failed x) s' h e = broke x s' e
  append_read-Received rd s n crashed s' h e = fell s' e

  pub recv_n-Received : (rd : PacketReader) (s : State) (n : ℕ) → Received rd s n (recv_n t rd s n)
  unfolding recv_n
  recv_n-Received rd s zero = unasked refl
  recv_n-Received rd s (suc n) =
      let asked : leb (suc n) 0 ≡ false = ground arith in
      rw asked
        (append_read-Received rd s (suc n) (read s (suc n)).0 (read s (suc n)).1 (omega arith) refl)

  pub came_within :
      (s s' : State) (n : ℕ) (bytes : List ℕ)
      → read s n ≡ (done bytes, s')
      → (length bytes ≤ n) × All IsByte bytes
  came_within s s' n bytes e = read_fits s n bytes (ap (λ (p : IoResult (List ℕ) × State). p.0) e)

  -- More of the variable header and the payload.
  pub grown-IsValid :
      (rd : PacketReader) (info : PacketSizeInfo) (bytes : List ℕ)
      → IsValid rd
      → rd.size ≡ some info
      → length bytes ≤ info.size - length rd.bytes
      → All IsByte bytes
      → IsValid (record rd { bytes = rd.bytes ++ bytes })
  grown-IsValid rd info bytes v e fits raw =
      let within : Within rd.bytes (some info) = rw e at v.within in
      let sum : length (rd.bytes ++ bytes) ≡ length rd.bytes + length bytes =
        length-append rd.bytes bytes in
      let spelled : parse_packet_size (rd.bytes ++ bytes) ≡ done (some info) =
        parse_packet_size-append rd.bytes bytes info (omega arith) (rw e at v.spelled) in
      let bounds : Within (rd.bytes ++ bytes) (some info) =
        (omega arith, within.1, within.2, omega arith) in
      record {
        spelled = rw e spelled;
        within = rw e bounds;
        raw = All-append IsByte rd.bytes bytes v.raw raw;
      }

  abbrev Good : IoResult PacketReadState × PacketReader × State → Type 0
  Good x = IsValid x.1 × (x.0 ≢ crashed)

  taken-Good :
      (rd : PacketReader) (info : PacketSizeInfo) (s : State)
      → IsValid rd
      → rd.size ≡ some info
      → Good (
          if leb info.size (length rd.bytes)
          then with_state t s (take_packet rd info)
          else (done need_more_data, rd, s))
  taken-Good rd info s v e = elim (Bool-cases (leb info.size (length rd.bytes))) [
    | inl ready ↦ rw ready (
        let (same, valid) = take_packet-IsValid rd info v e (ground arith) in
        (valid, rw same (decode_packet-ne rd info v e)))
    | inr missing ↦ rw missing (v, λ p. cc)
  ]

  after_body-Good :
      (rd : PacketReader) (s : State) (n : ℕ) (info : PacketSizeInfo)
      {x : IoResult Bool × PacketReader × State}
      → IsValid rd
      → rd.size ≡ some info
      → n ≤ info.size - length rd.bytes
      → Received rd s n x
      → Good (after_body t info x)
  after_body-Good rd s n info v e fits (unasked z) = taken-Good rd info s v e
  after_body-Good rd s n info v e fits (came bytes s' pos got more) =
      let (short, raw) = came_within s s' n bytes got in
      taken-Good (record rd { bytes = rd.bytes ++ bytes }) info s'
        (grown-IsValid rd info bytes v e (omega arith) raw) e
  after_body-Good rd s n info v e fits (ended s' got) = (v, λ p. cc)
  after_body-Good rd s n info v e fits (broke x s' got) = (v, λ p. cc)
  after_body-Good rd s n info v e fits (fell s' got) =
      absurd (read_returns s n (ap (λ (p : IoResult (List ℕ) × State). p.0) got))

  after_header-Good :
      (rd : PacketReader) (s : State) (n : ℕ) {x : IoResult Bool × PacketReader × State}
      → IsValid rd
      → n + length rd.bytes ≤ max_header_size
      → Received rd s n x
      → Good (after_header t x)
  after_header-Good rd s n v fits (unasked z) =
      let (same, valid) = store_size-IsValid rd (done need_more_data) v.raw (omega arith) in
      (valid, rw same (λ p. cc))
  after_header-Good rd s n v fits (came bytes s' pos got more) =
      let (short, raw) = came_within s s' n bytes got in
      let grown = record rd { bytes = rd.bytes ++ bytes } in
      let (same, valid) =
        store_size-IsValid grown (done need_more_data) (All-append IsByte rd.bytes bytes v.raw raw)
          (omega (arith, length-append rd.bytes bytes)) in
      (valid, rw same (λ p. cc))
  after_header-Good rd s n v fits (ended s' got) = (v, λ p. cc)
  after_header-Good rd s n v fits (broke x s' got) = (v, λ p. cc)
  after_header-Good rd s n v fits (fell s' got) =
      absurd (read_returns s n (ap (λ (p : IoResult (List ℕ) × State). p.0) got))

  recv_body-Good :
      (rd : PacketReader) (s : State) (info : PacketSizeInfo)
      → IsValid rd
      → rd.size ≡ some info
      → Good (recv_body t rd s info)
  recv_body-Good rd s info v e = elim (Bool-cases (ltb (length rd.bytes) info.size)) [
    | inl more ↦ rw more (
        after_body-Good rd s _ info v e (omega arith)
          (recv_n-Received rd s (info.size - length rd.bytes)))
    | inr full ↦ rw full (taken-Good rd info s v e)
  ]

  recv_header-Good :
      (rd : PacketReader) (s : State) → IsValid rd → rd.size ≡ none → Good (recv_header t rd s)
  recv_header-Good rd s v e =
      let short : Within rd.bytes none = rw e at v.within in
      let room : ltb max_header_size (length rd.bytes) ≡ false = ground arith in
      rw room (
        after_header-Good rd s _ v (omega arith)
          (recv_n-Received rd s (max_header_size - length rd.bytes)))

  -- From a valid reader, whatever the transport delivers, `recv` does not panic and leaves the reader
  -- valid: the stored size is the one that the gathered bytes spell, and no byte beyond the fixed
  -- header or the packet has been asked for.
  pub recv-IsValid :
      (rd : PacketReader) (s : State)
      → IsValid rd
      → IsValid (recv t rd s).1 × ((recv t rd s).0 ≢ crashed)
  unfolding recv
  recv-IsValid rd s v = elim (Option-cases rd.size) [
    | inl e ↦ rw (e, recv) (recv_header-Good rd s v e)
    | inr (info, e) ↦ rw (e, recv) (recv_body-Good rd s info v e)
  ]
