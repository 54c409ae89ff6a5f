-- ===== src/Transceiver/Writing/Continue/Front.antt =====
-- One write of `continue_writing_packet` takes the front of what is left of the packet.
use lmc_rs.Prelude.{
  ℕ, zero, suc, ◌+◌, ◌≤◌, ◌≡◌, refl, ap, ◌∙◌, Bool, true, false, List, [], ◌∷◌, ◌++◌, if◌then◌else◌,
  bit_or, leb, length, length-append, length-take, take, drop, append-nil, arith, Bool-cases, inl,
  inr,
}
use lmc_rs.Errors.{IoResult, done, crashed}
use lmc_rs.Packets.Control.{dup_bit}
use lmc_rs.Transport.{Transport}
use lmc_rs.Transceiver.Writing.{TxPacket}
use lmc_rs.Transceiver.Writing.Wire.{wire, whole, wire_plain}
use lmc_rs.Transceiver.Writing.Continue.{write_more}

drop-drop : (n m : ℕ) (xs : List ℕ) → drop (n + m) xs ≡ drop m (drop n xs)
drop-drop zero m xs = let e : zero + m ≡ m = omega arith in rw e refl
drop-drop (suc n) zero [] = let e : suc n + zero ≡ suc n = omega arith in rw e refl
drop-drop (suc n) (suc m) [] = let e : suc n + suc m ≡ suc (n + suc m) = omega arith in rw e refl
drop-drop (suc n) m (x ∷ xs) =
    let e : suc n + m ≡ suc (n + m) = omega arith in rw e (drop-drop n m xs)

-- What has been taken of the rest of a packet, and what is left then.
took_front :
    (n pos : ℕ) (taken before w : List ℕ)
    → taken ≡ before ++ take n (drop pos w)
    → taken ++ drop (pos + n) w ≡ before ++ drop pos w
took_front n pos taken before w e = rw (drop-drop pos n w) (
    rw (append-nil (drop n (drop pos w)), append-nil (drop pos w)) at
      (whole n taken before (drop pos w) [] e))

drop-wire :
    (bytes : List ℕ) (set_dup : Bool) (pos : ℕ)
    → drop (suc pos) (wire bytes set_dup) ≡ drop (suc pos) bytes
drop-wire [] true pos = refl
drop-wire [] false pos = refl
drop-wire (b ∷ bytes) true pos = refl
drop-wire (b ∷ bytes) false pos = refl

take-one : (n b : ℕ) (bytes : List ℕ) → n ≤ 1 → take n (b ∷ []) ≡ take n (b ∷ bytes)
take-one zero b bytes h = refl
take-one (suc zero) b bytes h = refl
take-one (suc (suc n)) b bytes h = absurd (omega arith)

module _ (t : Transport) where
  open t use {State, write, accepted, write_takes}

  -- What `write_more` takes is the front of what is left of the packet.
  abbrev pub Front : TxPacket → State → IoResult ℕ × State → Type 0
  Front tx s r =
      (n : ℕ)
      → r.0 ≡ done n
      → (accepted r.1 ++ drop (tx.pos + n) (wire tx.bytes tx.set_dup)
          ≡ accepted s ++ drop tx.pos (wire tx.bytes tx.set_dup))
        × (length (accepted r.1) ≡ length (accepted s) + n)

  longer :
      (n : ℕ) (taken before src : List ℕ)
      → taken ≡ before ++ take n src
      → n ≤ length src
      → length taken ≡ length before + n
  longer n taken before src e h =
      omega (arith, ap length e, length-append before (take n src), length-take n src)

  write-Front :
      (bytes : List ℕ) (set_dup : Bool) (pos : ℕ) (s : State)
      → drop pos (wire bytes set_dup) ≡ drop pos bytes
      → Front
          (record { bytes = bytes; pos = pos; set_dup = set_dup })
          s
          (write s (drop pos bytes) false)
  write-Front bytes set_dup pos s same n h =
      let (few, taken) = write_takes s (drop pos bytes) false n h in
      (
        took_front n pos (accepted (write s (drop pos bytes) false).1) (accepted s)
            (wire bytes set_dup) (rw same taken),
        longer n (accepted (write s (drop pos bytes) false).1) (accepted s) (drop pos bytes) taken
            few,
      )

  write_from :
      (bytes : List ℕ) (set_dup : Bool) (pos : ℕ) (s : State)
      → drop pos (wire bytes set_dup) ≡ drop pos bytes
      → Front
          (record { bytes = bytes; pos = pos; set_dup = set_dup })
          s
          (if leb pos (length bytes) then write s (drop pos bytes) false else (crashed, s))
  write_from bytes set_dup pos s same = elim (Bool-cases (leb pos (length bytes))) [
    | inl fits ↦ rw fits (write-Front bytes set_dup pos s same)
    | inr behind ↦ rw behind (λ n h. cc)
  ]

  write_more-fields :
      (bytes : List ℕ) (set_dup : Bool) (pos : ℕ) (s : State)
      → Front
          (record { bytes = bytes; pos = pos; set_dup = set_dup })
          s
          (write_more t (record { bytes = bytes; pos = pos; set_dup = set_dup }) s)
  unfolding write_more
  write_more-fields bytes false pos s =
      write_from bytes false pos s (ap (drop pos) (wire_plain bytes))
  write_more-fields [] true zero s = λ n h. cc
  write_more-fields (b ∷ bytes) true zero s = λ n h.
      let (few, taken) = write_takes s (bit_or b dup_bit ∷ []) false n h in
      (
        took_front n 0 (accepted (write s (bit_or b dup_bit ∷ []) false).1) (accepted s)
            (bit_or b dup_bit ∷ bytes)
            (taken ∙ ap (◌++◌ (accepted s)) (take-one n (bit_or b dup_bit) bytes few)),
        longer n (accepted (write s (bit_or b dup_bit ∷ []) false).1) (accepted s)
            (bit_or b dup_bit ∷ []) taken few,
      )
  write_more-fields bytes true (suc pos) s =
      let later : leb (suc pos) 0 ≡ false = ground arith in
      rw later (write_from bytes true (suc pos) s (drop-wire bytes true pos))

  pub write_more-Front : (tx : TxPacket) (s : State) → Front tx s (write_more t tx s)
  write_more-Front tx s = write_more-fields tx.bytes tx.set_dup tx.pos s
