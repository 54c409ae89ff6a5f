-- ===== src/Transceiver/Writing/Wire.antt =====
-- The bytes that are still to be transmitted, src/transceiver/mod.rs.
use lmc_rs.Prelude.{
  ℕ, zero, suc, ◌≤◌, ◌≡◌, refl, sym, ap, ◌∙◌, Bool, true, false, Option, none, some, List, [], ◌∷◌,
  ◌++◌, bit_or, length, take, drop, take-append-drop, append_assoc, arith,
}
use lmc_rs.Errors.{done}
use lmc_rs.Packets.Control.{dup_bit}
use lmc_rs.Transceiver.Writing.{TxPacket, InternalPacket, Outbox}

-- The bytes of a packet on the wire.
abbrev pub wire : List ℕ → Bool → List ℕ
wire (b ∷ bytes) true = bit_or b dup_bit ∷ bytes
wire bytes _ = bytes

abbrev pub queued : List InternalPacket → List ℕ
queued [] = []
queued (p ∷ ps) = wire p.bytes p.set_dup ++ queued ps

abbrev pub transmitting : Option TxPacket → List ℕ
transmitting none = []
transmitting (some tx) = drop tx.pos (wire tx.bytes tx.set_dup)

-- What is still to be transmitted, in order.
abbrev pub pending : Outbox → List ℕ
pending o = transmitting o.tx_pkt ++ queued o.internal_pkt_queue

pub drop_all : (n : ℕ) (xs : List ℕ) → length xs ≤ n → drop n xs ≡ []
drop_all zero [] h = refl
drop_all (suc n) [] h = refl
drop_all zero (x ∷ xs) h = absurd (omega arith)
drop_all (suc n) (x ∷ xs) h = drop_all n xs (omega arith)

pub length-wire : (bytes : List ℕ) (set_dup : Bool) → length (wire bytes set_dup) ≡ length bytes
length-wire [] true = refl
length-wire [] false = refl
length-wire (b ∷ bytes) true = refl
length-wire (b ∷ bytes) false = refl

pub done_inj : {A : Type 0} {a b : A} → done a ≡ done b → a ≡ b
done_inj e = cc

pub wire_plain : (bytes : List ℕ) → wire bytes false ≡ bytes
wire_plain [] = refl
wire_plain (b ∷ bytes) = refl

-- While no packet is being transmitted none waits.
abbrev pub Idle : Outbox → Type 0
Idle o = o.tx_pkt ≡ none → o.internal_pkt_queue ≡ []

-- What has been taken of a packet and what is left of it are the packet.
pub whole :
    (n : ℕ) (taken before w behind : List ℕ)
    → taken ≡ before ++ take n w
    → taken ++ (drop n w ++ behind) ≡ before ++ (w ++ behind)
whole n taken before w behind e =
    ap (λ (x : List ℕ). x ++ (drop n w ++ behind)) e
    ∙ append_assoc before (take n w) (drop n w ++ behind)
    ∙ ap (◌++◌ before) (sym (append_assoc (take n w) (drop n w) behind))
    ∙ ap (λ (x : List ℕ). before ++ (x ++ behind)) (take-append-drop n w)
