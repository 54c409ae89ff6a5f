-- ===== src/Utf8.antt =====
-- The standard library's `str::from_utf8`, which src/transceiver/byte_io.rs calls: the well-formed
-- byte sequences of the Unicode standard, read by a finite automaton.
use lmc_rs.Prelude.{
  ℕ, Bool, true, false, ◌&&◌, Option, none, some, List, [], ◌∷◌, ltb, leb, if◌then◌else◌, ◌==◌,
}

-- How many continuation bytes are due. After 0xe0, 0xed, 0xf0 and 0xf4 the first of them is confined.
pub data State : Type 0 where
  start tail_1 tail_2 tail_3 after_e0 after_ed after_f0 after_f4 : State

abbrev within : ℕ → ℕ → ℕ → Bool
within lo hi b = leb lo b && leb b hi

abbrev expect : Bool → State → Option State
expect b s = if b then some s else none

lead : ℕ → Option State
lead b =
    if ltb b 0x80
    then some start
    else if within 0xc2 0xdf b
    then some tail_1
    else if b == 0xe0
    then some after_e0
    else if b == 0xed
    then some after_ed
    else if within 0xe1 0xef b
    then some tail_2
    else if b == 0xf0
    then some after_f0
    else if within 0xf1 0xf3 b
    then some tail_3
    else expect (b == 0xf4) after_f4

next : State → ℕ → Option State
unfolding lead
next start b = lead b
next tail_1 b = expect (within 0x80 0xbf b) start
next tail_2 b = expect (within 0x80 0xbf b) tail_1
next tail_3 b = expect (within 0x80 0xbf b) tail_2
next after_e0 b = expect (within 0xa0 0xbf b) tail_1
next after_ed b = expect (within 0x80 0x9f b) tail_1
next after_f0 b = expect (within 0x90 0xbf b) tail_2
next after_f4 b = expect (within 0x80 0x8f b) tail_2

run : State → List ℕ → Bool
unfolding next
run start [] = true
run s [] = false
run s (b ∷ bs) = elim (next s b) [ none ↦ false | some t ↦ run t bs ]

unfoldable pub is_utf8 : List ℕ → Bool
unfolding run
is_utf8 bs = run start bs
