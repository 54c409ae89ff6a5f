-- ===== src/Prelude/Maps.antt =====
-- The maps of the program (`LmcHashMap` of src/wrappers.rs, a hash map of a third-party crate or of
-- the standard library) as association lists, over keys with a Boolean equality.
use mathlib.Core.Path.{◌≡◌}
use mathlib.Core.Logic.{◌↔◌}
use mathlib.Core.Bool.{Bool, true, false, ◌&&◌}
use mathlib.Core.Option.{Option, none, some}
use mathlib.Core.List.{List, [], ◌∷◌}
use native.Mathlib.Omega.{arith}
use Prim.Native.Nat.{ℕ}
use lmc_rs.Prelude.Tests.{◌==◌, ==_iff, if◌then◌else◌}

pub record Eq {ℓ} (A : Type ℓ) : Type ℓ where
  pub beq : A → A → Bool
  pub beq_lem : (a b : A) → (beq a b ≡ true) ↔ (a ≡ b)

instance abbrev pub nat_eq : Eq ℕ
nat_eq = record { beq = ◌==◌; beq_lem = ==_iff }

-- Texts and byte strings.
abbrev pub text_beq : List ℕ → List ℕ → Bool
text_beq [] [] = true
text_beq (x ∷ xs) (y ∷ ys) = x == y && text_beq xs ys
text_beq _ _ = false

pub text_beq_lem : (xs ys : List ℕ) → (text_beq xs ys ≡ true) ↔ (xs ≡ ys)
text_beq_lem [] [] = ground arith
text_beq_lem (x ∷ xs) (y ∷ ys) = ground (arith, text_beq_lem xs ys)
text_beq_lem [] (y ∷ ys) = ground arith
text_beq_lem (x ∷ xs) [] = ground arith

instance abbrev pub text_eq : Eq (List ℕ)
text_eq = record { beq = text_beq; beq_lem = text_beq_lem }

abbrev pub Map {ℓ κ} : Type ℓ → Type κ → Type (ℓ ⊔ κ)
Map K V = List (K × V)

module _ {ℓ κ} {K : Type ℓ} {V : Type κ} ⦃e : Eq K⦄ where
  -- `get` of the hash map.
  abbrev pub lookup : K → Map K V → Option V
  lookup k [] = none
  lookup k ((j, v) ∷ m) = if e.beq j k then some v else lookup k m

  abbrev pub remove : K → Map K V → Map K V
  remove k [] = []
  remove k ((j, v) ∷ m) = let rest = remove k m in if e.beq j k then rest else (j, v) ∷ rest

  abbrev pub insert : K → V → Map K V → Map K V
  insert k v m = (k, v) ∷ remove k m

  pub lookup-remove :
      (k j : K) (m : Map K V) → lookup j (remove k m) ≡ (if e.beq k j then none else lookup j m)
  lookup-remove k j [] = ground arith
  lookup-remove k j ((i, v) ∷ m) =
      ground (arith, e.beq_lem i k, e.beq_lem i j, e.beq_lem k j, lookup-remove k j m)

  pub lookup-insert :
      (k j : K) (v : V) (m : Map K V)
      → lookup j (insert k v m) ≡ (if e.beq k j then some v else lookup j m)
  lookup-insert k j v m = ground (arith, lookup-remove k j m)
