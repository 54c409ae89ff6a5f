-- ===== src/Subscription/Tree/Patterns.antt =====
-- The patterns that match a topic without wildcards, src/transceiver/subscription.rs.
use lmc_rs.Prelude.{ℕ, ◌≡◌, refl, Bool, false, ◌&&◌, ◌||◌, List, [], ◌∷◌, ◌++◌, map, arith, All}
use lmc_rs.Prelude.Maps.{text_beq, text_beq_lem}
use lmc_rs.Subscription.Tree.{plain, kind}
use lmc_rs.Subscription.Tree.Update.{path_beq}
use lmc_rs.Subscription.Tree.Dispatch.{matches}

abbrev pub hash : List ℕ
hash = 35 ∷ []

abbrev pub star : List ℕ
star = 42 ∷ []

-- The patterns that match a topic, in the order of the dispatch.
unfoldable pub patterns : List (List ℕ) → List (List (List ℕ))
patterns [] = [] ∷ []
patterns (t ∷ ts) =
    let below = patterns ts in (hash ∷ []) ∷ (map (◌∷◌ star) below ++ map (◌∷◌ t) below)

-- A topic to which a message is published has no wildcards.
abbrev pub IsPlain : List (List ℕ) → Type 0
IsPlain ts = All (λ h. kind h ≡ plain) ts

abbrev pub has : List (List ℕ) → List (List (List ℕ)) → Bool
has q [] = false
has q (p ∷ ps) = path_beq p q || has q ps

pub has-append :
    (q : List (List ℕ)) (xs ys : List (List (List ℕ))) → has q (xs ++ ys) ≡ (has q xs || has q ys)
has-append q [] ys = refl
has-append q (x ∷ xs) ys = ground (arith, has-append q xs ys)

pub has-map :
    (h p : List ℕ) (q : List (List ℕ)) (xs : List (List (List ℕ)))
    → has (p ∷ q) (map (◌∷◌ h) xs) ≡ (text_beq h p && has q xs)
has-map h p q [] = ground arith
has-map h p q (x ∷ xs) = ground (arith, has-map h p q xs)

pub has_nil-map : (h : List ℕ) (xs : List (List (List ℕ))) → has [] (map (◌∷◌ h) xs) ≡ false
has_nil-map h [] = refl
has_nil-map h (x ∷ xs) = has_nil-map h xs

pub has-patterns : (q ts : List (List ℕ)) → IsPlain ts → has q (patterns ts) ≡ matches q ts
unfolding patterns matches kind
has-patterns [] [] all = refl
has-patterns (p ∷ ps) [] all = refl
has-patterns [] (t ∷ ts) all = ground (
  arith,
  has-append [] (map (◌∷◌ star) (patterns ts)) (map (◌∷◌ t) (patterns ts)),
  has_nil-map star (patterns ts),
  has_nil-map t (patterns ts),
)
has-patterns (p ∷ ps) (t ∷ ts) all = ground (
  arith,
  has-append (p ∷ ps) (map (◌∷◌ star) (patterns ts)) (map (◌∷◌ t) (patterns ts)),
  has-map star p ps (patterns ts),
  has-map t p ps (patterns ts),
  has-patterns ps ts all.1,
  text_beq_lem hash p,
  text_beq_lem p hash,
  text_beq_lem star p,
  text_beq_lem p star,
  text_beq_lem t p,
)
