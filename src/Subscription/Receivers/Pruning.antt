-- ===== src/Subscription/Receivers/Pruning.antt =====
-- `prune`: a swap with the last element passes over none.
use lmc_rs.Prelude.{
  ℕ, zero, suc, ◌≤◌, ◌≡◌, refl, Bool, not, ◌&&◌, List, [], ◌∷◌, length, arith, if◌then◌else◌,
}
use lmc_rs.Subscription.Receivers.{last_first, prune, prune_from, visited, visited_from}

module _ {ℓ} {A : Type ℓ} where
  -- How many elements satisfy a test.
  abbrev pub count : (A → Bool) → List A → ℕ
  count test [] = 0
  count test (x ∷ xs) = let rest = count test xs in if test x then suc rest else rest

  last_first_lem :
      (test : A → Bool) (xs : List A)
      → (count test (last_first xs) ≡ count test xs) × (length (last_first xs) ≡ length xs)
  last_first_lem test [] = (refl, refl)
  last_first_lem test (x ∷ []) = (refl, refl)
  last_first_lem test (x ∷ y ∷ ys) = ground (arith, last_first_lem test (y ∷ ys))

  module _ (predicate : A → Bool) where
    count-prune_from :
        (fuel : ℕ) (test : A → Bool) (xs : List A)
        → length xs ≤ fuel
        → count test (prune_from fuel predicate xs) ≡ count (λ x. test x && not (predicate x)) xs
    unfolding prune_from
    count-prune_from zero test [] h = refl
    count-prune_from zero test (x ∷ xs) h = absurd (omega arith)
    count-prune_from (suc fuel) test [] h = refl
    count-prune_from (suc fuel) test (x ∷ xs) h = ground (
      arith,
      last_first_lem (λ y. test y && not (predicate y)) xs,
      count-prune_from fuel test (last_first xs),
      count-prune_from fuel test xs,
    )

    count-visited_from :
        (fuel : ℕ) (test : A → Bool) (xs : List A)
        → length xs ≤ fuel
        → count test (visited_from fuel predicate xs) ≡ count test xs
    unfolding visited_from
    count-visited_from zero test [] h = refl
    count-visited_from zero test (x ∷ xs) h = absurd (omega arith)
    count-visited_from (suc fuel) test [] h = refl
    count-visited_from (suc fuel) test (x ∷ xs) h = ground (
      arith,
      last_first_lem test xs,
      count-visited_from fuel test (last_first xs),
      count-visited_from fuel test xs,
    )

    -- `prune` calls the predicate on every element exactly as often as it stands in the vector, also on
    -- those that were swapped, and keeps exactly the elements on which it is false.
    pub prune_lem :
        (test : A → Bool) (xs : List A)
        → (count test (visited predicate xs) ≡ count test xs)
          × (count test (prune predicate xs) ≡ count (λ x. test x && not (predicate x)) xs)
    unfolding prune visited
    prune_lem test xs = (
      count-visited_from (length xs) test xs (omega arith),
      count-prune_from (length xs) test xs (omega arith),
    )
