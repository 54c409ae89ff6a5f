-- ===== src/Subscription/Receivers/Callbacks.antt =====
-- The callbacks stay in the order of their identifiers.
use lmc_rs.Prelude.{
  suc, ℕ, ◌≤◌, ◌<◌, ◌≡◌, refl, Bool, true, false, ◌||◌, List, [], ◌∷◌, ◌++◌, arith, ltb, ◌==◌,
  if◌then◌else◌, Bool-cases, inl, inr,
}
use lmc_rs.Subscription.Receivers.{
  FastCallback, search_id, above_last, insert_callback, remove_callback, found, missing, Search,
  later, place, unplace,
}

-- The identifiers rise, from the bound on.
abbrev pub Above : ℕ → List FastCallback → Type 0
Above n [] = Unit
Above n (cb ∷ cbs) = (n ≤ cb.id) × Above (suc cb.id) cbs

abbrev Before : ℕ → List FastCallback → Type 0
Before n [] = Unit
Before n (cb ∷ cbs) = (cb.id < n) × Before n cbs

abbrev pub has_id : ℕ → List FastCallback → Bool
has_id id [] = false
has_id id (cb ∷ cbs) = if cb.id == id then true else has_id id cbs

-- Where a callback belongs in a sorted list.
insert_sorted : FastCallback → List FastCallback → List FastCallback
insert_sorted new [] = new ∷ []
insert_sorted new (cb ∷ cbs) =
    if ltb cb.id new.id
    then cb ∷ insert_sorted new cbs
    else if cb.id == new.id
    then cb ∷ cbs
    else new ∷ cb ∷ cbs

place-later :
    (new cb : FastCallback) (cbs : List FastCallback) (r : Search)
    → place new (cb ∷ cbs) (later r) ≡ cb ∷ place new cbs r
place-later new cb cbs (found i) = refl
place-later new cb cbs (missing i) = refl

place-search_id :
    (new : FastCallback) (cbs : List FastCallback)
    → place new cbs (search_id new.id cbs) ≡ insert_sorted new cbs
unfolding search_id insert_sorted
place-search_id new [] = refl
place-search_id new (cb ∷ cbs) =
    ground (arith, place-later new cb cbs (search_id new.id cbs), place-search_id new cbs)

-- Behind the last callback the new one goes to the end.
last-insert_sorted :
    (n : ℕ) (new : FastCallback) (cbs : List FastCallback)
    → Above n cbs
    → above_last new.id cbs ≡ true
    → (cbs ++ (new ∷ []) ≡ insert_sorted new cbs) × Before new.id cbs
unfolding insert_sorted
last-insert_sorted n new [] h e = (refl, tt)
last-insert_sorted n new (cb ∷ []) h e = ground arith
last-insert_sorted n new (cb ∷ cb' ∷ cbs) h e =
    ground (arith, last-insert_sorted (suc cb.id) new (cb' ∷ cbs) h.1 e)

insert_callback-insert_sorted :
    (n : ℕ) (new : FastCallback) (cbs : List FastCallback)
    → Above n cbs
    → insert_callback new cbs ≡ insert_sorted new cbs
unfolding insert_callback
insert_callback-insert_sorted n new cbs h = elim (Bool-cases (above_last new.id cbs)) [
  | inl last ↦ rw last ((last-insert_sorted n new cbs h last).0)
  | inr inside ↦ rw inside (place-search_id new cbs)
]

insert_sorted-Above :
    (n : ℕ) (new : FastCallback) (cbs : List FastCallback)
    → Above n cbs
    → n ≤ new.id
    → Above n (insert_sorted new cbs)
unfolding insert_sorted
insert_sorted-Above n new [] h lt = (lt, tt)
insert_sorted-Above n new (cb ∷ cbs) h lt =
    ground (arith, insert_sorted-Above (suc cb.id) new cbs h.1)

has_id-insert_sorted :
    (new : FastCallback) (cbs : List FastCallback) (id : ℕ)
    → has_id id (insert_sorted new cbs) ≡ (new.id == id || has_id id cbs)
unfolding insert_sorted
has_id-insert_sorted new [] id = ground arith
has_id-insert_sorted new (cb ∷ cbs) id = ground (arith, has_id-insert_sorted new cbs id)

-- Adding a callback to callbacks with rising identifiers, on either path, keeps them rising, and the
-- identifiers are then the old ones and the new one.
pub insert_callback_lem :
    (n : ℕ) (new : FastCallback) (cbs : List FastCallback)
    → Above n cbs
    → n ≤ new.id
    → Above n (insert_callback new cbs)
      × ((id : ℕ) → has_id id (insert_callback new cbs) ≡ (new.id == id || has_id id cbs))
insert_callback_lem n new cbs h lt =
    rw (insert_callback-insert_sorted n new cbs h)
      (insert_sorted-Above n new cbs h lt, has_id-insert_sorted new cbs)

remove_sorted : ℕ → List FastCallback → List FastCallback
remove_sorted id [] = []
remove_sorted id (cb ∷ cbs) =
    if ltb cb.id id then cb ∷ remove_sorted id cbs else if cb.id == id then cbs else cb ∷ cbs

unplace-later :
    (cb : FastCallback) (cbs : List FastCallback) (r : Search)
    → unplace (cb ∷ cbs) (later r) ≡ cb ∷ unplace cbs r
unplace-later cb cbs (found i) = refl
unplace-later cb cbs (missing i) = refl

remove_callback-remove_sorted :
    (id : ℕ) (cbs : List FastCallback) → remove_callback id cbs ≡ remove_sorted id cbs
unfolding remove_callback search_id remove_sorted
remove_callback-remove_sorted id [] = refl
remove_callback-remove_sorted id (cb ∷ cbs) =
    ground (arith, unplace-later cb cbs (search_id id cbs), remove_callback-remove_sorted id cbs)

has_id-Above : (n id : ℕ) (cbs : List FastCallback) → Above n cbs → id < n → has_id id cbs ≡ false
has_id-Above n id [] h le = refl
has_id-Above n id (cb ∷ cbs) h le = ground (arith, has_id-Above (suc cb.id) id cbs h.1)

Above-mono : (m n : ℕ) (cbs : List FastCallback) → m ≤ n → Above n cbs → Above m cbs
Above-mono m n [] le h = tt
Above-mono m n (cb ∷ cbs) le h = (omega arith, h.1)

remove_sorted-Above :
    (n id : ℕ) (cbs : List FastCallback) → Above n cbs → Above n (remove_sorted id cbs)
unfolding remove_sorted
remove_sorted-Above n id [] h = tt
remove_sorted-Above n id (cb ∷ cbs) h =
    ground (arith, remove_sorted-Above (suc cb.id) id cbs h.1, Above-mono n (suc cb.id) cbs)

has_id-remove_sorted :
    (n id other : ℕ) (cbs : List FastCallback)
    → Above n cbs
    → has_id other (remove_sorted id cbs) ≡ (if id == other then false else has_id other cbs)
unfolding remove_sorted
has_id-remove_sorted n id other [] h = ground arith
has_id-remove_sorted n id other (cb ∷ cbs) h = ground (
  arith,
  has_id-remove_sorted (suc cb.id) id other cbs h.1,
  has_id-Above (suc cb.id) other cbs h.1,
)

-- Removing an identifier from callbacks with rising identifiers keeps them rising, and the identifiers
-- are then the old ones without it.
pub remove_callback_lem :
    (n id : ℕ) (cbs : List FastCallback)
    → Above n cbs
    → Above n (remove_callback id cbs)
      × ((other : ℕ)
          → has_id other (remove_callback id cbs)
            ≡ (if id == other then false else has_id other cbs))
remove_callback_lem n id cbs h =
    rw (remove_callback-remove_sorted id cbs)
      (remove_sorted-Above n id cbs h, λ other. has_id-remove_sorted n id other cbs h)
