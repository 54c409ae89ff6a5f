-- ===== src/Subscription/Topic.antt =====
-- `TopicSlicer`, which splits a topic at its slashes, and the patterns that match a topic.
use lmc_rs.Prelude.{
  ℕ, zero, suc, ◌≤◌, ◌<◌, ◌≡◌, refl, sym, ap, arith, Option, none, some, List, [], ◌∷◌, length,
  ◌==◌, if◌then◌else◌, Bool-cases, inl, inr,
}

pub record TopicSlicer : Type 0 where
  pub head : List ℕ
  pub rest : Option (List ℕ)

abbrev slash : ℕ
slash = 47

abbrev put_front : ℕ → TopicSlicer → TopicSlicer
put_front c t = record { head = c ∷ t.head; rest = t.rest }

-- `TopicSlicer::new`
unfoldable pub new : List ℕ → TopicSlicer
new [] = record { head = []; rest = none }
new (c ∷ s) =
    let later = new s in
    if c == slash then record { head = []; rest = some s } else put_front c later

-- `TopicSlicer::tail`
unfoldable pub tail : TopicSlicer → Option TopicSlicer
unfolding new
tail t = elim t.rest [ none ↦ none | some s ↦ some (new s) ]

-- The heads that a loop over a slicer meets. Each round leaves a shorter rest, so that the length of
-- the topic is fuel enough.
unfoldable pub heads_from : ℕ → TopicSlicer → List (List ℕ)
unfolding tail
heads_from zero t = t.head ∷ []
heads_from (suc fuel) t = elim (tail t) [
  | none ↦ t.head ∷ []
  | some next ↦ t.head ∷ heads_from fuel next
]

unfoldable pub heads : List ℕ → List (List ℕ)
unfolding heads_from
heads topic = heads_from (length topic) (new topic)

-- The components of a topic: what stands between slashes.
abbrev on_head : ℕ → List (List ℕ) → List (List ℕ)
on_head c [] = (c ∷ []) ∷ []
on_head c (x ∷ xs) = (c ∷ x) ∷ xs

unfoldable pub components : List ℕ → List (List ℕ)
components [] = [] ∷ []
components (c ∷ s) = let later = components s in if c == slash then [] ∷ later else on_head c later

-- `new` finds the first component, and its rest has the others.
abbrev Follows : List ℕ → Option (List ℕ) → List ℕ → List (List ℕ) → Type 0
Follows h none s cs = cs ≡ h ∷ []
Follows h (some r) s cs = (cs ≡ h ∷ components r) × (length r < length s)

Follows-put_front :
    (c : ℕ) (h : List ℕ) (o : Option (List ℕ)) (s : List ℕ) (cs : List (List ℕ))
    → Follows h o s cs
    → Follows (c ∷ h) o (c ∷ s) (on_head c cs)
Follows-put_front c h none s cs f = ap (on_head c) f
Follows-put_front c h (some r) s cs f = (ap (on_head c) f.0, omega (arith, f.1))

new-Follows : (s : List ℕ) → Follows (new s).head (new s).rest s (components s)
unfolding new components
new-Follows [] = refl
new-Follows (c ∷ s) = elim (Bool-cases (c == slash)) [
  | inl at_slash ↦ rw at_slash (refl, omega arith)
  | inr inside ↦
      rw inside (Follows-put_front c (new s).head (new s).rest s (components s) (new-Follows s))
]

heads_from-components :
    (fuel : ℕ) (h : List ℕ) (o : Option (List ℕ)) (s : List ℕ)
    → length s ≤ fuel
    → Follows h o s (components s)
    → heads_from fuel (record { head = h; rest = o }) ≡ components s
unfolding heads_from tail
heads_from-components zero h none s le f = cc
heads_from-components (suc fuel) h none s le f = cc
heads_from-components zero h (some r) s le f = absurd (omega (arith, f.1))
heads_from-components (suc fuel) h (some r) s le f =
    rw (heads_from-components fuel (new r).head (new r).rest r (omega (arith, f.1)) (new-Follows r))
      (sym f.0)

-- The loop over a slicer meets exactly the components of its topic, in order, and then ends.
pub heads-components : (topic : List ℕ) → heads topic ≡ components topic
unfolding heads
heads-components topic =
    heads_from-components (length topic) (new topic).head (new topic).rest topic (omega arith)
      (new-Follows topic)
