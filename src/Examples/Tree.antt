-- ===== src/Examples/Tree.antt =====
-- Topics, patterns and a tree with one subscription.
use lmc_rs.Prelude.{ℕ, ◌≡◌, refl, true, false, ◌&&◌, List, [], ◌∷◌, if◌then◌else◌}
use lmc_rs.Subscription.Receivers.{Subscription, Channels, closed, delivered, add, lossy, pruned}
use lmc_rs.Subscription.Topic.{heads, components, heads-components}
use lmc_rs.Subscription.Tree.{
  Node, default_node, get, get_or_create, dispatch, kind, present, invalid, absent,
}
use lmc_rs.Subscription.Tree.Slots.{held}
use lmc_rs.Subscription.Tree.Update.{path_beq, valid, get_or_create-get}
use lmc_rs.Subscription.Tree.Dispatch.{matches, dispatch-get}
use lmc_rs.Subscription.Tree.Patterns.{patterns, has, IsPlain}
use lmc_rs.Subscription.Tree.Deliveries.{gathered, dispatch-sends}

-- "a/b", "a/*" and "#/a"
abbrev topic : List ℕ
topic = 97 ∷ 47 ∷ 98 ∷ []

abbrev pattern_star : List ℕ
pattern_star = 97 ∷ 47 ∷ 42 ∷ []

abbrev misplaced : List ℕ
misplaced = 35 ∷ 47 ∷ 97 ∷ []

abbrev subscribe_7 : Subscription → Subscription
subscribe_7 s = add (lossy 7) s

abbrev tree : Node
tree = (get_or_create subscribe_7 pattern_star default_node).1

abbrev channels : Channels
channels = record { try_send = λ q. delivered; send = λ q. closed }

heads-components_example : heads topic ≡ components topic
heads-components_example = heads-components topic

get_or_create-get_example :
    ((get_or_create subscribe_7 pattern_star default_node).0 ≡ valid (heads pattern_star))
    × (valid (heads pattern_star) ≡ true
        → get pattern_star (get_or_create subscribe_7 pattern_star default_node).1
          ≡ present (subscribe_7 (held (get pattern_star default_node))))
    × ((other : List ℕ)
        → (valid (heads pattern_star) && path_beq (heads pattern_star) (heads other)) ≡ false
        → held (get other (get_or_create subscribe_7 pattern_star default_node).1)
          ≡ held (get other default_node))
get_or_create-get_example = get_or_create-get subscribe_7 pattern_star default_node

misplaced_refused : get misplaced default_node ≡ invalid
unfolding get kind
misplaced_refused = refl

dispatch-get_example : held (get pattern_star (dispatch channels topic tree).0) ≡ (
    if matches (heads pattern_star) (heads topic)
    then pruned channels (held (get pattern_star tree))
    else held (get pattern_star tree))
dispatch-get_example = dispatch-get channels topic pattern_star tree

topic_IsPlain : IsPlain (heads topic)
unfolding heads kind
topic_IsPlain = (refl, (refl, tt))

dispatch-sends_example :
    ((dispatch channels topic tree).1 ≡ gathered channels (patterns (heads topic)) tree)
    × ((q : List (List ℕ)) → has q (patterns (heads topic)) ≡ matches q (heads topic))
dispatch-sends_example = dispatch-sends channels topic tree topic_IsPlain

-- The pattern "a/#/b" is refused only once "a" is there.
late : get (97 ∷ 47 ∷ 35 ∷ 47 ∷ 98 ∷ []) default_node ≡ absent
unfolding get kind
late = refl
