-- ===== src/Subscription/Tree.antt =====
-- The tree of subscriptions. A loop over the slicer of a topic is a recursion on the list of its heads
-- (`Topic.heads`), which is never empty.
pub mod Slots
pub mod Update
pub mod Dispatch
pub mod Patterns
pub mod Deliveries
use lmc_rs.Prelude.{ℕ, Bool, true, false, List, [], ◌∷◌, ◌++◌, if◌then◌else◌}
use lmc_rs.Prelude.Maps.{text_beq}
use lmc_rs.Subscription.Receivers
use lmc_rs.Subscription.Receivers.{Subscription, Channels, Sent}
use lmc_rs.Subscription.Topic.{heads}

-- `SubscriptionSetNode`, `SubscriptionSetEntry`, and the option and the map in a node.
mutual
  pub data Node : Type 0 where
    node : Exact → Any → Subscription → Node

  pub data Entry : Type 0 where
    entry : Subscription → Node → Entry

  pub data Any : Type 0 where
    no_entry : Any
    one_entry : Entry → Any

  pub data Exact : Type 0 where
    empty : Exact
    named : List ℕ → Entry → Exact → Exact

abbrev pub default_node : Node
default_node = node empty no_entry Receivers.default

abbrev pub default_entry : Entry
default_entry = entry Receivers.default default_node

-- `HashMap::get_mut`, and the insertion of a value under a key.
abbrev pub find : List ℕ → Exact → Any
find k empty = no_entry
find k (named j e ex) = if text_beq j k then one_entry e else find k ex

abbrev pub put : List ℕ → Entry → Exact → Exact
put k e empty = named k e empty
put k e (named j d ex) =
    let rest = put k e ex in if text_beq j k then named j e ex else named j d rest

-- `get_or_insert_with(Default::default)`
abbrev pub or_default : Any → Entry
or_default no_entry = default_entry
or_default (one_entry e) = e

-- What a head stands for.
pub data Kind : Type 0 where
  recursive single plain : Kind

unfoldable pub kind : List ℕ → Kind
kind h = if text_beq h (35 ∷ []) then recursive else if text_beq h (42 ∷ []) then single else plain

-- `Err(())`, `Ok(None)` and `Ok(Some(_))`
pub data Found : Type 0 where
  invalid absent : Found
  present : Subscription → Found

abbrev pub found_sub : Any → Found
found_sub no_entry = absent
found_sub (one_entry (entry s n)) = present s

abbrev pub in_children : (Node → Found) → Any → Found
in_children f no_entry = absent
in_children f (one_entry (entry s n)) = f n

unfoldable pub get_from : List (List ℕ) → Node → Found
get_from [] n = invalid
get_from (h ∷ []) (node ex any rec) = elim (kind h) [
  | recursive ↦ present rec
  | single ↦ found_sub any
  | plain ↦ found_sub (find h ex)
]
get_from (h ∷ k ∷ ks) (node ex any rec) = elim (kind h) [
  | recursive ↦ invalid
  | single ↦ in_children (get_from (k ∷ ks)) any
  | plain ↦ in_children (get_from (k ∷ ks)) (find h ex)
]

-- `SubscriptionSet::get`
unfoldable pub get : List ℕ → Node → Found
unfolding get_from heads
get topic n = get_from (heads topic) n

abbrev pub update_sub : (Subscription → Subscription) → Entry → Entry
update_sub f (entry s n) = entry (f s) n

abbrev pub update_children : (Node → Bool × Node) → Entry → Bool × Entry
update_children f (entry s n) = ((f n).0, entry s (f n).1)

abbrev pub set_any : Exact → Subscription → Bool × Entry → Bool × Node
set_any ex rec r = (r.0, node ex (one_entry r.1) rec)

abbrev pub set_exact : List ℕ → Exact → Any → Subscription → Bool × Entry → Bool × Node
set_exact h ex any rec r = (r.0, node (put h r.1 ex) any rec)

-- The subscription is changed by `f` through the reference that is returned. `false` is `Err(())`; the
-- nodes before the misplaced "#" have been created then.
unfoldable pub get_or_create_from :
    (Subscription → Subscription) → List (List ℕ) → Node → Bool × Node
get_or_create_from f [] n = (false, n)
get_or_create_from f (h ∷ []) (node ex any rec) = elim (kind h) [
  | recursive ↦ (true, node ex any (f rec))
  | single ↦ set_any ex rec (true, update_sub f (or_default any))
  | plain ↦ set_exact h ex any rec (true, update_sub f (or_default (find h ex)))
]
get_or_create_from f (h ∷ k ∷ ks) (node ex any rec) = elim (kind h) [
  | recursive ↦ (false, node ex any rec)
  | single ↦ set_any ex rec (update_children (get_or_create_from f (k ∷ ks)) (or_default any))
  | plain ↦
      set_exact h ex any rec
        (update_children (get_or_create_from f (k ∷ ks)) (or_default (find h ex)))
]

-- `SubscriptionSet::get_or_create`
unfoldable pub get_or_create : (Subscription → Subscription) → List ℕ → Node → Bool × Node
unfolding get_or_create_from heads
get_or_create f topic n = get_or_create_from f (heads topic) n

-- An operation that returns the entry, if there is one, and what it sent.
abbrev pub on_any : (Entry → Entry × List Sent) → Any → Any × List Sent
on_any f no_entry = (no_entry, [])
on_any f (one_entry e) = (one_entry (f e).0, (f e).1)

abbrev pub back : List ℕ → Exact → Any → Exact
back h ex no_entry = ex
back h ex (one_entry e) = put h e ex

abbrev pub back_exact : List ℕ → Exact → Any × List Sent → Exact × List Sent
back_exact h ex r = (back h ex r.0, r.1)

abbrev pub entry_leaf : Channels → Entry → Entry × List Sent
entry_leaf c (entry s n) = (entry (Receivers.dispatch c s).0 n, (Receivers.dispatch c s).1)

abbrev pub entry_children : (Node → Node × List Sent) → Entry → Entry × List Sent
entry_children f (entry s n) = (entry s (f n).0, (f n).1)

abbrev pub join : Subscription × List Sent → Any × List Sent → Exact × List Sent → Node × List Sent
join rec any ex = (node ex.0 any.0 rec.0, rec.1 ++ (any.1 ++ ex.1))

-- `SubscriptionSetNode::dispatch`, with `SubscriptionSetEntry::dispatch` on the entries: on the leaf
-- behind the last head, on the children before.
unfoldable pub dispatch_from : Channels → List (List ℕ) → Node → Node × List Sent
dispatch_from c [] n = (n, [])
dispatch_from c (h ∷ []) (node ex any rec) =
    join (Receivers.dispatch c rec) (on_any (entry_leaf c) any)
      (back_exact h ex (on_any (entry_leaf c) (find h ex)))
dispatch_from c (h ∷ k ∷ ks) (node ex any rec) =
    join (Receivers.dispatch c rec) (on_any (entry_children (dispatch_from c (k ∷ ks))) any)
      (back_exact h ex (on_any (entry_children (dispatch_from c (k ∷ ks))) (find h ex)))

-- `SubscriptionSet::dispatch`
unfoldable pub dispatch : Channels → List ℕ → Node → Node × List Sent
unfolding dispatch_from heads
dispatch c topic n = dispatch_from c (heads topic) n
