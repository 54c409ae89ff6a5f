-- ===== src/Subscription/Tree/Slots.antt =====
-- A node as slots: the receivers of the recursive wildcard, and an entry for each other head, the default
-- one where the node has none.
use lmc_rs.Prelude.{ℕ, ◌≡◌, refl, sym, List, [], ◌∷◌, if◌then◌else◌, arith}
use lmc_rs.Prelude.Maps.{text_beq, text_beq_lem}
use lmc_rs.Subscription.Receivers
use lmc_rs.Subscription.Receivers.{Subscription}
use lmc_rs.Subscription.Tree.{
  Node, Entry, Any, Exact, node, entry, no_entry, one_entry, empty, named, default_node, find, put,
  or_default, recursive, single, plain, kind, Found, present, found_sub, in_children, get_from,
}

pub find-put :
    (k j : List ℕ) (e : Entry) (ex : Exact)
    → find j (put k e ex) ≡ (if text_beq k j then one_entry e else find j ex)
find-put k j e empty = refl
find-put k j e (named i d ex) =
    ground (arith, text_beq_lem i k, text_beq_lem i j, text_beq_lem k j, find-put k j e ex)

abbrev pub sub_of : Entry → Subscription
sub_of (entry s n) = s

abbrev pub children_of : Entry → Node
children_of (entry s n) = n

-- What a subscription object holds; one that is absent holds nothing.
abbrev pub held : Found → Subscription
held (present s) = s
held _ = Receivers.default

-- The subscription of a pattern, over the slots.
unfoldable pub view : List (List ℕ) → Node → Subscription
view [] n = Receivers.default
view (h ∷ []) (node ex any rec) = elim (kind h) [
  | recursive ↦ rec
  | single ↦ sub_of (or_default any)
  | plain ↦ sub_of (or_default (find h ex))
]
view (h ∷ k ∷ ks) (node ex any rec) = elim (kind h) [
  | recursive ↦ Receivers.default
  | single ↦ view (k ∷ ks) (children_of (or_default any))
  | plain ↦ view (k ∷ ks) (children_of (or_default (find h ex)))
]

pub view-default_node : (p : List (List ℕ)) → view p default_node ≡ Receivers.default
unfolding view
view-default_node [] = refl
view-default_node (h ∷ []) = ground arith
view-default_node (h ∷ k ∷ ks) = ground (arith, view-default_node (k ∷ ks))

held-found_sub : (any : Any) → held (found_sub any) ≡ sub_of (or_default any)
held-found_sub no_entry = refl
held-found_sub (one_entry (entry s n)) = refl

held-in_children :
    (p : List (List ℕ)) (any : Any)
    → ((n : Node) → held (get_from p n) ≡ view p n)
    → held (in_children (get_from p) any) ≡ view p (children_of (or_default any))
held-in_children p no_entry same = sym (view-default_node p)
held-in_children p (one_entry (entry s n)) same = same n

pub held-get_from : (p : List (List ℕ)) (n : Node) → held (get_from p n) ≡ view p n
unfolding get_from view
held-get_from [] n = refl
held-get_from (h ∷ []) (node ex any rec) =
    ground (arith, held-found_sub any, held-found_sub (find h ex))
held-get_from (h ∷ k ∷ ks) (node ex any rec) = ground (
  arith,
  held-in_children (k ∷ ks) any (held-get_from (k ∷ ks)),
  held-in_children (k ∷ ks) (find h ex) (held-get_from (k ∷ ks)),
)
