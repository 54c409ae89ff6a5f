-- ===== src/Subscription/Tree/Dispatch.antt =====
-- A dispatch reaches the subscriptions whose patterns match the topic, and no other.
use lmc_rs.Prelude.{ℕ, ◌≡◌, refl, sym, Bool, true, false, ◌&&◌, List, [], ◌∷◌, arith, if◌then◌else◌}
use lmc_rs.Prelude.Maps.{text_beq, text_beq_lem}
use lmc_rs.Subscription.Receivers
use lmc_rs.Subscription.Topic.{heads}
use lmc_rs.Subscription.Receivers.{Subscription, Channels, Sent, pruned, prune, prune_from}
use lmc_rs.Subscription.Tree.{
  get, dispatch, Node, Entry, Any, Exact, node, entry, find, or_default, recursive, single, plain,
  kind, no_entry, one_entry, on_any, back_exact, entry_leaf, entry_children, dispatch_from,
}
use lmc_rs.Subscription.Tree.Slots.{
  held, held-get_from, find-put, sub_of, children_of, view, view-default_node,
}

-- Whether a pattern matches a topic: "*" stands for one component, "#" at the end for one or more.
abbrev is_nil : List (List ℕ) → Bool
is_nil [] = true
is_nil _ = false

unfoldable pub matches : List (List ℕ) → List (List ℕ) → Bool
matches [] ts = is_nil ts
matches (p ∷ ps) [] = false
matches (p ∷ ps) (t ∷ ts) = elim (kind p) [
  | recursive ↦ is_nil ps
  | single ↦ matches ps ts
  | plain ↦ text_beq t p && matches ps ts
]

matches_more :
    (p t : List ℕ) (ps ts : List (List ℕ))
    → matches (p ∷ ps) (t ∷ ts) ≡ (elim (kind p) [
      | recursive ↦ is_nil ps
      | single ↦ matches ps ts
      | plain ↦ text_beq t p && matches ps ts
    ])
unfolding matches
matches_more p t ps ts = refl

pruned-default : (c : Channels) → pruned c Receivers.default ≡ Receivers.default
unfolding pruned prune prune_from
pruned-default c = refl

sub_of-leaf :
    (c : Channels) (any : Any)
    → sub_of (or_default (on_any (entry_leaf c) any).0) ≡ pruned c (sub_of (or_default any))
unfolding Receivers.dispatch
sub_of-leaf c no_entry = sym (pruned-default c)
sub_of-leaf c (one_entry (entry s n)) = refl

children_of-leaf :
    (c : Channels) (any : Any)
    → children_of (or_default (on_any (entry_leaf c) any).0) ≡ children_of (or_default any)
children_of-leaf c no_entry = refl
children_of-leaf c (one_entry (entry s n)) = refl

sub_of-children :
    (d : Node → Node × List Sent) (any : Any)
    → sub_of (or_default (on_any (entry_children d) any).0) ≡ sub_of (or_default any)
sub_of-children d no_entry = refl
sub_of-children d (one_entry (entry s n)) = refl

view-children :
    (c : Channels) (q : List (List ℕ)) (d : Node → Node × List Sent) (b : Bool) (any : Any)
    → ((n : Node) → view q (d n).0 ≡ (if b then pruned c (view q n) else view q n))
    → view q (children_of (or_default (on_any (entry_children d) any).0)) ≡ (
        if b
        then pruned c (view q (children_of (or_default any)))
        else view q (children_of (or_default any)))
view-children c q d b no_entry h = ground (arith, view-default_node q, pruned-default c)
view-children c q d b (one_entry (entry s n)) h = h n

-- The entry under a head behind the dispatch to another one.
find-back_exact :
    (t p : List ℕ) (f : Entry → Entry × List Sent) (ex : Exact)
    → or_default (find p (back_exact t ex (on_any f (find t ex))).0)
      ≡ (if text_beq t p then or_default (on_any f (find t ex)).0 else or_default (find p ex))
find-back_exact t p f ex =
    ground (arith, text_beq_lem t p, find-put t p (f (or_default (find t ex))).0 ex)

pub view-dispatch_from :
    (c : Channels) (q ts : List (List ℕ)) (n : Node)
    → view q (dispatch_from c ts n).0 ≡ (if matches q ts then pruned c (view q n) else view q n)
unfolding view dispatch_from Receivers.dispatch
view-dispatch_from c [] [] n = unfold matches in sym (pruned-default c)
view-dispatch_from c (p ∷ ps) [] n = unfold matches in refl
view-dispatch_from c [] (t ∷ []) (node ex any rec) = unfold matches in refl
view-dispatch_from c [] (t ∷ u ∷ ts) (node ex any rec) = unfold matches in refl
view-dispatch_from c (p ∷ []) (t ∷ []) (node ex any rec) =
    unfold matches in
    ground (
      arith,
      find-back_exact t p (entry_leaf c) ex,
      sub_of-leaf c any,
      sub_of-leaf c (find t ex),
      text_beq_lem t p,
    )
view-dispatch_from c (p ∷ q ∷ qs) (t ∷ []) (node ex any rec) =
    unfold matches in
    ground (
      arith,
      find-back_exact t p (entry_leaf c) ex,
      children_of-leaf c any,
      children_of-leaf c (find t ex),
      text_beq_lem t p,
    )
view-dispatch_from c (p ∷ []) (t ∷ u ∷ ts) (node ex any rec) =
    unfold matches in
    ground (
      arith,
      find-back_exact t p (entry_children (dispatch_from c (u ∷ ts))) ex,
      sub_of-children (dispatch_from c (u ∷ ts)) any,
      sub_of-children (dispatch_from c (u ∷ ts)) (find t ex),
      text_beq_lem t p,
    )
view-dispatch_from c (p ∷ q ∷ qs) (t ∷ u ∷ ts) (node ex any rec) = ground (
  arith,
  matches_more p t (q ∷ qs) (u ∷ ts),
  find-back_exact t p (entry_children (dispatch_from c (u ∷ ts))) ex,
  view-children c (q ∷ qs) (dispatch_from c (u ∷ ts)) (matches (q ∷ qs) (u ∷ ts)) any
      (view-dispatch_from c (q ∷ qs) (u ∷ ts)),
  view-children c (q ∷ qs) (dispatch_from c (u ∷ ts)) (matches (q ∷ qs) (u ∷ ts)) (find t ex)
      (view-dispatch_from c (q ∷ qs) (u ∷ ts)),
  text_beq_lem t p,
)

-- A dispatch drops closed queues from the subscriptions whose patterns match the topic; every other
-- pattern holds what it held.
pub dispatch-get :
    (c : Channels) (topic pattern : List ℕ) (n : Node)
    → held (get pattern (dispatch c topic n).0) ≡ (
        if matches (heads pattern) (heads topic)
        then pruned c (held (get pattern n))
        else held (get pattern n))
unfolding dispatch get
dispatch-get c topic pattern n =
    rw
      (
        held-get_from (heads pattern) (dispatch_from c (heads topic) n).0,
        held-get_from (heads pattern) n,
      )
      (view-dispatch_from c (heads pattern) (heads topic) n)
