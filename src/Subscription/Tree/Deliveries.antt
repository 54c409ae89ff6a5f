-- ===== src/Subscription/Tree/Deliveries.antt =====
-- What a dispatch sends, and to which subscriptions.
use lmc_rs.Prelude.{
  ℕ, ◌≡◌, refl, sym, ap, ◌∙◌, List, [], ◌∷◌, ◌++◌, map, append-nil, append_assoc, arith, All,
}
use lmc_rs.Subscription.Receivers
use lmc_rs.Subscription.Receivers.{Subscription, Channels, Sent, sends, visited, visited_from}
use lmc_rs.Subscription.Topic.{heads}
use lmc_rs.Subscription.Tree.{
  Node, Any, Exact, node, entry, find, or_default, plain, kind, no_entry, one_entry, default_node,
  on_any, entry_leaf, entry_children, dispatch_from, dispatch,
}
use lmc_rs.Subscription.Tree.Slots.{sub_of, children_of, view, view-default_node}
use lmc_rs.Subscription.Tree.Dispatch.{matches}
use lmc_rs.Subscription.Tree.Patterns.{hash, star, patterns, IsPlain, has, has-patterns}

-- The sends of the subscriptions of some patterns.
abbrev pub gathered : Channels → List (List (List ℕ)) → Node → List Sent
gathered c [] n = []
gathered c (q ∷ qs) n = sends c (view q n) ++ gathered c qs n

gathered-append :
    (c : Channels) (xs ys : List (List (List ℕ))) (n : Node)
    → gathered c (xs ++ ys) n ≡ gathered c xs n ++ gathered c ys n
gathered-append c [] ys n = refl
gathered-append c (x ∷ xs) ys n =
    ap (◌++◌ (sends c (view x n))) (gathered-append c xs ys n)
    ∙ sym (append_assoc (sends c (view x n)) (gathered c xs n) (gathered c ys n))

sends-default : (c : Channels) → sends c Receivers.default ≡ []
unfolding sends visited visited_from
sends-default c = refl

gathered-default_node : (c : Channels) (qs : List (List (List ℕ))) → gathered c qs default_node ≡ []
gathered-default_node c [] = refl
gathered-default_node c (q ∷ qs) =
    rw (view-default_node q, sends-default c) (gathered-default_node c qs)

abbrev IsLonger : List (List ℕ) → Type 0
IsLonger [] = ⊥
IsLonger (h ∷ q) = Unit

IsLonger-map : (h : List ℕ) (xs : List (List (List ℕ))) → All IsLonger (map (◌∷◌ h) xs)
IsLonger-map h [] = tt
IsLonger-map h (x ∷ xs) = (tt, IsLonger-map h xs)

IsLonger-append :
    (xs ys : List (List (List ℕ))) → All IsLonger xs → All IsLonger ys → All IsLonger (xs ++ ys)
IsLonger-append [] ys p q = q
IsLonger-append (x ∷ xs) ys p q = (p.0, IsLonger-append xs ys p.1 q)

IsLonger-patterns : (t : List ℕ) (ts : List (List ℕ)) → All IsLonger (patterns (t ∷ ts))
unfolding patterns
IsLonger-patterns t ts =
    (tt, IsLonger-append _ _ (IsLonger-map star (patterns ts)) (IsLonger-map t (patterns ts)))

view-hash : (ex : Exact) (any : Any) (rec : Subscription) → view (hash ∷ []) (node ex any rec) ≡ rec
unfolding view kind
view-hash ex any rec = refl

view-star :
    (ex : Exact) (any : Any) (rec : Subscription)
    → view (star ∷ []) (node ex any rec) ≡ sub_of (or_default any)
unfolding view kind
view-star ex any rec = refl

view-plain :
    (t : List ℕ) (ex : Exact) (any : Any) (rec : Subscription)
    → kind t ≡ plain
    → view (t ∷ []) (node ex any rec) ≡ sub_of (or_default (find t ex))
unfolding view
view-plain t ex any rec e = rw (e, view) refl

view-plain_child :
    (t h : List ℕ) (q : List (List ℕ)) (ex : Exact) (any : Any) (rec : Subscription)
    → kind t ≡ plain
    → view (t ∷ h ∷ q) (node ex any rec) ≡ view (h ∷ q) (children_of (or_default (find t ex)))
unfolding view
view-plain_child t h q ex any rec e = ground arith

-- The patterns behind a head are those of the children.
gathered-star :
    (c : Channels) (qs : List (List (List ℕ))) (ex : Exact) (any : Any) (rec : Subscription)
    → All IsLonger qs
    → gathered c (map (◌∷◌ star) qs) (node ex any rec)
      ≡ gathered c qs (children_of (or_default any))
unfolding view kind
gathered-star c [] ex any rec all = refl
gathered-star c ([] ∷ qs) ex any rec all = absurd all.0
gathered-star c ((h ∷ q) ∷ qs) ex any rec all =
    ap (◌++◌ (sends c (view (h ∷ q) (children_of (or_default any)))))
      (gathered-star c qs ex any rec all.1)

gathered-plain :
    (c : Channels) (t : List ℕ) (qs : List (List (List ℕ))) (ex : Exact) (any : Any)
    (rec : Subscription)
    → kind t ≡ plain
    → All IsLonger qs
    → gathered c (map (◌∷◌ t) qs) (node ex any rec)
      ≡ gathered c qs (children_of (or_default (find t ex)))
gathered-plain c t [] ex any rec e all = refl
gathered-plain c t ([] ∷ qs) ex any rec e all = absurd all.0
gathered-plain c t ((h ∷ q) ∷ qs) ex any rec e all =
    rw (view-plain_child t h q ex any rec e, gathered-plain c t qs ex any rec e all.1) refl

sent-leaf :
    (c : Channels) (any : Any) → (on_any (entry_leaf c) any).1 ≡ sends c (sub_of (or_default any))
unfolding Receivers.dispatch
sent-leaf c no_entry = sym (sends-default c)
sent-leaf c (one_entry (entry s n)) = refl

sent-children :
    (c : Channels) (qs : List (List (List ℕ))) (d : Node → Node × List Sent) (any : Any)
    → ((n : Node) → (d n).1 ≡ gathered c qs n)
    → (on_any (entry_children d) any).1 ≡ gathered c qs (children_of (or_default any))
sent-children c qs d no_entry h = sym (gathered-default_node c qs)
sent-children c qs d (one_entry (entry s n)) h = h n

gathered-patterns :
    (c : Channels) (t : List ℕ) (ts : List (List ℕ)) (n : Node)
    → gathered c (patterns (t ∷ ts)) n
      ≡ sends c (view (hash ∷ []) n)
        ++ (gathered c (map (◌∷◌ star) (patterns ts)) n ++ gathered c (map (◌∷◌ t) (patterns ts)) n)
unfolding patterns
gathered-patterns c t ts n =
    ap (◌++◌ (sends c (view (hash ∷ []) n)))
      (gathered-append c (map (◌∷◌ star) (patterns ts)) (map (◌∷◌ t) (patterns ts)) n)

gathered-patterns_leaf :
    (c : Channels) (t : List ℕ) (ex : Exact) (any : Any) (rec : Subscription)
    → kind t ≡ plain
    → gathered c (patterns (t ∷ [])) (node ex any rec)
      ≡ sends c rec
        ++ (sends c (sub_of (or_default any)) ++ sends c (sub_of (or_default (find t ex))))
unfolding patterns
gathered-patterns_leaf c t ex any rec e =
    rw
      (
        view-hash ex any rec,
        view-star ex any rec,
        view-plain t ex any rec e,
        append-nil (sends c (sub_of (or_default (find t ex)))),
      )
      refl

sent-dispatch_from :
    (c : Channels) (ts : List (List ℕ)) (n : Node)
    → IsPlain ts
    → (dispatch_from c ts n).1 ≡ gathered c (patterns ts) n
unfolding dispatch_from Receivers.dispatch
sent-dispatch_from c [] n all = unfold view patterns in sym (rw (sends-default c) refl)
sent-dispatch_from c (t ∷ []) (node ex any rec) all =
    rw (gathered-patterns_leaf c t ex any rec all.0, sent-leaf c any, sent-leaf c (find t ex)) refl
sent-dispatch_from c (t ∷ u ∷ ts) (node ex any rec) all =
    let below = sent-dispatch_from c (u ∷ ts) in
    rw
      (
        gathered-patterns c t (u ∷ ts) (node ex any rec),
        view-hash ex any rec,
        gathered-star c (patterns (u ∷ ts)) ex any rec (IsLonger-patterns u ts),
        gathered-plain c t (patterns (u ∷ ts)) ex any rec all.0 (IsLonger-patterns u ts),
        sent-children c (patterns (u ∷ ts)) (dispatch_from c (u ∷ ts)) any (λ n. below n all.1),
        sent-children c (patterns (u ∷ ts)) (dispatch_from c (u ∷ ts)) (find t ex)
            (λ n. below n all.1),
      )
      refl

-- On a topic without wildcards a dispatch sends, in order, what each matching pattern's subscription
-- sends, every pattern in its turn: those are the patterns in `patterns`, and a pattern stands there
-- exactly if it matches.
pub dispatch-sends :
    (c : Channels) (topic : List ℕ) (n : Node)
    → IsPlain (heads topic)
    → ((dispatch c topic n).1 ≡ gathered c (patterns (heads topic)) n)
      × ((q : List (List ℕ)) → has q (patterns (heads topic)) ≡ matches q (heads topic))
unfolding dispatch
dispatch-sends c topic n all =
    (sent-dispatch_from c (heads topic) n all, λ q. has-patterns q (heads topic) all)
