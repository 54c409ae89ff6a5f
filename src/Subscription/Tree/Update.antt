-- ===== src/Subscription/Tree/Update.antt =====
-- `get_or_create` changes the subscription of its pattern and no other.
use lmc_rs.Prelude.{
  ℕ, ◌≡◌, ◌≢◌, refl, sym, ap, ◌∙◌, Bool, true, false, ◌&&◌, List, [], ◌∷◌, arith, if◌then◌else◌,
}
use lmc_rs.Prelude.Maps.{text_beq, text_beq_lem}
use lmc_rs.Subscription.Receivers.{Subscription}
use lmc_rs.Subscription.Topic.{heads}
use lmc_rs.Subscription.Tree.{
  Found, invalid, present, found_sub, in_children, get_from, get, get_or_create, no_entry,
  one_entry, Any, Node, Entry, Exact, node, entry, find, put, or_default, Kind, recursive, single,
  kind, get_or_create_from, update_children, update_sub,
}
use lmc_rs.Subscription.Tree.Slots.{held, held-get_from, find-put, sub_of, children_of, view}

abbrev pub path_beq : List (List ℕ) → List (List ℕ) → Bool
path_beq [] [] = true
path_beq (h ∷ p) (g ∷ q) = text_beq h g && path_beq p q
path_beq _ _ = false

-- "#" stands at the end only.
abbrev is_recursive : Kind → Bool
is_recursive recursive = true
is_recursive _ = false

unfoldable pub valid : List (List ℕ) → Bool
valid [] = false
valid (h ∷ []) = true
valid (h ∷ k ∷ ks) = if is_recursive (kind h) then false else valid (k ∷ ks)

sub_of-update_sub :
    (f : Subscription → Subscription) (e : Entry) → sub_of (update_sub f e) ≡ f (sub_of e)
sub_of-update_sub f (entry s n) = refl

children_of-update_sub :
    (f : Subscription → Subscription) (e : Entry) → children_of (update_sub f e) ≡ children_of e
children_of-update_sub f (entry s n) = refl

update_children_lem :
    (g : Node → Bool × Node) (e : Entry)
    → ((update_children g e).0 ≡ (g (children_of e)).0)
      × (sub_of (update_children g e).1 ≡ sub_of e)
      × (children_of (update_children g e).1 ≡ (g (children_of e)).1)
update_children_lem g (entry s n) = (refl, refl, refl)

or_default-find-put :
    (k j : List ℕ) (e : Entry) (ex : Exact)
    → or_default (find j (put k e ex)) ≡ (if text_beq k j then e else or_default (find j ex))
or_default-find-put k j e ex = ground (arith, find-put k j e ex)

-- Heads with the same wildcard are equal, and equal heads are the same wildcard.
pub hash_same : (h g : List ℕ) → kind h ≡ recursive → kind g ≡ recursive → text_beq h g ≡ true
unfolding kind
hash_same h g p q =
    ground (arith, text_beq_lem h (35 ∷ []), text_beq_lem g (35 ∷ []), text_beq_lem h g)

pub star_same : (h g : List ℕ) → kind h ≡ single → kind g ≡ single → text_beq h g ≡ true
unfolding kind
star_same h g p q =
    ground (arith, text_beq_lem h (42 ∷ []), text_beq_lem g (42 ∷ []), text_beq_lem h g)

valid_one : (h : List ℕ) → valid (h ∷ []) ≡ true
unfolding valid
valid_one h = refl

valid_more :
    (h k : List ℕ) (ks : List (List ℕ))
    → valid (h ∷ k ∷ ks) ≡ (if is_recursive (kind h) then false else valid (k ∷ ks))
unfolding valid
valid_more h k ks = refl

pub view-get_or_create_from :
    (f : Subscription → Subscription) (p q : List (List ℕ)) (n : Node)
    → ((get_or_create_from f p n).0 ≡ valid p)
      × (view q (get_or_create_from f p n).1
          ≡ (if valid p && path_beq p q then f (view q n) else view q n))
unfolding get_or_create_from view
view-get_or_create_from f [] q n = unfold valid in (refl, refl)
view-get_or_create_from f (h ∷ []) [] (node ex any rec) = ground (arith, valid_one h)
view-get_or_create_from f (h ∷ []) (g ∷ []) (node ex any rec) = ground (
  arith,
  valid_one h,
  text_beq_lem h g,
  hash_same h g,
  star_same h g,
  or_default-find-put h g (update_sub f (or_default (find h ex))) ex,
  sub_of-update_sub f (or_default any),
  sub_of-update_sub f (or_default (find h ex)),
)
view-get_or_create_from f (h ∷ []) (g ∷ j ∷ js) (node ex any rec) = ground (
  arith,
  valid_one h,
  text_beq_lem h g,
  hash_same h g,
  star_same h g,
  or_default-find-put h g (update_sub f (or_default (find h ex))) ex,
  children_of-update_sub f (or_default any),
  children_of-update_sub f (or_default (find h ex)),
)
view-get_or_create_from f (h ∷ k ∷ ks) [] (node ex any rec) = ground (
  arith,
  valid_more h k ks,
  view-get_or_create_from f (k ∷ ks) [] (children_of (or_default any)),
  view-get_or_create_from f (k ∷ ks) [] (children_of (or_default (find h ex))),
  update_children_lem (get_or_create_from f (k ∷ ks)) (or_default any),
  update_children_lem (get_or_create_from f (k ∷ ks)) (or_default (find h ex)),
)
view-get_or_create_from f (h ∷ k ∷ ks) (g ∷ []) (node ex any rec) = ground (
  arith,
  valid_more h k ks,
  text_beq_lem h g,
  hash_same h g,
  star_same h g,
  view-get_or_create_from f (k ∷ ks) [] (children_of (or_default any)),
  view-get_or_create_from f (k ∷ ks) [] (children_of (or_default (find h ex))),
  update_children_lem (get_or_create_from f (k ∷ ks)) (or_default any),
  update_children_lem (get_or_create_from f (k ∷ ks)) (or_default (find h ex)),
  or_default-find-put h g
      (update_children (get_or_create_from f (k ∷ ks)) (or_default (find h ex))).1 ex,
)
view-get_or_create_from f (h ∷ k ∷ ks) (g ∷ j ∷ js) (node ex any rec) = ground (
  arith,
  valid_more h k ks,
  text_beq_lem h g,
  hash_same h g,
  star_same h g,
  view-get_or_create_from f (k ∷ ks) (j ∷ js) (children_of (or_default any)),
  view-get_or_create_from f (k ∷ ks) (j ∷ js) (children_of (or_default (find h ex))),
  update_children_lem (get_or_create_from f (k ∷ ks)) (or_default any),
  update_children_lem (get_or_create_from f (k ∷ ks)) (or_default (find h ex)),
  or_default-find-put h g
      (update_children (get_or_create_from f (k ∷ ks)) (or_default (find h ex))).1 ex,
)

found_sub-update_sub :
    (f : Subscription → Subscription) (e : Entry)
    → found_sub (one_entry (update_sub f e)) ≡ present (f (sub_of e))
found_sub-update_sub f (entry s n) = refl

in_children-update_children :
    (get : Node → Found) (g : Node → Bool × Node) (e : Entry)
    → in_children get (one_entry (update_children g e).1) ≡ get (g (children_of e)).1
in_children-update_children get g (entry s n) = refl

invalid-found_sub : (any : Any) → found_sub any ≢ invalid
invalid-found_sub no_entry e = cc
invalid-found_sub (one_entry (entry s n)) e = cc

invalid-in_children :
    (get : Node → Found) (any : Any) (P : Type 0)
    → ((n : Node) → get n ≡ invalid → P)
    → in_children get any ≡ invalid
    → P
invalid-in_children get no_entry P h e = cc
invalid-in_children get (one_entry (entry s n)) P h e = h n e

-- After a creation the subscription of the pattern is there.
get_from-get_or_create_from :
    (f : Subscription → Subscription) (p : List (List ℕ)) (n : Node)
    → valid p ≡ true
    → get_from p (get_or_create_from f p n).1 ≡ present (f (view p n))
unfolding get_from get_or_create_from view
get_from-get_or_create_from f [] n h = unfold valid in cc
get_from-get_or_create_from f (h ∷ []) (node ex any rec) ok = ground (
  arith,
  text_beq_lem h h,
  find-put h h (update_sub f (or_default (find h ex))) ex,
  found_sub-update_sub f (or_default any),
  found_sub-update_sub f (or_default (find h ex)),
)
get_from-get_or_create_from f (h ∷ k ∷ ks) (node ex any rec) ok = ground (
  arith,
  valid_more h k ks,
  text_beq_lem h h,
  find-put h h (update_children (get_or_create_from f (k ∷ ks)) (or_default (find h ex))).1 ex,
  in_children-update_children (get_from (k ∷ ks)) (get_or_create_from f (k ∷ ks)) (or_default any),
  in_children-update_children (get_from (k ∷ ks)) (get_or_create_from f (k ∷ ks))
      (or_default (find h ex)),
  get_from-get_or_create_from f (k ∷ ks) (children_of (or_default any)),
  get_from-get_or_create_from f (k ∷ ks) (children_of (or_default (find h ex))),
)

-- `get_or_create` succeeds exactly on the topics with "#" at most as their last component; then `get`
-- finds what `f` made of the subscription that was there, or of a new one, and every topic with other
-- components holds what it held. Where it fails, every topic does.
pub get_or_create-get :
    (f : Subscription → Subscription) (topic : List ℕ) (n : Node)
    → ((get_or_create f topic n).0 ≡ valid (heads topic))
      × (valid (heads topic) ≡ true
          → get topic (get_or_create f topic n).1 ≡ present (f (held (get topic n))))
      × ((other : List ℕ)
          → (valid (heads topic) && path_beq (heads topic) (heads other)) ≡ false
          → held (get other (get_or_create f topic n).1) ≡ held (get other n))
unfolding get_or_create get
get_or_create-get f topic n =
    let created = get_or_create_from f (heads topic) n in
    (
      (view-get_or_create_from f (heads topic) [] n).0,
      λ ok.
          get_from-get_or_create_from f (heads topic) n ok
          ∙ ap (λ (s : Subscription). present (f s)) (sym (held-get_from (heads topic) n)),
      λ other apart.
          held-get_from (heads other) created.1
          ∙ rw apart at (view-get_or_create_from f (heads topic) (heads other) n).1
          ∙ sym (held-get_from (heads other) n),
    )

get_from-invalid : (p : List (List ℕ)) (n : Node) → get_from p n ≡ invalid → valid p ≡ false
unfolding get_from
get_from-invalid [] n e = unfold valid in refl
get_from-invalid (h ∷ []) (node ex any rec) e =
    ground (arith, invalid-found_sub any, invalid-found_sub (find h ex))
get_from-invalid (h ∷ k ∷ ks) (node ex any rec) e = ground (
  arith,
  valid_more h k ks,
  invalid-in_children (get_from (k ∷ ks)) any (valid (k ∷ ks) ≡ false) (get_from-invalid (k ∷ ks)),
  invalid-in_children (get_from (k ∷ ks)) (find h ex) (valid (k ∷ ks) ≡ false)
      (get_from-invalid (k ∷ ks)),
)

-- `get` refuses only topics in which "#" stands before the last component.
pub get-invalid : (topic : List ℕ) (n : Node) → get topic n ≡ invalid → valid (heads topic) ≡ false
unfolding get
get-invalid topic n e = get_from-invalid (heads topic) n e
