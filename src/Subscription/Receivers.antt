-- ===== src/Subscription/Receivers.antt =====
-- `Subscription`: the queues and the callbacks of one topic pattern. The channels are tokio's, so that
-- the outcome of a send is a parameter; a queue is its number.
pub mod Callbacks
pub mod Pruning
use lmc_rs.Prelude.{
  ℕ, zero, suc, Bool, true, false, Option, none, some, List, [], ◌∷◌, ◌++◌, map, length, ltb, ◌==◌,
  if◌then◌else◌,
}

-- `mpsc::Sender::try_send`; `UnboundedSender::send` is either delivered or closed.
pub data SendResult : Type 0 where
  delivered full closed : SendResult

pub record FastCallback : Type 0 where
  pub id : ℕ

pub record Subscription : Type 0 where
  pub lossy_queue : List ℕ
  pub unbounded_queue : List ℕ
  pub fast_callbacks : List FastCallback
  pub subscribed : Bool

abbrev pub default : Subscription
default = record { lossy_queue = []; unbounded_queue = []; fast_callbacks = []; subscribed = false }

-- A message handed to a queue or a callback.
pub data Sent : Type 0 where
  to_lossy to_unbounded to_callback : ℕ → Sent

-- `src/transceiver/commands.rs`
pub data SubscriptionKind : Type 0 where
  void : SubscriptionKind
  lossy unbounded : ℕ → SubscriptionKind
  fast_callback : FastCallback → SubscriptionKind

module _ {ℓ} {A : Type ℓ} where
  -- The last element comes first.
  abbrev pub last_first : List A → List A
  last_first [] = []
  last_first (x ∷ []) = x ∷ []
  last_first (x ∷ y ∷ ys) = elim (last_first (y ∷ ys)) [ [] ↦ x ∷ [] | l ∷ zs ↦ l ∷ x ∷ zs ]

  -- The loop of `prune`, on the elements of the vector from index `i` on: the ones before it are not
  -- touched. `swap_remove(i)` puts the last of them in place of the removed one. Every round takes an
  -- element, so that their number is fuel enough.
  unfoldable pub prune_from : ℕ → (A → Bool) → List A → List A
  prune_from zero predicate xs = []
  prune_from (suc fuel) predicate [] = []
  prune_from (suc fuel) predicate (x ∷ xs) = elim (predicate x) [
    | true ↦ prune_from fuel predicate (last_first xs)
    | false ↦ x ∷ prune_from fuel predicate xs
  ]

  unfoldable pub prune : (A → Bool) → List A → List A
  unfolding prune_from
  prune predicate xs = prune_from (length xs) predicate xs

  -- The elements in the order in which `prune` calls the predicate on them.
  unfoldable pub visited_from : ℕ → (A → Bool) → List A → List A
  visited_from zero predicate xs = []
  visited_from (suc fuel) predicate [] = []
  visited_from (suc fuel) predicate (x ∷ xs) = elim (predicate x) [
    | true ↦ x ∷ visited_from fuel predicate (last_first xs)
    | false ↦ x ∷ visited_from fuel predicate xs
  ]

  unfoldable pub visited : (A → Bool) → List A → List A
  unfolding visited_from
  visited predicate xs = visited_from (length xs) predicate xs

abbrev pub is_closed : SendResult → Bool
is_closed closed = true
is_closed _ = false

-- The channels at the time of a dispatch.
pub record Channels : Type 0 where
  pub try_send : ℕ → SendResult
  pub send : ℕ → SendResult

unfoldable pub pruned : Channels → Subscription → Subscription
pruned c s = record s {
  lossy_queue = prune (λ q. is_closed (c.try_send q)) s.lossy_queue;
  unbounded_queue = prune (λ q. is_closed (c.send q)) s.unbounded_queue;
}

-- The sends of a dispatch, in order.
unfoldable pub sends : Channels → Subscription → List Sent
sends c s =
    map to_lossy (visited (λ q. is_closed (c.try_send q)) s.lossy_queue)
    ++ (map to_unbounded (visited (λ q. is_closed (c.send q)) s.unbounded_queue)
        ++ map (λ cb. to_callback cb.id) s.fast_callbacks)

-- `Subscription::dispatch`
unfoldable pub dispatch : Channels → Subscription → Subscription × List Sent
dispatch c s = (pruned c s, sends c s)

-- `binary_search_by_key` on callbacks with rising identifiers: the index of the identifier, or the
-- index where it belongs.
pub data Search : Type 0 where
  found missing : ℕ → Search

abbrev pub later : Search → Search
later (found i) = found (suc i)
later (missing i) = missing (suc i)

unfoldable pub search_id : ℕ → List FastCallback → Search
search_id id [] = missing 0
search_id id (cb ∷ cbs) =
    let rest = later (search_id id cbs) in
    if ltb cb.id id then rest else if cb.id == id then found 0 else missing 0

-- `Vec::insert` and `Vec::remove`
abbrev pub insert_at : ℕ → FastCallback → List FastCallback → List FastCallback
insert_at zero cb cbs = cb ∷ cbs
insert_at (suc i) cb [] = cb ∷ []
insert_at (suc i) cb (x ∷ cbs) = x ∷ insert_at i cb cbs

abbrev pub remove_at : ℕ → List FastCallback → List FastCallback
remove_at i [] = []
remove_at zero (x ∷ cbs) = cbs
remove_at (suc i) (x ∷ cbs) = x ∷ remove_at i cbs

-- `last().map(|last_cb| id > last_cb.id).unwrap_or(true)`
abbrev pub above_last : ℕ → List FastCallback → Bool
above_last id [] = true
above_last id (cb ∷ []) = ltb cb.id id
above_last id (cb ∷ cb' ∷ cbs) = above_last id (cb' ∷ cbs)

abbrev pub place : FastCallback → List FastCallback → Search → List FastCallback
place cb cbs (missing i) = insert_at i cb cbs
place cb cbs (found i) = cbs

unfoldable pub insert_callback : FastCallback → List FastCallback → List FastCallback
insert_callback cb cbs =
    if above_last cb.id cbs then cbs ++ (cb ∷ []) else place cb cbs (search_id cb.id cbs)

-- `add_fast_callback`; a duplicate is only logged.
unfoldable pub add_fast_callback : FastCallback → Subscription → Subscription
add_fast_callback cb s = record s { fast_callbacks = insert_callback cb s.fast_callbacks }

abbrev pub unplace : List FastCallback → Search → List FastCallback
unplace cbs (found i) = remove_at i cbs
unplace cbs (missing i) = cbs

unfoldable pub remove_callback : ℕ → List FastCallback → List FastCallback
remove_callback id cbs = unplace cbs (search_id id cbs)

unfoldable pub remove_fast_callback : ℕ → Subscription → Subscription
remove_fast_callback id s = record s { fast_callbacks = remove_callback id s.fast_callbacks }

unfoldable pub add : SubscriptionKind → Subscription → Subscription
add void s = s
add (lossy queue) s = record s { lossy_queue = s.lossy_queue ++ (queue ∷ []) }
add (unbounded queue) s = record s { unbounded_queue = s.unbounded_queue ++ (queue ∷ []) }
add (fast_callback cb) s = add_fast_callback cb s

abbrev pub clear : Subscription → Subscription
clear s = default

abbrev pub set_subscribed : Subscription → Subscription
set_subscribed s = record s { subscribed = true }
