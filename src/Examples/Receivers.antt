-- ===== src/Examples/Receivers.antt =====
-- Callbacks out of order.
use lmc_rs.Subscription.Receivers.Pruning.{count, prune_lem}
use lmc_rs.Prelude.{leb, ℕ, ◌≡◌, ◌||◌, ◌==◌, List, [], ◌∷◌, arith}
use lmc_rs.Subscription.Receivers.{FastCallback, insert_callback, visited, prune}
use lmc_rs.Subscription.Receivers.Callbacks.{Above, has_id, insert_callback_lem}

abbrev callback : ℕ → FastCallback
callback id = record { id = id }

abbrev two : List FastCallback
two = callback 2 ∷ callback 5 ∷ []

insert_callback_example :
    Above 0 (insert_callback (callback 3) two)
    × ((id : ℕ) → has_id id (insert_callback (callback 3) two) ≡ (3 == id || has_id id two))
insert_callback_example =
    insert_callback_lem 0 (callback 3) two (omega arith, (omega arith, tt)) (omega arith)

-- Of four queues two are closed.
prune_example :
    (count (λ q. q == 4) (visited (λ q. leb q 2) (1 ∷ 3 ∷ 2 ∷ 4 ∷ [])) ≡ 1)
    × (count (λ q. q == 4) (prune (λ q. leb q 2) (1 ∷ 3 ∷ 2 ∷ 4 ∷ [])) ≡ 1)
prune_example = prune_lem (λ q. leb q 2) (λ q. q == 4) (1 ∷ 3 ∷ 2 ∷ 4 ∷ [])
