-- ===== src/Futures/Subscribe/Others.antt =====
-- A `SubscribeFuture` beside another one: the poll of one leaves the waker of the other.
use lmc_rs.Prelude.{ℕ, ◌≡◌, ◌≢◌, Option, none, some, List, get_elem?}
use lmc_rs.Prelude.Maps.{text_eq, lookup}
use lmc_rs.Shared.{pending, Waker}
use lmc_rs.Futures.{Poll}
use lmc_rs.Futures.Subscribe.{Subs, Answer, SubscribeFuture}
use lmc_rs.Futures.Subscribe.Registered.{IsRegistered}

-- A future has an index, and `x` stands there among the wakers of its topic.
abbrev pub Holds : SubscribeFuture → Option Waker → Subs → Type 0
Holds g x m =
    (i : ℕ) × (ws : List (Option Waker)) × (g.waker_index ≡ some i)
    × (lookup g.topic m ≡ some (pending ws))
    × (get_elem? ws i ≡ some x)

-- Two futures do not share an index of one topic.
abbrev pub Apart : SubscribeFuture → SubscribeFuture → Type 0
Apart f g = f.topic ≡ g.topic → f.waker_index ≢ g.waker_index

abbrev pub StaysRegistered :
    SubscribeFuture → Option Waker → Option (Poll Answer × SubscribeFuture × Subs) → Type 0
StaysRegistered g x none = ⊥
StaysRegistered g x (some (a, f, m)) = IsRegistered f m × Apart f g × Holds g x m
