-- ===== src/Transceiver/Step/Ages.antt =====
-- The ages of the timeouts, src/transceiver/mod.rs.
use lmc_rs.Prelude.{ℕ, ◌-◌, ◌<◌, ◌≤◌, ◌≡◌, List, [], ◌∷◌, All, arith}
use lmc_rs.Transceiver.State.{Timeout}

-- The timeouts are in the order of their age, the oldest first.
abbrev pub Sorted : List Timeout → Type 0
Sorted [] = Unit
Sorted (to ∷ ts) = All (λ u. to.at ≤ u.at) ts × Sorted ts

-- Not yet due for another transmission.
abbrev pub NotOverdue : ℕ → ℕ → List Timeout → Type 0
NotOverdue now delay ts = All (λ to. now - to.at < delay) ts

abbrev pub Fresh : ℕ → List Timeout → Type 0
Fresh now ts = All (λ to. to.at ≡ now) ts

pub later-NotOverdue :
    (now delay at : ℕ) (ts : List Timeout)
    → now - at < delay
    → All (λ u. at ≤ u.at) ts
    → NotOverdue now delay ts
later-NotOverdue now delay at [] h g = tt
later-NotOverdue now delay at (t ∷ ts) h g =
    (omega (arith, h, g.0), later-NotOverdue now delay at ts h g.1)

pub Fresh-NotOverdue :
    (now delay : ℕ) (ts : List Timeout) → 0 < delay → Fresh now ts → NotOverdue now delay ts
Fresh-NotOverdue now delay [] h g = tt
Fresh-NotOverdue now delay (t ∷ ts) h g =
    (omega (arith, h, g.0), Fresh-NotOverdue now delay ts h g.1)
