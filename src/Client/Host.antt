-- ===== src/Client/Host.antt =====
-- The host name and the port of `Client::connect` of src/lib.rs. A string is the list of its bytes.
pub mod Splits
use lmc_rs.Prelude.{
  ℕ, zero, suc, ◌+◌, ◌/◌, ◌%◌, Option, none, some, List, [], ◌∷◌, ◌++◌, length, take, ltb, ◌==◌,
  if◌then◌else◌,
}

abbrev pub colon : ℕ
colon = 58

-- `host.find(':')`
unfoldable pub find_colon : List ℕ → Option ℕ
find_colon [] = none
find_colon (b ∷ bytes) =
    let rest = find_colon bytes in
    if b == colon then some 0 else elim rest [ none ↦ none | some i ↦ some (suc i) ]

-- A number below 10 ^ fuel as `format!` prints it.
unfoldable pub decimal_from : ℕ → ℕ → List ℕ
decimal_from zero n = []
decimal_from (suc fuel) n =
    let rest = decimal_from fuel (n / 10) in
    if ltb n 10 then (48 + n) ∷ [] else rest ++ ((48 + n % 10) ∷ [])

-- A port, which has 16 bits, has five digits at most.
unfoldable pub decimal : ℕ → List ℕ
unfolding decimal_from
decimal port = decimal_from 5 port

-- `host_and_port` and `port_pos`.
unfoldable pub host_and_port : List ℕ → ℕ → List ℕ × ℕ
unfolding find_colon decimal
host_and_port host default_port = elim (find_colon host) [
  | some x ↦ (host, x)
  | none ↦ (host ++ (colon ∷ decimal default_port), length host)
]

unfoldable pub host_only : List ℕ × ℕ → List ℕ
host_only (host, port_pos) = take port_pos host
