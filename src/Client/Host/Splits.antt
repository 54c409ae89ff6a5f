-- ===== src/Client/Host/Splits.antt =====
-- Where `Client::connect` of src/lib.rs splits the host from the port.
use lmc_rs.Prelude.{
  ℕ, zero, suc, ◌+◌, ◌-◌, ◌*◌, ◌/◌, ◌%◌, ◌^◌, ◌<◌, ◌≤◌, ◌≡◌, ◌≢◌, refl, sym, subst, ap, ◌∙◌, All,
  All-append, ltb→lt, Option, none, some, List, [], ◌∷◌, ◌++◌, length, take, drop, ltb, arith,
  Bool-cases, inl, inr,
}
use lmc_rs.Client.Host.{colon, find_colon, decimal_from, decimal, host_and_port, host_only}

-- The number that decimal digits spell behind the number `n`.
abbrev pub value_from : ℕ → List ℕ → ℕ
value_from n [] = n
value_from n (b ∷ bytes) = value_from (n * 10 + (b - 48)) bytes

value_from-append :
    (n : ℕ) (xs ys : List ℕ) → value_from n (xs ++ ys) ≡ value_from (value_from n xs) ys
value_from-append n [] ys = refl
value_from-append n (x ∷ xs) ys = value_from-append (n * 10 + (x - 48)) xs ys

-- What is printed is read back.
value-decimal_from : (fuel n : ℕ) → n < 10 ^ fuel → value_from 0 (decimal_from fuel n) ≡ n
unfolding decimal_from
value-decimal_from zero n h = ground arith
value-decimal_from (suc fuel) n h = elim (Bool-cases (ltb n 10)) [
  | inl small ↦ rw small (ground arith)
  | inr large ↦ rw large (
      value_from-append 0 (decimal_from fuel (n / 10)) ((48 + n % 10) ∷ [])
      ∙ ap (λ (x : ℕ). value_from x ((48 + n % 10) ∷ []))
          (value-decimal_from fuel (n / 10) (omega arith))
      ∙ omega arith)
]

-- A text of decimal digits, one at least.
abbrev pub IsDecimal : List ℕ → Type 0
IsDecimal bytes = (bytes ≢ []) × All (λ b. (48 ≤ b) × (b ≤ 57)) bytes

decimal_from-digits : (fuel n : ℕ) → All (λ b. (48 ≤ b) × (b ≤ 57)) (decimal_from fuel n)
unfolding decimal_from
decimal_from-digits zero n = tt
decimal_from-digits (suc fuel) n = elim (Bool-cases (ltb n 10)) [
  | inl small ↦
      let digit : n < 10 = ltb→lt n 10 small in rw small ((omega arith, omega (arith, digit)), tt)
  | inr large ↦ rw large (
      All-append (λ b. (48 ≤ b) × (b ≤ 57)) (decimal_from fuel (n / 10)) ((48 + n % 10) ∷ [])
        (decimal_from-digits fuel (n / 10)) ((omega arith, omega arith), tt))
]

append-ne : (xs : List ℕ) (b : ℕ) → (xs ++ (b ∷ [])) ≢ []
append-ne [] b = λ e. cc
append-ne (x ∷ xs) b = λ e. cc

decimal_from-ne : (fuel n : ℕ) → decimal_from (suc fuel) n ≢ []
unfolding decimal_from
decimal_from-ne fuel n = elim (Bool-cases (ltb n 10)) [
  | inl small ↦ rw small (λ e. cc)
  | inr large ↦ rw large (append-ne (decimal_from fuel (n / 10)) (48 + n % 10))
]

find_colon-append :
    (xs ys : List ℕ) → find_colon xs ≡ none → find_colon (xs ++ (colon ∷ ys)) ≡ some (length xs)
unfolding find_colon
find_colon-append [] ys h = refl
find_colon-append (x ∷ xs) ys h = ground (arith, h, find_colon-append xs ys)

find_colon-take : (xs : List ℕ) (i : ℕ) → find_colon xs ≡ some i → find_colon (take i xs) ≡ none
unfolding find_colon
find_colon-take [] i h = absurd cc
find_colon-take (x ∷ xs) zero h = refl
find_colon-take (x ∷ xs) (suc i) h = ground (arith, h, find_colon-take xs i)

take-length : (xs ys : List ℕ) → take (length xs) (xs ++ ys) ≡ xs
take-length [] ys = refl
take-length (x ∷ xs) ys = ap (◌∷◌ x) (take-length xs ys)

drop-suc : (xs ys : List ℕ) → drop (suc (length xs)) (xs ++ (colon ∷ ys)) ≡ ys
drop-suc [] ys = refl
drop-suc (x ∷ xs) ys = drop-suc xs ys

-- What stands behind the host, by whether the host has a port.
abbrev pub Completes : List ℕ → ℕ → List ℕ × ℕ → Option ℕ → Type 0
Completes host port (full, pos) none =
    (host_only (full, pos) ≡ host)
    × IsDecimal (drop (suc pos) full)
    × (value_from 0 (drop (suc pos) full) ≡ port)
Completes host port (full, pos) (some i) = full ≡ host

abbrev split_at : List ℕ → ℕ → Option ℕ → List ℕ × ℕ
split_at host port (some x) = (host, x)
split_at host port none = (host ++ (colon ∷ decimal port), length host)

split_at-Completes :
    (host : List ℕ) (port : ℕ) (o : Option ℕ)
    → port < 2 ^ 16
    → find_colon host ≡ o
    → let r = split_at host port o in
      (find_colon r.0 ≡ some r.1) × (find_colon (host_only r) ≡ none) × Completes host port r o
unfolding host_only decimal
split_at-Completes host port (some x) h e = (e, find_colon-take host x e, refl)
split_at-Completes host port none h e =
    let same = take-length host (colon ∷ decimal port) in
    (
      find_colon-append host (decimal port) e,
      ap find_colon same ∙ e,
      (
        same,
        subst IsDecimal (sym (drop-suc host (decimal port)))
            (decimal_from-ne 4 port, decimal_from-digits 5 port),
        ap (value_from 0) (drop-suc host (decimal port)) ∙ value-decimal_from 5 port (omega arith),
      ),
    )

-- The address that `connect` resolves has its first colon at `port_pos`, so that the host name that it
-- checks is what stands before it, without a colon. If the host that it is given has none, that name is the
-- host, and behind the colon stand decimal digits, one at least, that spell the default port, a number of 16 bits; if it
-- has one, the address is the host as it is given.
pub host_and_port-Completes :
    (host : List ℕ) (port : ℕ)
    → port < 2 ^ 16
    → let r = host_and_port host port in
      (find_colon r.0 ≡ some r.1)
      × (find_colon (host_only r) ≡ none)
      × Completes host port r (find_colon host)
unfolding host_and_port
host_and_port-Completes host port h = split_at-Completes host port (find_colon host) h refl
