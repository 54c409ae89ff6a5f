-- ===== src/Packets/Control/Flags.antt =====
-- `PublishFlags`: every flag comes back, and what `try_from` accepts was made by `new`.
use lmc_rs.Prelude.{
  ℕ, ◌/◌, ◌%◌, ◌<◌, ◌≡◌, refl, Bool, true, false, ◌&&◌, ◌||◌, Option, none, some, arith, ◌≤◌, leb,
  not, ◌==◌, ap, ◌⊎◌, inl, inr,
}
use lmc_rs.Prelude.Bits.{all_below, all_below_sound}
use lmc_rs.Errors.{
  Qos, at_most_once, at_least_once, exactly_once, Decoded, ok, err, malformed_packet,
}
use lmc_rs.Packets.Control.{PublishFlags, new, was_retained, is_dup, qos, into_inner, try_from}

abbrev pub Shows : PublishFlags → Bool → Qos → Bool → Type 0
Shows f dup q retain =
    (is_dup f ≡ dup)
    × (qos f ≡ some q)
    × (was_retained f ≡ retain)
    × (try_from (into_inner f) ≡ ok f)
    × (f.bits < 16)

-- The accessors return the three values that `new` packed into the flags, and `try_from` accepts the
-- packed byte, which is below 16.
pub new-Shows : (dup : Bool) (q : Qos) (retain : Bool) → Shows (new dup q retain) dup q retain
unfolding new is_dup qos was_retained try_from
new-Shows true at_most_once true = (refl, refl, refl, refl, omega arith)
new-Shows true at_most_once false = (refl, refl, refl, refl, omega arith)
new-Shows true at_least_once true = (refl, refl, refl, refl, omega arith)
new-Shows true at_least_once false = (refl, refl, refl, refl, omega arith)
new-Shows true exactly_once true = (refl, refl, refl, refl, omega arith)
new-Shows true exactly_once false = (refl, refl, refl, refl, omega arith)
new-Shows false at_most_once true = (refl, refl, refl, refl, omega arith)
new-Shows false at_most_once false = (refl, refl, refl, refl, omega arith)
new-Shows false at_least_once true = (refl, refl, refl, refl, omega arith)
new-Shows false at_least_once false = (refl, refl, refl, refl, omega arith)
new-Shows false exactly_once true = (refl, refl, refl, refl, omega arith)
new-Shows false exactly_once false = (refl, refl, refl, refl, omega arith)

-- What `try_from` makes of a byte is canonical: made by `new` if accepted, and if refused then with a
-- bit outside the flags or with the reserved quality of service.
abbrev same : PublishFlags → Option Qos → Bool
same f none = false
same f (some q) = (new (is_dup f) q (was_retained f)).bits == f.bits

abbrev is_malformed : ℕ → Bool
is_malformed v = leb 16 v || v / 2 % 4 == 3

abbrev canonical : ℕ → Decoded PublishFlags → Bool
canonical v (ok f) = same f (qos f) && (f.bits == v && not (is_malformed v))
canonical v (err malformed_packet) = is_malformed v
canonical v _ = false

canonical_table : all_below 256 (λ v. canonical v (try_from v)) ≡ true
unfolding all_below try_from qos is_dup was_retained new
canonical_table = refl

canonical-try_from : (v : ℕ) → v < 256 → canonical v (try_from v) ≡ true
canonical-try_from v h = all_below_sound 256 (λ v. canonical v (try_from v)) v canonical_table h

bits_eq : (f g : PublishFlags) → f.bits ≡ g.bits → f ≡ g
bits_eq f g h = ap (λ (b : ℕ). record { bits = b }) h

same-new :
    (f : PublishFlags) (o : Option Qos)
    → same f o ≡ true
    → (q : Qos) × (o ≡ some q) × (f ≡ new (is_dup f) q (was_retained f))
same-new f none h = cc
same-new f (some q) h = (q, refl, bits_eq f (new (is_dup f) q (was_retained f)) (ground arith))

abbrev pub Classified : ℕ → Decoded PublishFlags → Type 0
Classified v r =
    ((f : PublishFlags) × (q : Qos) × (r ≡ ok f)
      × (into_inner f ≡ v)
      × (qos f ≡ some q)
      × (f ≡ new (is_dup f) q (was_retained f)))
    ⊎ ((r ≡ err malformed_packet) × ((16 ≤ v) ⊎ (v / 2 % 4 ≡ 3)))

canonical-Classified : (v : ℕ) (r : Decoded PublishFlags) → canonical v r ≡ true → Classified v r
canonical-Classified v (ok f) h =
    let (q, e, p) = same-new f (qos f) (ground arith) in inl (f, q, refl, ground arith, e, p)
canonical-Classified v (err malformed_packet) h = inr (refl, ground arith)
canonical-Classified v _ h = cc

-- `try_from` accepts a byte as the flags that `new` makes of the three accessors, whose quality of
-- service is then defined, or refuses it as malformed; it refuses only bytes of 16 or more and bytes
-- whose quality of service is 3.
pub try_from-Classified : (v : ℕ) → v < 256 → Classified v (try_from v)
try_from-Classified v h = canonical-Classified v (try_from v) (canonical-try_from v h)
