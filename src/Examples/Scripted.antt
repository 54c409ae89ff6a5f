-- ===== src/Examples/Scripted.antt =====
-- A transport that delivers given bytes, three at a time, and takes four bytes of a write.
use lmc_rs.Prelude.{
  subst, ℕ, zero, suc, ◌%◌, ◌≤◌, ◌<◌, ◌≡◌, refl, ap, ◌∙◌, true, List, [], ◌∷◌, ◌++◌, map, min,
  arith, length, take, drop, All, length-take,
}
use lmc_rs.Errors.{done}
use lmc_rs.Transport.{Transport}

pub record Script : Type 0 where
  pub input : List ℕ
  pub output : List ℕ

abbrev pub unread : Script → List ℕ
unread s = map (λ (b : ℕ). b % 256) s.input

length-map : (xs : List ℕ) → length (map (λ (b : ℕ). b % 256) xs) ≡ length xs
length-map [] = refl
length-map (x ∷ xs) = ap suc (length-map xs)

All-bytes : (xs : List ℕ) → All (λ (b : ℕ). b < 256) (map (λ (b : ℕ). b % 256) xs)
All-bytes [] = tt
All-bytes (x ∷ xs) = (omega arith, All-bytes xs)

cut :
    (n : ℕ) (xs : List ℕ)
    → map (λ (b : ℕ). b % 256) xs
      ≡ map (λ (b : ℕ). b % 256) (take n xs) ++ map (λ (b : ℕ). b % 256) (drop n xs)
cut zero xs = refl
cut (suc n) [] = refl
cut (suc n) (x ∷ xs) = ap (◌∷◌ (x % 256)) (cut n xs)

pub done_inj : {A : Type 0} {a b : A} → done a ≡ done b → a ≡ b
done_inj e = cc

pub read_fits-script :
    (xs : List ℕ) (n : ℕ)
    → (length (map (λ (b : ℕ). b % 256) (take (min n 3) xs)) ≤ n)
      × All (λ (b : ℕ). b < 256) (map (λ (b : ℕ). b % 256) (take (min n 3) xs))
read_fits-script xs n = (
  omega (arith, length-map (take (min n 3) xs), length-take (min n 3) xs),
  All-bytes (take (min n 3) xs),
)

abbrev pub script : Transport
script = record {
  State = Script;
  read = λ s n. (
    done (map (λ (b : ℕ). b % 256) (take (min n 3) s.input)),
    record s { input = drop (min n 3) s.input },
  );
  write = λ s src zero_if_would_block.
      (done (min (length src) 4), record s { output = s.output ++ take (min (length src) 4) src });
  flush = λ s. (done tt, s);
  pre_read = λ s. (done true, s);
  pre_write = λ s. (done tt, s);
  send_close_notify = λ s. s;
  wants = λ s r w. record { read = true; write = w };
  accepted = λ s. s.output;
  read_fits = λ s n bytes e.
      subst (λ (x : List ℕ). (length x ≤ n) × All (λ (b : ℕ). b < 256) x) (done_inj e)
        (read_fits-script s.input n);
  read_returns = λ s n e. cc;
  accepted-read = λ s n. refl;
  accepted-pre_read = λ s. refl;
  accepted-pre_write = λ s. refl;
  write_takes = λ s src z n e.
      (omega (arith, done_inj e), ap (λ (k : ℕ). s.output ++ take k src) (done_inj e));
  write_returns = λ s src z e. cc;
  flush_returns = λ s e. cc;
  accepted-flush = λ s. refl;
}

pub script_feeds :
    (s s' : Script) (n : ℕ) (bytes : List ℕ)
    → script.read s n ≡ (done bytes, s')
    → unread s ≡ bytes ++ unread s'
script_feeds s s' n bytes e =
    let same : map (λ (b : ℕ). b % 256) (take (min n 3) s.input) ≡ bytes = cc in
    let left : record s { input = drop (min n 3) s.input } ≡ s' = cc in
    cut (min n 3) s.input
    ∙ ap (λ (x : List ℕ). x ++ unread (record s { input = drop (min n 3) s.input })) same
    ∙ ap (λ (x : Script). bytes ++ unread x) left
