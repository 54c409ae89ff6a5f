-- ===== src/Transport/Tcp/Fills.antt =====
-- `TcpTransport` of src/transport.rs as an implementation of the trait `Transport`.
use lmc_rs.Prelude.{
  ◌<◌, All, subst, ℕ, ◌≤◌, ◌≡◌, ◌≢◌, refl, sym, ◌∙◌, Bool, true, false, List, length, take, ◌++◌,
  append-nil, arith,
}
use lmc_rs.Errors.{IoResult, done, failed, crashed, would_block, other_error, decode_failed}
use lmc_rs.Transport.{Transport}
use lmc_rs.Transport.Contract.{Honours}
use lmc_rs.Transport.Tcp.{
  TcpStream, or_zero, wants, pre_read, read, pre_write, write, flush, send_close_notify,
}

-- The bytes a result of a write stands for: `Ok(n)` for `n` of them, that it would block for none.
abbrev pub Took : List ℕ → List ℕ → List ℕ → IoResult ℕ → Type 0
Took before src next (done n) = (n ≤ length src) × (next ≡ before ++ take n src)
Took before src next (failed would_block) = next ≡ before
Took before src next (failed other_error) = Unit
Took before src next (failed (decode_failed e)) = Unit
Took before src next crashed = ⊥

or_zero-Took :
    (before src next : List ℕ) (r : IoResult ℕ)
    → Took before src next r
    → Took before src next (or_zero r)
or_zero-Took before src next (done n) h = h
or_zero-Took before src next (failed would_block) h = (omega arith, h ∙ sym (append-nil before))
or_zero-Took before src next (failed other_error) h = tt
or_zero-Took before src next (failed (decode_failed e)) h = tt
or_zero-Took before src next crashed h = h

or_zero-ready : (r : IoResult ℕ) → or_zero r ≢ failed would_block
or_zero-ready (done n) e = cc
or_zero-ready (failed would_block) e = cc
or_zero-ready (failed other_error) e = cc
or_zero-ready (failed (decode_failed d)) e = cc
or_zero-ready crashed e = cc

done_returns : {A : Type 0} {x : A} → done x ≢ crashed
done_returns e = cc

done_ready : {A : Type 0} {x : A} → done x ≢ failed would_block
done_ready e = cc

pub of_laws-Took :
    (before src next : List ℕ) (r : IoResult ℕ)
    → ((n : ℕ) → r ≡ done n → (n ≤ length src) × (next ≡ before ++ take n src))
    → r ≢ crashed
    → (r ≡ failed would_block → next ≡ before)
    → Took before src next r
of_laws-Took before src next (done n) takes returns blocks = takes n refl
of_laws-Took before src next (failed would_block) takes returns blocks = blocks refl
of_laws-Took before src next (failed other_error) takes returns blocks = tt
of_laws-Took before src next (failed (decode_failed e)) takes returns blocks = tt
of_laws-Took before src next crashed takes returns blocks = returns refl

module _ (k : TcpStream) where
  try_write-Took :
      (s : k.State) (src : List ℕ)
      → Took (k.sent s) src (k.sent (k.try_write s src).1) (k.try_write s src).0
  try_write-Took s src =
      of_laws-Took (k.sent s) src (k.sent (k.try_write s src).1) (k.try_write s src).0
        (k.try_write_takes s src) (k.try_write_returns s src) (k.sent-try_write s src)

  pub write-Took :
      (s : k.State) (src : List ℕ) (zero_if_would_block : Bool)
      → Took
          (k.sent s)
          src
          (k.sent (write k s src zero_if_would_block).1)
          (write k s src zero_if_would_block).0
  unfolding write
  write-Took s src false = try_write-Took s src
  write-Took s src true =
      or_zero-Took (k.sent s) src (k.sent (k.try_write s src).1) (k.try_write s src).0
        (try_write-Took s src)

  pub write_takes :
      (s : k.State) (src : List ℕ) (zero_if_would_block : Bool) (n : ℕ)
      → (write k s src zero_if_would_block).0 ≡ done n
      → (n ≤ length src) × (k.sent (write k s src zero_if_would_block).1 ≡ k.sent s ++ take n src)
  write_takes s src z n e =
      subst (Took (k.sent s) src (k.sent (write k s src z).1)) e (write-Took s src z)

  pub write_returns :
      (s : k.State) (src : List ℕ) (zero_if_would_block : Bool)
      → (write k s src zero_if_would_block).0 ≢ crashed
  write_returns s src z e =
      subst (Took (k.sent s) src (k.sent (write k s src z).1)) e (write-Took s src z)

  pub read_fits :
      (s : k.State) (n : ℕ) (bytes : List ℕ)
      → (read k s n).0 ≡ done bytes
      → (length bytes ≤ n) × All (λ b. b < 256) bytes
  unfolding read
  read_fits = k.try_read_fits

  pub read_returns : (s : k.State) (n : ℕ) → (read k s n).0 ≢ crashed
  unfolding read
  read_returns = k.try_read_returns

  pub sent-read : (s : k.State) (n : ℕ) → k.sent (read k s n).1 ≡ k.sent s
  unfolding read
  sent-read = k.sent-try_read

  pub sent-pre_read : (s : k.State) → k.sent (pre_read k s).1 ≡ k.sent s
  unfolding pre_read
  sent-pre_read s = refl

  pub sent-pre_write : (s : k.State) → k.sent (pre_write k s).1 ≡ k.sent s
  unfolding pre_write
  sent-pre_write s = refl

  pub flush_returns : (s : k.State) → (flush k s).0 ≢ crashed
  unfolding flush
  flush_returns s = done_returns

  pub sent-flush : (s : k.State) → k.sent (flush k s).1 ≡ k.sent s
  unfolding flush
  sent-flush s = refl

  abbrev pub tcp : Transport
  tcp = record {
    State = k.State;
    read = read k;
    write = write k;
    flush = flush k;
    pre_read = pre_read k;
    pre_write = pre_write k;
    send_close_notify = send_close_notify k;
    wants = wants k;
    accepted = k.sent;
    read_fits = read_fits;
    read_returns = read_returns;
    accepted-read = sent-read;
    accepted-pre_read = sent-pre_read;
    accepted-pre_write = sent-pre_write;
    write_takes = write_takes;
    write_returns = write_returns;
    flush_returns = flush_returns;
    accepted-flush = sent-flush;
  }

  pub tcp-Honours : Honours tcp
  unfolding pre_read pre_write write flush send_close_notify
  tcp-Honours = record {
    pre_read-ready = λ s e. cc;
    pre_write-ready = λ s e. cc;
    write-ready = λ s src. or_zero-ready (k.try_write s src).0;
    accepted-write = λ s src z e.
        subst (Took (k.sent s) src (k.sent (write k s src z).1)) e (write-Took s src z);
    flush-ready = λ s. done_ready;
    accepted-send_close_notify = λ s. refl;
  }

  -- The plain transport waits to write when it is told that there is something to write.
  pub wants_hint : (s : k.State) → (tcp.wants s false true).write ≡ true
  unfolding wants
  wants_hint s = refl
