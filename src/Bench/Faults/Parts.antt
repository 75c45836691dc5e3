-- ===== src/Bench/Faults/Parts.antt =====
-- bench/bench_dbn.cpp: what its three modes have of a file of which only the first bytes can be read.
use trading_engine_hh.Base.{
  ℕ, ◌+◌, ◌*◌, ◌≤◌, ◌<◌, ◌≡◌, ap, sym, ◌∙◌, List, ◌++◌, length, length-append, length-take,
  length-drop, length-replicate, take, drop, replicate, take-append-drop, ok, done, arith,
}
use mathlib.Core.Path.{subst}
use trading_engine_hh.Event.{Event}
use trading_engine_hh.Prologue.{Opens, header_size, metadata_len}
use trading_engine_hh.Prologue.Prefix.{metadata_len-append, metadata_len-take, Opens-take}
use trading_engine_hh.Stream.{Yield}
use trading_engine_hh.Ingest.{ingest_mmap}
use trading_engine_hh.Ingest.Parity.{Ingests, ingest_mmap-Ingests}
use trading_engine_hh.Ingest.Delivery.{ingest_mmap-append}

-- What `slurp` leaves of a file of which `n` bytes can be read: the rest of its buffer is zeros.
abbrev pub zero_filled : ℕ → List ℕ → List ℕ
zero_filled n f = take n f ++ drop (length (take n f)) (replicate (length f) 0)

pub length-zero_filled : (n : ℕ) (f : List ℕ) → length (zero_filled n f) ≡ length f
length-zero_filled n f = omega (
  arith,
  length-append (take n f) (drop (length (take n f)) (replicate (length f) 0)),
  length-take n f,
  length-drop {A = ℕ} (length (take n f)) (replicate (length f) 0),
  length-replicate {A = ℕ} (length f) 0,
)

run-Ingests :
    (fuel : ℕ) (f : List ℕ) (y : Yield)
    → length f < fuel
    → ingest_mmap fuel f ≡ done (ok y)
    → Ingests f (ok y)
run-Ingests fuel f y enough runs =
    let (o, runs', owed) = ingest_mmap-Ingests fuel f enough in
    let same : o ≡ ok y = cc (runs, runs') in subst (Ingests f) same owed

-- What the three modes have of a file that opens and of which the first `n` bytes can be read.
pub record Parts (fuel n : ℕ) (f : List ℕ) : Type 0 where
  pub front : Yield
  pub filled : Yield
  pub entire : Yield
  pub lost : List Event
  pub extra : ℕ
  pub front_runs : ingest_mmap fuel (take n f) ≡ done (ok front)
  pub entire_runs : ingest_mmap fuel f ≡ done (ok entire)
  pub front_owed : Ingests (take n f) (ok front)
  pub filled_owed : Ingests (zero_filled n f) (ok filled)
  pub entire_owed : Ingests f (ok entire)
  pub events : entire.events ≡ front.events ++ lost
  pub counted : length filled.events ≡ length front.events + extra

module _ (fuel n : ℕ) (f records : List ℕ) (opens : Opens f (ok records))
    (far : header_size + metadata_len f ≤ n) (enough : metadata_len f + 2 * length f < fuel) where
  shorter : length (take n f) ≤ length f
  shorter = omega (arith, length-take n f)

  pub front_enough : metadata_len (take n f) + 2 * length (take n f) < fuel
  front_enough = omega (arith, enough, shorter, metadata_len-take n f records opens far)

  pub zero_filled_enough : metadata_len (zero_filled n f) + 2 * length (zero_filled n f) < fuel
  zero_filled_enough = omega (
    arith,
    enough,
    length-zero_filled n f,
    metadata_len-append (take n f) (drop (length (take n f)) (replicate (length f) 0))
        (Opens-take n f records opens far).0.0,
    metadata_len-take n f records opens far,
  )

  pub parts : Parts fuel n f
  parts =
      let zeros = drop (length (take n f)) (replicate (length f) 0) in
      let split : take n f ++ drop n f ≡ f = take-append-drop n f in
      let got = Opens-take n f records opens far in
      let (y, z, es, short, full, events, failure) =
        ingest_mmap-append fuel (take n f) (drop n f) _ got
          (omega (arith, enough, ap length split)) in
      let (y', b, fs, short', slurped, more, failure') =
        ingest_mmap-append fuel (take n f) zeros _ got
          (omega (arith, enough, length-zero_filled n f)) in
      let same_events : y'.events ≡ y.events = cc (short, short') in
      let full_runs : ingest_mmap fuel f ≡ done (ok z) = ap (ingest_mmap fuel) (sym split) ∙ full in
      record {
        front = y;
        filled = b;
        entire = z;
        lost = es;
        extra = length fs;
        front_runs = short;
        entire_runs = full_runs;
        front_owed = run-Ingests fuel (take n f) y (omega (arith, enough, shorter)) short;
        filled_owed =
            run-Ingests fuel (zero_filled n f) b (omega (arith, enough, length-zero_filled n f))
              slurped;
        entire_owed = run-Ingests fuel f z (omega (arith, enough)) full_runs;
        events = events;
        counted = omega (arith, ap length more, ap length same_events, length-append y'.events fs);
      }
