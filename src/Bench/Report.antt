-- ===== src/Bench/Report.antt =====
-- bench/bench_dbn.cpp: what `main` prints.
use trading_engine_hh.Base.{
  ℕ, suc, ◌-◌, ◌/◌, ◌≡◌, refl, ◌∙◌, true, List, length, get_elem?, get_elem?-lt, ◌==◌, ==_iff,
  Option, some, Result, ok, err, arith,
}
use mathlib.Core.Option.{map}
use trading_engine_hh.MmapDbnReader.Owned.{refused}
use trading_engine_hh.Prologue.{DbnError}
use trading_engine_hh.Stream.{Yield}
use trading_engine_hh.Bench.Passes.{Stats}
use trading_engine_hh.Bench.Main.{
  difference, Decomposition, Doubles, Summary, summary, Figures, complaint, figures, BenchExit,
}
use trading_engine_hh.Bench.Rounds.{Measured}

-- A mode that took `passes` passes, each of `n` events, and whose figures are all there.
pub record Reported {D : Type 0} (n passes : ℕ) (s : Stats D) (t : Summary D) : Type 0 where
  pub events : s.events ≡ n
  pub taken : length s.pass_ns_per_event ≡ passes
  pub best : (d : D) × (t.best ≡ some d)
  pub median : (d : D) × (t.median ≡ some d)
  pub worst : (d : D) × (t.worst ≡ some d)
  pub peak : (d : D) × (t.peak ≡ some d)
  pub typical : (d : D) × (t.typical ≡ some d)
  pub typical_mbps : (d : D) × (t.typical_mbps ≡ some d)

-- The decomposition has all its figures.
pub record IsDecomposed {D : Type 0} (d : Decomposition D) : Type 0 where
  pub mmap_win : (w : D) × (d.mmap_win ≡ some w)
  pub map_residual : (r : D) × (d.map_residual ≡ some r)

pub difference-some :
    {D : Type 0} (minus : D → D → D) (a b : Option D)
    → (x : D) × (a ≡ some x)
    → (y : D) × (b ≡ some y)
    → (z : D) × (difference minus a b ≡ some z)
difference-some minus a b (x, e) (y, h) = (minus x y, rw (e, h) refl)

map-some :
    {D : Type 0} (g : D → D) (o : Option D) → (d : D) × (o ≡ some d) → (d : D) × (map g o ≡ some d)
map-some g o (d, e) = (g d, rw e refl)

-- What `main` says of modes that have counted these numbers of events; the gate compares A and C.
abbrev pub Compares : {D : Type 0} → ℕ → ℕ → ℕ → ℕ → BenchExit D → Type 0
Compares {D} passes na nb nc o =
    (g : Figures D) × (o ≡ record { code = 0; said = figures g })
    × (g.parity_ok ≡ (na == nc))
    × IsDecomposed g.decomposition
    × Reported na passes g.stream_stats g.stream_summary
    × Reported nb passes g.slice_stats g.slice_summary
    × Reported nc passes g.mmap_stats g.mmap_summary

-- What `main` says of a file of which a run has the outcome given.
abbrev pub Reports : {D : Type 0} → ℕ → Result DbnError Yield → BenchExit D → Type 0
Reports passes (err x) o = o ≡ record { code = 1; said = complaint (refused x) }
Reports {D} passes (ok y) o =
    (g : Figures D) × (o ≡ record { code = 0; said = figures g })
    × (g.parity_ok ≡ true)
    × IsDecomposed g.decomposition
    × Reported (length y.events) passes g.stream_stats g.stream_summary
    × Reported (length y.events) passes g.slice_stats g.slice_summary
    × Reported (length y.events) passes g.mmap_stats g.mmap_summary

-- Three equal numbers pass the gate.
pub Compares-Reports :
    {D : Type 0} (passes : ℕ) (y : Yield) (o : BenchExit D)
    → Compares passes (length y.events) (length y.events) (length y.events) o
    → Reports passes (ok y) o
Compares-Reports passes y o (g, says, gate, decomposed, a, b, c) =
    (g, says, gate ∙ (==_iff (length y.events) (length y.events)).1 refl, decomposed, a, b, c)

pub Reported-summary :
    {D : Type 0} (double : Doubles D) (sort : List D → List D)
    → ((xs : List D) → length (sort xs) ≡ length xs)
    → (n k : ℕ) (s : Stats D) → Measured n (suc k) s
    → Reported n (suc k) s (summary double sort s)
Reported-summary {D} double sort same n k s m = record {
  events = m.events;
  taken = m.passes;
  best = get_elem?-lt v 0 (omega (arith, size));
  median = middle;
  worst = get_elem?-lt v (length v - 1) (omega (arith, size));
  peak = map-some _ (get_elem? v 0) (get_elem?-lt v 0 (omega (arith, size)));
  typical = map-some _ (get_elem? v (length v / 2)) middle;
  typical_mbps = map-some _ (get_elem? v (length v / 2)) middle;
}
  where
    v : List D
    v = sort s.pass_ns_per_event

    size : length v ≡ suc k
    size = same s.pass_ns_per_event ∙ m.passes

    middle : (d : D) × (get_elem? v (length v / 2) ≡ some d)
    middle = get_elem?-lt v (length v / 2) (omega (arith, size))
