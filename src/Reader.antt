-- ===== src/Reader.antt =====
-- The surface that both readers of dbn_reader.hpp share (ADR 0021): the operations that a consumer
-- uses, and the contract of `Stream` as their law.
pub mod Client
pub mod Repeat
use trading_engine_hh.Base.{ℕ, ◌≤◌, ◌<◌, ◌≡◌, Bool, Option, List, Run, done}
use trading_engine_hh.Event.{Event}
use trading_engine_hh.Route.{IngestStats}
use trading_engine_hh.Stream.{Delivers}

-- `next fuel r` runs the loop of `next()` for `fuel` rounds at most.
pub record EventReader (R : Type 0) : Type 0 where
  pub next : ℕ → R → Run (Option Event × R)
  pub stats : R → IngestStats
  pub failed : R → Bool

-- `rest r` is all that stands before the reader, read already or not, and `effort r` bounds the
-- rounds that a call takes.
pub record KeepsContract {R : Type 0} (reader : EventReader R) (IsReady : R → Type 0) : Type 0 where
  pub rest : R → List ℕ
  pub effort : R → ℕ
  pub next_delivers :
      (r : R) (fuel : ℕ)
      → IsReady r
      → effort r < fuel
      → (e : Option Event) × (r' : R) × (reader.next fuel r ≡ done (e, r'))
        × Delivers (rest r) (reader.stats r) (record {
          event = e;
          rest = rest r';
          stats = reader.stats r';
          failed = reader.failed r';
        })
        × IsReady r'
        × (effort r' ≤ effort r)
