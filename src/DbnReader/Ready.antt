-- ===== src/DbnReader/Ready.antt =====
-- dbn_reader.hpp: the invariant of `DbnReader`, and what a call of `next()` owes in it.
use trading_engine_hh.Base.{ℕ, ◌+◌, ◌*◌, ◌≤◌, ◌<◌, ◌≡◌, List, ◌++◌, length, Option, done}
use trading_engine_hh.Event.{Event}
use trading_engine_hh.Assembler.{view}
use trading_engine_hh.Assembler.Buffer.{IsValid}
use trading_engine_hh.Stream.{Answer, Delivers}
use trading_engine_hh.Stream.Failure.{IsTruthful}
use trading_engine_hh.Source.{ByteSource, IsOrderly}
use trading_engine_hh.DbnReader.{DbnReader, next}

module _ {S : Type 0} (bytes : ByteSource S) (left : S → List ℕ)
    (orderly : IsOrderly bytes left) where
  -- All that stands before the reader: the bytes in the assembler, then those in the source.
  abbrev pub rest : DbnReader S → List ℕ
  rest r = view r.assembler ++ left r.source

  -- A byte of the source counts twice: it is read, and later consumed.
  abbrev pub effort : DbnReader S → ℕ
  effort r = 2 * length (left r.source) + length (view r.assembler)

  pub record IsReady (r : DbnReader S) : Type 0 where
    pub valid : IsValid r.assembler
    pub room : 0 < length r.scratch
    pub truthful : IsTruthful r.failed (rest r)

  abbrev pub answer : Option Event → DbnReader S → Answer
  answer e r = record { event = e; rest = rest r; stats = r.stats; failed = r.failed }

  -- What `next fuel r` owes.
  abbrev pub Owes : ℕ → DbnReader S → Type 0
  Owes fuel r =
      (e : Option Event) × (r' : DbnReader S) × (next bytes fuel r ≡ done (e, r'))
      × Delivers (rest r) r.stats (answer e r')
      × IsReady r'
      × (effort r' ≤ effort r)
