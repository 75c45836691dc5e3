-- ===== src/Bench/Mapped.antt =====
-- bench/bench_dbn.cpp: a pass of mode C, over a reader that owns its mapping.
use trading_engine_hh.Base.{ℕ, ◌≡◌, ap, refl, List, Result, ok, err, done}
use trading_engine_hh.Prologue.{DbnError}
use trading_engine_hh.Stream.{Yield}
use trading_engine_hh.MemoryMappedFile.{MemoryMappedFile, MapError, Memory, bytes_of}
use trading_engine_hh.MemoryMappedFile.Ownership.{Manages, KeepsTable, Restored}
use trading_engine_hh.MemoryMappedFile.Stores.{ViewsFile}
use trading_engine_hh.MmapDbnReader
use trading_engine_hh.MmapDbnReader.{MmapDbnReader}
use trading_engine_hh.MmapDbnReader.Contract.{mmap_reader}
use trading_engine_hh.MmapDbnReader.Owned.{refusing, validated, over_file}
use trading_engine_hh.Ingest.{ingest_mmap}
use trading_engine_hh.Ingest.OnPath.{ended, released-Restored}
use trading_engine_hh.Bench.Actions.{Does}
use trading_engine_hh.Bench.Passes.{count_events, count_opened, count_owned, mmap_pass}
use trading_engine_hh.Bench.Counting.{tally_of, Fits, count_opened-drain}

module _ {P W K X : Type 0} (key : MemoryMappedFile → K) (regions : W → List K) (table : W → X)
    (make : P → W → Result MapError MemoryMappedFile × W)
    (release : MemoryMappedFile → W → MemoryMappedFile × W) (law : Manages key regions make release)
    (keeps : KeepsTable table make release) (memory : Memory W) (fuel : ℕ) (f : List ℕ) where
  count_owned-opened :
      (m : MemoryMappedFile) (w : W) (x : Result DbnError MmapDbnReader) (t : Result DbnError ℕ)
      → count_opened mmap_reader fuel x ≡ done t
      → count_owned make release memory fuel (validated make release memory m w x)
        ≡ done (refusing t, (release m w).1)
  count_owned-opened m w (err x) t e = ap (λ z. done (refusing z, (release m w).1)) (same t e)
    where
      same : (t : Result DbnError ℕ) → count_opened mmap_reader fuel (err x) ≡ done t → err x ≡ t
      same t e = cc e
  count_owned-opened m w (ok r) t e =
      ended (release m w).1 (count_events mmap_reader fuel fuel 0 r) t e

  made_pass :
      (path : P) (w : W) (t : Result MapError MemoryMappedFile × W) (o : Result DbnError Yield)
      → make path w ≡ t
      → ViewsFile memory f t
      → ingest_mmap fuel f ≡ done o
      → Fits o
      → (w' : W) × (count_owned make release memory fuel (over_file make release memory t)
          ≡ done (refusing (tally_of o), w'))
        × Restored regions table w w'
  made_pass path w (err x, w₁) o e v runs fits = absurd v
  made_pass path w (ok m, w₁) o e v runs fits = (
    (release m w₁).1,
    count_owned-opened m w₁ (MmapDbnReader.open_reader (bytes_of memory m w₁)) (tally_of o)
        (rw v (counted runs)),
    released-Restored key regions make release law table keeps memory path w w₁ m e,
  )
    where
      counted :
          ingest_mmap fuel f ≡ done o
          → count_opened mmap_reader fuel (MmapDbnReader.open_reader f) ≡ done (tally_of o)
      counted runs =
          unfold ingest_mmap in
          count_opened-drain mmap_reader fuel (MmapDbnReader.open_reader f) o runs fits

  -- A pass of mode C counts the events of a run over the bytes that the mapping views.
  pub mmap_pass-Does :
      (path : P) (o : Result DbnError Yield)
      → ((w : W) → ViewsFile memory f (make path w))
      → ingest_mmap fuel f ≡ done o
      → Fits o
      → Does
          (Restored regions table)
          (mmap_pass make release memory fuel path)
          (refusing (tally_of o))
  unfolding mmap_pass
  mmap_pass-Does path o views runs fits w =
      made_pass path w (make path w) o refl (views w) runs fits
