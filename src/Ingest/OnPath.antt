-- ===== src/Ingest/OnPath.antt =====
-- dbn_reader.hpp and memory_mapped_file.cpp: a whole run of `MmapDbnReader` over the file at a path, from
-- its constructor to its destructor.
use trading_engine_hh.Base.{
  ℕ, ◌<◌, ◌≡◌, ◌∙◌, refl, sym, ap, List, ◌++◌, length, Result, ok, err, Run, done, out_of_fuel,
  and_then,
}
use mathlib.Core.Path.{subst}
use mathlib.Core.List.{Perm}
use mathlib.Core.List.Perm
use trading_engine_hh.Prologue.{DbnError}
use trading_engine_hh.Stream.{Yield}
use trading_engine_hh.Reader.Client.{collect}
use trading_engine_hh.MemoryMappedFile.{Memory, bytes_of, MemoryMappedFile, MapError}
use trading_engine_hh.MemoryMappedFile.Ownership.{region, Manages, KeepsTable, Restored}
use trading_engine_hh.MmapDbnReader
use trading_engine_hh.MmapDbnReader.{MmapDbnReader}
use trading_engine_hh.MmapDbnReader.Contract.{mmap_reader}
use trading_engine_hh.MmapDbnReader.Owned.{
  OpenError, unmapped, refusing, validated, consumed, over_file, ingest_path,
}
use trading_engine_hh.Ingest.{ingest_mmap, drain_opened}
use trading_engine_hh.Ingest.Parity.{Ingests, ingest_mmap-Ingests}

pub ended :
    {W A : Type 0} (w : W) (u : Run A) (o : Result DbnError A)
    → and_then u (λ y. done (ok y)) ≡ done o
    → and_then {B = Result OpenError A × W} u (λ y. done (ok y, w)) ≡ done (refusing o, w)
ended w out_of_fuel o e = cc
ended {A = A} w (done y) o e = ap (λ z. done (refusing z, w)) (same o e)
  where
    same : (o : Result DbnError A) → and_then (done y) (λ y. done (ok y)) ≡ done o → ok y ≡ o
    same o e = cc e

module _ {P W K : Type 0} (key : MemoryMappedFile → K) (regions : W → List K)
    (make : P → W → Result MapError MemoryMappedFile × W)
    (release : MemoryMappedFile → W → MemoryMappedFile × W) (law : Manages key regions make release)
    {X : Type 0} (table : W → X) (keeps : KeepsTable table make release) (memory : Memory W) where
  -- What a run over a path owes, by what the constructor of the file gives.
  abbrev pub Leaves :
      W → Result MapError MemoryMappedFile × W → Run (Result OpenError Yield × W) → Type 0
  Leaves w (err x, w₁) o =
      (w' : W) × (o ≡ done (err (unmapped x), w')) × Restored regions table w w'
  Leaves w (ok m, w₁) o =
      (owed : Result DbnError Yield) × (w' : W) × (o ≡ done (refusing owed, w'))
      × Ingests (bytes_of memory m w₁) owed
      × Restored regions table w w'

  thrown-Restored :
      (path : P) (w w₁ : W) (x : MapError) → make path w ≡ (err x, w₁) → Restored regions table w w₁
  thrown-Restored path w w₁ x e = (
    subst (λ t. Perm t (regions w)) (sym (law.throws path w w₁ x e)) (Perm.refl _),
    rw e at (keeps.makes path w),
  )

  pub released-Restored :
      (path : P) (w w₁ : W) (m : MemoryMappedFile)
      → make path w ≡ (ok m, w₁)
      → Restored regions table w (release m w₁).1
  released-Restored path w w₁ m e = (
    law.frees m w₁ (regions w) (
        subst (λ t. Perm t (region key m ++ regions w)) (sym (law.makes path w w₁ m e))
          (Perm.refl _)),
    keeps.releases m w₁ ∙ rw e at (keeps.makes path w),
  )

  consumed-drain :
      (fuel : ℕ) (w : W) (m : MemoryMappedFile) (x : Result DbnError MmapDbnReader)
      (o : Result DbnError Yield)
      → drain_opened mmap_reader fuel x ≡ done o
      → consumed make release memory fuel (validated make release memory m w x)
        ≡ done (refusing o, (release m w).1)
  consumed-drain fuel w m (err x) o e = ap (λ z. done (refusing z, (release m w).1)) (same o e)
    where
      same :
          (o : Result DbnError Yield) → drain_opened mmap_reader fuel (err x) ≡ done o → err x ≡ o
      same o e = cc e
  consumed-drain fuel w m (ok r) o e = ended (release m w).1 (collect mmap_reader fuel fuel r) o e

  made_run :
      (fuel : ℕ) (path : P) (w : W) (t : Result MapError MemoryMappedFile × W)
      → make path w ≡ t
      → ((m : MemoryMappedFile) (w₁ : W)
          → make path w ≡ (ok m, w₁)
          → length (bytes_of memory m w₁) < fuel)
      → Leaves w t (consumed make release memory fuel (over_file make release memory t))
  made_run fuel path w (err x, w₁) e enough = (w₁, refl, thrown-Restored path w w₁ x e)
  made_run fuel path w (ok m, w₁) e enough =
      let (o, runs, owed) = opened_run in
      (
        o,
        (release m w₁).1,
        consumed-drain fuel w₁ m (MmapDbnReader.open_reader (bytes_of memory m w₁)) o runs,
        owed,
        released-Restored path w w₁ m e,
      )
    where
      opened_run :
          (o : Result DbnError Yield) × (drain_opened mmap_reader fuel
              (MmapDbnReader.open_reader (bytes_of memory m w₁))
            ≡ done o)
          × Ingests (bytes_of memory m w₁) o
      opened_run =
          unfold ingest_mmap in ingest_mmap-Ingests fuel (bytes_of memory m w₁) (enough m w₁ e)

  -- If the view of the path, when there is one, has fewer bytes than there are rounds, the run ends: with
  -- the error of the constructor of the file, or with what the bytes of the view owe. The regions are,
  -- up to order, those from before, and the table is as it was.
  pub ingest_path-Leaves :
      (fuel : ℕ) (path : P) (w : W)
      → ((m : MemoryMappedFile) (w₁ : W)
          → make path w ≡ (ok m, w₁)
          → length (bytes_of memory m w₁) < fuel)
      → Leaves w (make path w) (ingest_path make release memory fuel path w)
  unfolding ingest_path
  ingest_path-Leaves fuel path w enough = made_run fuel path w (make path w) refl enough
