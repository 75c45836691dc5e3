-- ===== src/Ingest/Parity.antt =====
-- dbn_reader.hpp, ADR 0021 and the parity gate of bench/bench_dbn.cpp: both readers over one file.
use trading_engine_hh.Base.{
  ℕ, ◌+◌, ◌*◌, ◌<◌, ◌≡◌, refl, sym, ap, ◌∙◌, List, length, length-drop, length-append, Result, ok,
  err, done, arith,
}
use mathlib.Core.Path.{subst}
use trading_engine_hh.Route.{zero_stats}
use trading_engine_hh.Stream.{Yield, Yields}
use trading_engine_hh.Stream.Unique.{Yields-unique}
use trading_engine_hh.Prologue.{DbnError, Opens, Opens-unique, metadata_len, header_size}
use trading_engine_hh.Reader.{EventReader, KeepsContract}
use trading_engine_hh.Reader.Client.{collect-Yields}
use trading_engine_hh.Assembler.{view}
use trading_engine_hh.Source.{ByteSource, IsOrderly}
use trading_engine_hh.DbnReader.{DbnReader}
use trading_engine_hh.DbnReader.Contract.{stream_reader, stream_contract}
use trading_engine_hh.DbnReader.Opening
use trading_engine_hh.MmapDbnReader
use trading_engine_hh.MmapDbnReader.{MmapDbnReader}
use trading_engine_hh.MmapDbnReader.Contract.{mmap_reader, mmap_contract}
use trading_engine_hh.MmapDbnReader.Open
use trading_engine_hh.Ingest.{drain_opened, ingest_stream, ingest_mmap}

-- What a run over a file with contents `f` owes: the error that opening owes, or all that the
-- records of the file owe, counted from zero.
abbrev pub Ingests : List ℕ → Result DbnError Yield → Type 0
Ingests f (err x) = Opens f (err x)
Ingests f (ok y) = (records : List ℕ) × Opens f (ok records) × Yields records zero_stats y

pub Ingests-unique : (f : List ℕ) (a b : Result DbnError Yield) → Ingests f a → Ingests f b → a ≡ b
Ingests-unique f (err x) (err y) h k = cc (Opens-unique f (err x) (err y) h k)
Ingests-unique f (err x) (ok z) h (u, o, y) = cc (Opens-unique f (err x) (ok u) h o)
Ingests-unique f (ok z) (err x) (u, o, y) h = cc (Opens-unique f (ok u) (err x) o h)
Ingests-unique f (ok z) (ok z') (u, o, y) (u', o', y') =
    ap ok (Yields-unique y (subst (λ w. Yields w zero_stats z') (sym same) y'))
  where
    same : u ≡ u'
    same = cc (Opens-unique f (ok u) (ok u') o o')

-- Reading every event of a reader that stands before the records `u` of `f`.
module _ {R : Type 0} {IsReady : R → Type 0} (reader : EventReader R)
    (law : KeepsContract reader IsReady) (f : List ℕ) (fuel : ℕ) where
  drain_opened-Ingests :
      (r : R)
      → IsReady r
      → Opens f (ok (law.rest r))
      → reader.stats r ≡ zero_stats
      → law.effort r < fuel
      → length f < fuel
      → (o : Result DbnError Yield) × (drain_opened reader fuel (ok r) ≡ done o) × Ingests f o
  drain_opened-Ingests r k opens zero_counts enough h =
      let (y, runs, yields) = collect-Yields reader law fuel fuel r k enough fits in
      (
        ok y,
        rw runs refl,
        (law.rest r, opens, subst (λ c. Yields (law.rest r) c y) zero_counts yields),
      )
    where
      fits : length (law.rest r) < fuel
      fits = omega (arith, ap length opens.3, length-drop (header_size + metadata_len f) f)

-- With more rounds than the file has bytes, a run over the mapped file ends, in what it owes.
pub ingest_mmap-Ingests :
    (fuel : ℕ) (f : List ℕ)
    → length f < fuel
    → (o : Result DbnError Yield) × (ingest_mmap fuel f ≡ done o) × Ingests f o
unfolding ingest_mmap
ingest_mmap-Ingests fuel f h =
    by_outcome (MmapDbnReader.open_reader f) (Open.mmap_open-OpensReader f)
  where
    by_outcome :
        (x : Result DbnError MmapDbnReader)
        → Open.OpensReader f x
        → (o : Result DbnError Yield) × (drain_opened mmap_reader fuel x ≡ done o) × Ingests f o
    by_outcome (ok r) fresh =
        drain_opened-Ingests mmap_reader mmap_contract f fuel r fresh.ready fresh.records
          fresh.stats
          (omega (arith, ap length fresh.records.3, length-drop (header_size + metadata_len f) f)) h
    by_outcome (err x) e = (err x, refl, e)

-- With enough rounds for the metadata and twice the bytes, a run over an orderly source ends, in what
-- it owes for the bytes of the source, whatever the chunk size above 0 and the sizes of the reads.
pub ingest_stream-Ingests :
    {S : Type 0} (bytes : ByteSource S) (left : S → List ℕ)
    → IsOrderly bytes left
    → (fuel : ℕ) (s : S) (chunk_size : ℕ) → 0 < chunk_size
    → metadata_len (left s) + 2 * length (left s) < fuel
    → (o : Result DbnError Yield) × (ingest_stream bytes fuel s chunk_size ≡ done o)
      × Ingests (left s) o
unfolding ingest_stream
ingest_stream-Ingests {S} bytes left orderly fuel s chunk_size room h =
    let (x, opened, opens) =
      Opening.stream_open-OpensReader bytes left orderly fuel s chunk_size room (omega arith) in
    let (o, runs, owed) = by_outcome x opens in (o, rw opened runs, owed)
  where
    by_outcome :
        (x : Result DbnError (DbnReader S))
        → Opening.OpensReader bytes left orderly chunk_size (left s) x
        → (o : Result DbnError Yield) × (drain_opened (stream_reader bytes) fuel x ≡ done o)
          × Ingests (left s) o
    by_outcome (ok r) fresh =
        drain_opened-Ingests (stream_reader bytes) (stream_contract bytes left orderly) (left s)
          fuel r fresh.ready fresh.records fresh.stats
          (omega (
            arith,
            ap length fresh.records.3,
            length-drop (header_size + metadata_len (left s)) (left s),
            length-append (view r.assembler) (left r.source),
          ))
          (omega arith)
    by_outcome (err x) e = (err x, refl, e)

-- Both runs, and what they owe.
pub ingest_both :
    {S : Type 0} (bytes : ByteSource S) (left : S → List ℕ)
    → IsOrderly bytes left
    → (fuel : ℕ) (s : S) (chunk_size : ℕ) → 0 < chunk_size
    → metadata_len (left s) + 2 * length (left s) < fuel
    → (o : Result DbnError Yield) × (ingest_stream bytes fuel s chunk_size ≡ done o)
      × (ingest_mmap fuel (left s) ≡ done o)
      × Ingests (left s) o
ingest_both bytes left orderly fuel s chunk_size room h =
    let (o, streamed, owed) = ingest_stream-Ingests bytes left orderly fuel s chunk_size room h in
    let (o', mapped, owed') = ingest_mmap-Ingests fuel (left s) (omega arith) in
    (o, streamed, mapped ∙ ap done (Ingests-unique (left s) o' o owed' owed), owed)

-- Over an orderly source that holds the bytes of a file, with a chunk size above 0 and more rounds
-- than the metadata length and twice the bytes of the file together, a run of the streaming reader
-- over the source and a run of the mapped reader over the file both end and have the same outcome:
-- the same error, or the same events in the same order with the same counters and the same
-- `failed()`.
pub ingest_parity :
    {S : Type 0} (bytes : ByteSource S) (left : S → List ℕ)
    → IsOrderly bytes left
    → (fuel : ℕ) (s : S) (chunk_size : ℕ) → 0 < chunk_size
    → metadata_len (left s) + 2 * length (left s) < fuel
    → (o : Result DbnError Yield) × (ingest_stream bytes fuel s chunk_size ≡ done o)
      × (ingest_mmap fuel (left s) ≡ done o)
ingest_parity bytes left orderly fuel s chunk_size room h =
    let (o, streamed, mapped, owed) = ingest_both bytes left orderly fuel s chunk_size room h in
    (o, streamed, mapped)
