-- ===== src/Ingest/Bounds.antt =====
-- Whole runs over a file: the ranges of the events and the counters.
use trading_engine_hh.Base.{
  ℕ, suc, ◌+◌, ◌*◌, ◌^◌, ◌<◌, ◌≡◌, ap, List, length, All, All-append, All-drop, length-drop, Result,
  ok, err, done, arith,
}
use trading_engine_hh.Base.Bytes.{IsByte}
use trading_engine_hh.Dbn.Ranges.{IsEvent}
use trading_engine_hh.Frame.Split.{Parts, Splits, split_up, Splits-concat, length-Splits, concat}
use trading_engine_hh.Route.{zero_stats}
use trading_engine_hh.Stream.{Yield}
use trading_engine_hh.Stream.Records.{Yields-eq}
use trading_engine_hh.Stream.Ranges.{records-IsByte, events_of-IsEvent}
use trading_engine_hh.Stream.Exact.{IsExact, stats_of-IsExact}
use trading_engine_hh.Prologue.{DbnError, header_size, metadata_len}
use trading_engine_hh.Source.{ByteSource, IsOrderly}
use trading_engine_hh.Ingest.{ingest_stream, ingest_mmap}
use trading_engine_hh.Ingest.Parity.{Ingests, ingest_both}

-- What a run leaves has its events in range.
abbrev pub InRange : Result DbnError Yield → Type 0
InRange (err x) = Unit {0}
InRange (ok y) = All IsEvent y.events

-- What a run leaves is counted without wrapping.
abbrev pub CountsExactly : Result DbnError Yield → Type 0
CountsExactly (err x) = Unit {0}
CountsExactly (ok y) = IsExact y.stats × (y.stats.events ≡ length y.events)

-- The bytes that split into the parts of a run.
parts_of_run : (u : List ℕ) → (p : Parts) × Splits u p
parts_of_run u = split_up (suc (length u)) u (omega arith)

Ingests-InRange : (f : List ℕ) (o : Result DbnError Yield) → All IsByte f → Ingests f o → InRange o
Ingests-InRange f (err x) bytes h = tt
Ingests-InRange f (ok y) bytes (u, opens, yields) =
    let (p, d) = parts_of_run u in
    rw (Yields-eq d yields) (
      events_of-IsEvent zero_stats p.records (
        records-IsByte p.records
          (All-append IsByte (concat p.records) p.rest (
            rw (Splits-concat d, opens.3)
              (All-drop IsByte (header_size + metadata_len f) f bytes))).0))

Ingests-CountsExactly :
    (f : List ℕ) (o : Result DbnError Yield) → length f < 2 ^ 64 → Ingests f o → CountsExactly o
Ingests-CountsExactly f (err x) h owed = tt
Ingests-CountsExactly f (ok y) h (u, opens, yields) =
    let (p, d) = parts_of_run u in
    let few : length p.records < 2 ^ 64 =
      omega
        (arith, length-Splits d, ap length opens.3, length-drop (header_size + metadata_len f) f) in
    let (exact, records, events) =
      stats_of-IsExact zero_stats p.records (omega arith) (omega (arith, few)) in
    rw (Yields-eq d yields) (exact, omega (arith, events))

module _ {S : Type 0} (bytes : ByteSource S) (left : S → List ℕ) (orderly : IsOrderly bytes left)
    (fuel : ℕ) (s : S) (chunk_size : ℕ) (room : 0 < chunk_size)
    (enough : metadata_len (left s) + 2 * length (left s) < fuel) where
  -- Over an orderly source whose bytes are below 256, with a chunk size above 0 and more rounds
  -- than the metadata length and twice the bytes together, both readers end with the same outcome,
  -- and each event of it has its fields in the ranges of their types and a named action and side.
  pub ingest-InRange :
      All IsByte (left s)
      → (o : Result DbnError Yield) × (ingest_stream bytes fuel s chunk_size ≡ done o)
        × (ingest_mmap fuel (left s) ≡ done o)
        × InRange o
  ingest-InRange h =
      let (o, streamed, mapped, owed) =
        ingest_both bytes left orderly fuel s chunk_size room enough in
      (o, streamed, mapped, Ingests-InRange (left s) o h owed)

  -- Over an orderly source of fewer than 2 ^ 64 bytes, with a chunk size above 0 and more rounds
  -- than the metadata length and twice the bytes together, both readers end with the same outcome,
  -- and without an error no counter has wrapped: the records counted are the events and the two
  -- kinds of skipped records together, as numbers, and the events counted are the events returned.
  pub ingest-CountsExactly :
      length (left s) < 2 ^ 64
      → (o : Result DbnError Yield) × (ingest_stream bytes fuel s chunk_size ≡ done o)
        × (ingest_mmap fuel (left s) ≡ done o)
        × CountsExactly o
  ingest-CountsExactly h =
      let (o, streamed, mapped, owed) =
        ingest_both bytes left orderly fuel s chunk_size room enough in
      (o, streamed, mapped, Ingests-CountsExactly (left s) o h owed)
