-- ===== src/Ingest/EmptyChunks.antt =====
-- A whole run of `DbnReader` with `chunk_size` 0, beside the mapped reader.
use trading_engine_hh.Base.{
  ℕ, zero, suc, ◌<◌, ◌≡◌, refl, ap, ◌∙◌, false, List, [], length, ok, done, arith,
}
use trading_engine_hh.Frame.Split.{Parts, Splits}
use trading_engine_hh.Route.{zero_stats}
use trading_engine_hh.Prologue.{Opens, metadata_len}
use trading_engine_hh.Stream.{Yield}
use trading_engine_hh.Stream.Records.{yield_of, Splits-Yields}
use trading_engine_hh.Stream.Accounts.{Accounts, events_of-Accounts}
use trading_engine_hh.Source.{ByteSource, IsOrderly}
use trading_engine_hh.Reader.Client.{collect}
use trading_engine_hh.DbnReader.EmptyScratch.{
  unscratched, open_reader-no_metadata, next-empty_scratch,
}
use trading_engine_hh.Ingest.{ingest_stream, ingest_mmap}
use trading_engine_hh.Ingest.Parity.{Ingests-unique, ingest_mmap-Ingests}

-- A run that ends at once and cleanly.
abbrev pub nothing : Yield
nothing = record { events = []; stats = zero_stats; failed = false }

stream-nothing :
    {S : Type 0} (bytes : ByteSource S) (left : S → List ℕ)
    → IsOrderly bytes left
    → (fuel : ℕ) (s : S) (records : List ℕ) → Opens (left s) (ok records)
    → metadata_len (left s) ≡ 0
    → ingest_stream bytes (suc fuel) s 0 ≡ done (ok nothing)
unfolding ingest_stream collect
stream-nothing bytes left orderly fuel s records ((long, magic), version, fits, is) no_metadata =
    let (v, s', opened) =
      open_reader-no_metadata bytes left orderly fuel s (long, magic) version no_metadata in
    let (r, ends, stats, failed) =
      next-empty_scratch bytes left orderly fuel
        (record (unscratched s) { source = s'; version = v }) refl tt in
    rw (opened, ends, stats, failed) refl

-- If an orderly source holds a file that opens, announces no metadata and has records that split
-- into records and a rest, then with more rounds than the file has bytes a run of the streaming
-- reader with chunk size 0 ends cleanly, with no event, no record counted and `failed()` false,
-- while a run of the mapped reader over the same bytes ends with events that account for all the
-- records.
pub ingest-empty_chunks :
    {S : Type 0} (bytes : ByteSource S) (left : S → List ℕ)
    → IsOrderly bytes left
    → (fuel : ℕ) (s : S) (records : List ℕ) {p : Parts} → Opens (left s) (ok records)
    → Splits records p
    → metadata_len (left s) ≡ 0
    → length (left s) < fuel
    → (y : Yield) × (others : ℕ) × (bad : ℕ) × (ingest_stream bytes fuel s 0 ≡ done (ok nothing))
      × (ingest_mmap fuel (left s) ≡ done (ok y))
      × Accounts p.records y.events others bad
ingest-empty_chunks bytes left orderly zero s records opens d no_metadata h = absurd (omega arith)
ingest-empty_chunks bytes left orderly (suc fuel) s records {p} opens d no_metadata h =
    let (o, mapped, owed) = ingest_mmap-Ingests (suc fuel) (left s) h in
    let same =
      Ingests-unique (left s) o (ok (yield_of zero_stats p)) owed
        (records, opens, Splits-Yields zero_stats d) in
    let (others, bad, accounts, counts) = events_of-Accounts p.records in
    (
      yield_of zero_stats p,
      others,
      bad,
      stream-nothing bytes left orderly fuel s records opens no_metadata,
      mapped ∙ ap done same,
      accounts,
    )
