-- ===== src/Ingest/Whole.antt =====
-- A whole run over a DBN file, from its bytes to the events of its records.
use trading_engine_hh.Base.{
  ℕ, ◌+◌, ◌*◌, ◌<◌, ◌≡◌, refl, sym, ap, ◌∙◌, false, List, ◌++◌, length, drop, get_or, All,
  length-append, drop-append, drop-append_add, get_or-append, ok, done, arith,
}
use trading_engine_hh.Frame.{IsPartial}
use trading_engine_hh.Frame.Split.{Parts, Splits}
use trading_engine_hh.Dbn.{WireMbo}
use trading_engine_hh.Route.{zero_stats, k_supported_dbn_version}
use trading_engine_hh.Stream.{Yield}
use trading_engine_hh.Stream.Records.{yield_of, Splits-Yields}
use trading_engine_hh.Stream.Accounts.{Accounts, Counts, events_of-Accounts}
use trading_engine_hh.Stream.RoundTrip.{
  IsMboWire, bytes_of_wires, converted, stats_after, bytes_of_wires-Splits, Yields-bytes_of_wires,
}
use trading_engine_hh.Prologue.{Opens, IsMagic, metadata_len, header_size}
use trading_engine_hh.Prologue.Prefix.{metadata_len-append}
use trading_engine_hh.Source.{ByteSource, IsOrderly}
use trading_engine_hh.Ingest.{ingest_stream, ingest_mmap}
use trading_engine_hh.Ingest.Parity.{
  Ingests, Ingests-unique, ingest_mmap-Ingests, ingest_stream-Ingests,
}

-- A supported DBN file: the header, as many metadata bytes as it says, and the records.
pub record IsDbn (header metadata : List ℕ) : Type 0 where
  pub size : length header ≡ header_size
  pub magic : IsMagic header
  pub version : get_or header 3 0 ≡ k_supported_dbn_version
  pub metadata_size : length metadata ≡ metadata_len header

module _ (header metadata records : List ℕ) (dbn : IsDbn header metadata) where
  abbrev file : List ℕ
  file = header ++ (metadata ++ records)

  agree : (i : ℕ) → i < 8 → get_or file i 0 ≡ get_or header i 0
  agree i h = get_or-append i header (metadata ++ records) 0 (omega (arith, dbn.size))

  same_len : metadata_len file ≡ metadata_len header
  same_len = metadata_len-append header (metadata ++ records) (omega (arith, dbn.size))

  past_prologue : drop (header_size + metadata_len file) file ≡ records
  past_prologue =
      ap (λ (n : ℕ). drop n file) sizes
      ∙ drop-append_add (length metadata) header (metadata ++ records)
      ∙ drop-append metadata records (length metadata) refl
    where
      sizes : header_size + metadata_len file ≡ length header + length metadata
      sizes = omega (arith, same_len, dbn.size, dbn.metadata_size)

  pub file-Opens : Opens file (ok records)
  file-Opens = (
    (
      omega (arith, length-append header (metadata ++ records), dbn.size),
      (
        agree 0 (omega arith) ∙ dbn.magic.0,
        agree 1 (omega arith) ∙ dbn.magic.1,
        agree 2 (omega arith) ∙ dbn.magic.2,
      ),
    ),
    agree 3 (omega arith) ∙ dbn.version,
    omega (
      arith,
      length-append header (metadata ++ records),
      length-append metadata records,
      same_len,
      dbn.size,
      dbn.metadata_size,
    ),
    sym past_prologue,
  )

  -- What a run over the file owes is what its records say.
  file-Ingests : {p : Parts} → Splits records p → Ingests file (ok (yield_of zero_stats p))
  file-Ingests d = (records, file-Opens, Splits-Yields zero_stats d)

-- Both readers end with what the records of the file owe.
ingest-parts :
    {S : Type 0} (bytes : ByteSource S) (left : S → List ℕ)
    → IsOrderly bytes left
    → (header metadata records : List ℕ) {p : Parts} → IsDbn header metadata
    → Splits records p
    → (fuel : ℕ) (s : S) (chunk_size : ℕ) → left s ≡ header ++ (metadata ++ records)
    → 0 < chunk_size
    → metadata_len (left s) + 2 * length (left s) < fuel
    → (ingest_stream bytes fuel s chunk_size ≡ done (ok (yield_of zero_stats p)))
      × (ingest_mmap fuel (left s) ≡ done (ok (yield_of zero_stats p)))
ingest-parts bytes left orderly header metadata records {p} dbn d fuel s chunk_size e room h =
    let (o, streamed, owed) = ingest_stream-Ingests bytes left orderly fuel s chunk_size room h in
    let (o', mapped, owed') = ingest_mmap-Ingests fuel (left s) (omega arith) in
    (
      streamed ∙ ap done (Ingests-unique (left s) o (ok (yield_of zero_stats p)) owed what),
      mapped ∙ ap done (Ingests-unique (left s) o' (ok (yield_of zero_stats p)) owed' what),
    )
  where
    what : Ingests (left s) (ok (yield_of zero_stats p))
    what = rw e (file-Ingests header metadata records dbn d)

-- If an orderly source holds a supported header, its metadata and bytes that split into records
-- and a rest, then with a chunk size above 0 and more rounds than the metadata length and twice
-- the bytes together both readers end without an error and with the same outcome. Its events
-- account for the records, one after the other: a record with the type tag and the size of
-- `WireMbo` and a named action and side gives an event with its fields, any other record with that
-- tag and size is malformed, and every record without them is of another type. The counters are
-- the numbers of the records, the events, the records of another type and the malformed ones,
-- modulo 2 ^ 64, and `failed()` holds exactly if the rest begins with a record of no words.
pub ingest-records :
    {S : Type 0} (bytes : ByteSource S) (left : S → List ℕ)
    → IsOrderly bytes left
    → (header metadata records : List ℕ) {p : Parts} → IsDbn header metadata
    → Splits records p
    → (fuel : ℕ) (s : S) (chunk_size : ℕ) → left s ≡ header ++ (metadata ++ records)
    → 0 < chunk_size
    → metadata_len (left s) + 2 * length (left s) < fuel
    → (y : Yield) × (others : ℕ) × (bad : ℕ) × (ingest_stream bytes fuel s chunk_size ≡ done (ok y))
      × (ingest_mmap fuel (left s) ≡ done (ok y))
      × Accounts p.records y.events others bad
      × Counts (length p.records) (length y.events) others bad y.stats
      × (y.failed ≡ p.broken)
ingest-records bytes left orderly header metadata records {p} dbn d fuel s chunk_size e room h =
    let (streamed, mapped) =
      ingest-parts bytes left orderly header metadata records dbn d fuel s chunk_size e room h in
    let (others, bad, accounts, counts) = events_of-Accounts p.records in
    (yield_of zero_stats p, others, bad, streamed, mapped, accounts, counts, refl)

-- If an orderly source holds a supported header, its metadata, the bytes of market-by-order
-- records and perhaps a part of one more record, then with a chunk size above 0 and more rounds
-- than the metadata length and twice the bytes together both readers end without an error, with
-- the events that the records convert to, in order, the counters that the records give, and
-- `failed()` false.
pub ingest-bytes_of_wires :
    {S : Type 0} (bytes : ByteSource S) (left : S → List ℕ)
    → IsOrderly bytes left
    → (header metadata : List ℕ) (ws : List WireMbo) (tail : List ℕ) → IsDbn header metadata
    → All IsMboWire ws
    → IsPartial tail
    → (fuel : ℕ) (s : S) (chunk_size : ℕ)
    → left s ≡ header ++ (metadata ++ (bytes_of_wires ws ++ tail))
    → 0 < chunk_size
    → metadata_len (left s) + 2 * length (left s) < fuel
    → let y : Yield = record {
      events = converted ws;
      stats = stats_after zero_stats ws;
      failed = false;
    } in
      (ingest_stream bytes fuel s chunk_size ≡ done (ok y))
      × (ingest_mmap fuel (left s) ≡ done (ok y))
ingest-bytes_of_wires bytes left orderly header metadata ws tail dbn w partial fuel s chunk_size e
      room h =
    let d = bytes_of_wires-Splits ws tail w partial in
    let same = Yields-bytes_of_wires ws tail zero_stats w partial (Splits-Yields zero_stats d) in
    let (streamed, mapped) =
      ingest-parts bytes left orderly header metadata (bytes_of_wires ws ++ tail) dbn d fuel s
        chunk_size e room h in
    (streamed ∙ ap (λ y. done (ok y)) same, mapped ∙ ap (λ y. done (ok y)) same)
