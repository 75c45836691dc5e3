-- ===== src/Ingest/Faults.antt =====
-- A whole run of the streaming reader over a file whose medium fails part of the way.
use trading_engine_hh.Base.{
  ℕ, ◌+◌, ◌*◌, ◌≤◌, ◌<◌, ◌≡◌, sym, ap, ◌∙◌, false, ◌⊎◌, List, ◌++◌, length, drop, length-take,
  take-append-drop, ok, done, arith,
}
use trading_engine_hh.Event.{Event}
use trading_engine_hh.Stream.{Yield}
use trading_engine_hh.Prologue.{Opens, header_size, metadata_len}
use trading_engine_hh.Prologue.Prefix.{metadata_len-take, Opens-take}
use trading_engine_hh.Source.{IStream, file_source}
use trading_engine_hh.Source.File.{file_source-IsOrderly}
use trading_engine_hh.Source.Faults.{ReadsUntilFault, readable, readable-ReadsFile}
use trading_engine_hh.Ingest.{ingest_stream, ingest_mmap}
use trading_engine_hh.Ingest.Parity.{ingest_parity}
use trading_engine_hh.Ingest.Delivery.{ingest_mmap-append}

-- If a file opens and its stream stops storing bytes at a fault of the medium, somewhere after the
-- prologue, then with a chunk size above 0 and more rounds than the metadata length and twice the
-- bytes together the streaming reader ends without an error. Its events are the first ones of
-- those that the mapped reader returns for the whole file, and either both runs return the same
-- events, counters and `failed()`, or the streaming one ends with `failed()` false, which is a
-- clean end.
pub ingest-ReadsUntilFault :
    {P F : Type 0} (io : IStream P F) (content : F → List ℕ) (reach : F → ℕ)
    → ReadsUntilFault io content reach
    → (fuel : ℕ) (s : F) (chunk_size : ℕ) → 0 < chunk_size
    → (records : List ℕ) → Opens (content s) (ok records)
    → header_size + metadata_len (content s) ≤ reach s
    → metadata_len (content s) + 2 * length (content s) < fuel
    → (y z : Yield) × (es : List Event) × (ingest_stream (file_source io) fuel s chunk_size
        ≡ done (ok y))
      × (ingest_mmap fuel (content s) ≡ done (ok z))
      × (z.events ≡ y.events ++ es)
      × ((y ≡ z) ⊎ (y.failed ≡ false))
ingest-ReadsUntilFault {F = F} io content reach law fuel s chunk_size room records opens far h =
    let got = Opens-take (reach s) (content s) records opens far in
    let (y, z, es, short, full, events, failure) =
      ingest_mmap-append fuel (readable content reach s) (drop (reach s) (content s)) _ got
        (omega (arith, h, ap length split)) in
    let (o, streamed, mapped) =
      ingest_parity (file_source io) (readable content reach)
        (file_source-IsOrderly io (readable content reach)
          (readable-ReadsFile io content reach law))
        fuel s chunk_size room
        (omega (
          arith,
          h,
          metadata_len-take (reach s) (content s) records opens far,
          length-take (reach s) (content s),
        )) in
    (
      y,
      z,
      es,
      streamed ∙ sym mapped ∙ short,
      ap (ingest_mmap fuel) (sym split) ∙ full,
      events,
      failure,
    )
  where
    split : readable content reach s ++ drop (reach s) (content s) ≡ content s
    split = take-append-drop (reach s) (content s)
