-- ===== src/Ingest/Delivery.antt =====
-- Whole runs over a file: which events are delivered, and what more bytes change.
use trading_engine_hh.Base.{
  ℕ, suc, ◌+◌, ◌*◌, ◌<◌, ◌≡◌, refl, ap, ◌∙◌, ◌⊎◌, inl, inr, false, List, ◌∷◌, ◌++◌, length,
  length-append, Result, ok, err, done, arith,
}
use mathlib.Core.Path.{subst}
use trading_engine_hh.Event.{Event}
use trading_engine_hh.Frame.Split.{Parts, Splits, split_up, Splits-append, Splits-broken}
use trading_engine_hh.Route.{emit, Routed, IngestStats, zero_stats, route_record, tally}
use trading_engine_hh.Stream.{Yield, Yields}
use trading_engine_hh.Stream.Records.{
  before, events_of, stats_of, yield_of, events_of-append, Yields-eq,
}
use trading_engine_hh.Prologue.{DbnError, Opens, Opens-unique, metadata_len}
use trading_engine_hh.Prologue.Prefix.{Opens-append}
use trading_engine_hh.Source.{ByteSource, IsOrderly}
use trading_engine_hh.Ingest.{ingest_stream, ingest_mmap}
use trading_engine_hh.Ingest.Parity.{Ingests, ingest_mmap-Ingests, ingest_both}

-- A record that is emitted puts its event in front.
before-emit :
    (s : IngestStats) (r : Routed) (es : List Event)
    → r.outcome ≡ emit
    → before (tally s r).0 es ≡ r.event ∷ es
unfolding tally
before-emit s r es e = rw e refl

-- A run over a file that opens yields what its records owe.
Ingests-ok :
    (f records : List ℕ) (o : Result DbnError Yield) {p : Parts}
    → Opens f (ok records)
    → Splits records p
    → Ingests f o
    → o ≡ ok (yield_of zero_stats p)
Ingests-ok f records (err x) opens d owed = cc (Opens-unique f (ok records) (err x) opens owed)
Ingests-ok f records (ok y) {p} opens d (u, opens', yields) =
    ap ok (Yields-eq d (subst (λ t. Yields t zero_stats y) same yields))
  where
    same : u ≡ records
    same = cc (Opens-unique f (ok u) (ok records) opens' opens)

-- If an orderly source holds a file that opens and whose bytes split into records, of which one,
-- after some earlier ones, is routed to an event, then with a chunk size above 0 and more rounds
-- than the metadata length and twice the bytes together both readers end without an error and
-- return that event, right after the events of the earlier records.
pub ingest-emit :
    {S : Type 0} (bytes : ByteSource S) (left : S → List ℕ)
    → IsOrderly bytes left
    → (fuel : ℕ) (s : S) (chunk_size : ℕ) → 0 < chunk_size
    → metadata_len (left s) + 2 * length (left s) < fuel
    → (records : List ℕ) {p : Parts} (earlier later : List (List ℕ)) (rec : List ℕ)
    → Opens (left s) (ok records)
    → Splits records p
    → p.records ≡ earlier ++ (rec ∷ later)
    → (route_record rec).outcome ≡ emit
    → (y : Yield) × (es : List Event) × (ingest_stream bytes fuel s chunk_size ≡ done (ok y))
      × (ingest_mmap fuel (left s) ≡ done (ok y))
      × (y.events ≡ events_of zero_stats earlier ++ ((route_record rec).event ∷ es))
ingest-emit bytes left orderly fuel s chunk_size room enough records {p} earlier later rec opens d e
      r =
    let (o, streamed, mapped, owed) =
      ingest_both bytes left orderly fuel s chunk_size room enough in
    let is = Ingests-ok (left s) records o opens d owed in
    (
      yield_of zero_stats p,
      events_of (tally (stats_of zero_stats earlier) (route_record rec)).1 later,
      streamed ∙ ap done is,
      mapped ∙ ap done is,
      ap (events_of zero_stats) e
          ∙ events_of-append zero_stats earlier (rec ∷ later)
          ∙ ap (λ es. events_of zero_stats earlier ++ es)
              (before-emit (stats_of zero_stats earlier) (route_record rec) _ r),
    )

-- What bytes say is not changed by what follows once a record of no words has come.
yield_of-longer :
    {u : List ℕ} {p : Parts} (more : List ℕ) (q : Parts)
    → Splits u p
    → Splits (u ++ more) q
    → (yield_of zero_stats p ≡ yield_of zero_stats q) ⊎ (p.broken ≡ false)
yield_of-longer more q d d' = elim (Splits-broken more q d d') [
  | inl unbroken ↦ inr unbroken
  | inr (broken, broken', same) ↦ inl (rw (broken, broken', same) refl)
]

-- For a file that opens, with more rounds than the longer file has bytes, runs of the mapped
-- reader over the file and over the file with more bytes at its end both end without an error, and
-- the second returns the events of the first and then perhaps more; and either both return the
-- same events, counters and `failed()`, or the first ends with `failed()` false.
pub ingest_mmap-append :
    (fuel : ℕ) (f more records : List ℕ)
    → Opens f (ok records)
    → length (f ++ more) < fuel
    → (y z : Yield) × (es : List Event) × (ingest_mmap fuel f ≡ done (ok y))
      × (ingest_mmap fuel (f ++ more) ≡ done (ok z))
      × (z.events ≡ y.events ++ es)
      × ((y ≡ z) ⊎ (y.failed ≡ false))
ingest_mmap-append fuel f more records opens h =
    let (p, d) = split_up (suc (length records)) records (omega arith) in
    let (q, d') = split_up (suc (length (records ++ more))) (records ++ more) (omega arith) in
    let (rs, longer) = Splits-append more q d d' in
    let (o, runs, owed) = ingest_mmap-Ingests fuel f (omega (arith, length-append f more)) in
    let (o', runs', owed') = ingest_mmap-Ingests fuel (f ++ more) h in
    (
      yield_of zero_stats p,
      yield_of zero_stats q,
      events_of (stats_of zero_stats p.records) rs,
      runs ∙ ap done (Ingests-ok f records o opens d owed),
      runs'
          ∙ ap done (
              Ingests-ok (f ++ more) (records ++ more) o' (Opens-append f more records opens) d'
                owed'),
      ap (events_of zero_stats) longer ∙ events_of-append zero_stats p.records rs,
      yield_of-longer more q d d',
    )
