-- ===== src/Bench/Parity.antt =====
-- bench/bench_dbn.cpp: the events of the in-memory mode beside those of the readers.
use trading_engine_hh.Base.{
  ℕ, ◌+◌, ◌*◌, ◌%◌, ◌^◌, ◌<◌, ◌≡◌, refl, ap, ◌∙◌, inl, inr, le→ltb, List, [], ◌∷◌, length, ok, done,
  arith,
}
use trading_engine_hh.Event.{Event}
use trading_engine_hh.Frame.Split.{Parts, Splits, concat}
use trading_engine_hh.Assembler.{empty_assembler}
use trading_engine_hh.Route.{
  RouteOutcome, emit, skip_non_mbo, skip_malformed, Routed, IngestStats, zero_stats, route_record,
  tally,
}
use trading_engine_hh.Prologue.{Opens, IsMagic-cases, header_size, metadata_len}
use trading_engine_hh.Stream.Records.{before, events_of}
use trading_engine_hh.Bench.{Pass, record_start, first_pass}
use trading_engine_hh.Bench.InMemory.{emitted, one_if_emit, pass_from-Counted}

-- `tally` hands on exactly the records that are emitted.
length-tally :
    (s : IngestStats) (r : Routed) (es : List Event)
    → length (before (tally s r).0 es) ≡ one_if_emit r.outcome + length es
unfolding tally
length-tally s r es = by_outcome r.outcome
  where
    by_outcome :
        (o : RouteOutcome)
        → length (before (tally s (record r { outcome = o })).0 es) ≡ one_if_emit o + length es
    by_outcome emit = omega arith
    by_outcome skip_non_mbo = omega arith
    by_outcome skip_malformed = omega arith

pub length-events_of : (s : IngestStats) (rs : List (List ℕ)) → length (events_of s rs) ≡ emitted rs
length-events_of s [] = refl
length-events_of s (r ∷ rs) =
    length-tally s (route_record r) (events_of (tally s (route_record r)).1 rs)
    ∙ ap (λ (n : ℕ). one_if_emit (route_record r).outcome + n)
        (length-events_of (tally s (route_record r)).1 rs)

pub record_start-Opens :
    (f records : List ℕ) → Opens f (ok records) → record_start f ≡ ok (header_size + metadata_len f)
unfolding record_start
record_start-Opens f records opens = elim (IsMagic-cases f) [
  | inr (wrong, t) ↦ absurd (wrong opens.0.1)
  | inl (magic, t) ↦ rw (le→ltb _ _ opens.0.0, t) refl
]

-- If a file opens with records that split into records and a rest, then with slices above 0 bytes
-- and more rounds than twice the bytes of the records a pass of the in-memory mode ends, having
-- counted as many events as the readers owe for those records and the bytes of the records, modulo
-- 2 ^ 64.
pub first_pass-events :
    (f records : List ℕ) (fuel chunk : ℕ) {parts : Parts}
    → Opens f (ok records)
    → Splits records parts
    → 0 < chunk
    → 2 * length records < fuel
    → (left : Pass) × (first_pass fuel f chunk ≡ done (ok left))
      × (left.events ≡ length (events_of zero_stats parts.records) % 2 ^ 64)
      × (left.record_bytes ≡ length (concat parts.records) % 2 ^ 64)
unfolding first_pass
first_pass-events f records fuel chunk {parts} opens d room h =
    let counted =
      pass_from-Counted chunk records room fuel empty_assembler
        (record { events = 0; record_bytes = 0; offset = 0 }) (omega arith) (omega arith)
        (omega arith) (omega arith) d in
    (
      counted.left,
      rw (record_start-Opens f records opens, ← opens.3, counted.runs) refl,
      omega (arith, counted.events, length-events_of zero_stats parts.records),
      omega (arith, counted.record_bytes),
    )
