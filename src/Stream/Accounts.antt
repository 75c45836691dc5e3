-- ===== src/Stream/Accounts.antt =====
-- What a reader should make of the records of a file, said without its routing and counting.
use trading_engine_hh.Base.{ℕ, suc, ◌+◌, ◌%◌, ◌^◌, ◌≡◌, refl, ◌⊎◌, List, [], ◌∷◌, length, arith}
use trading_engine_hh.Event.{Event, cast_action, cast_side}
use trading_engine_hh.Event.Validate.{IsNamedAction, IsNamedSide}
use trading_engine_hh.Dbn.{wire_of_bytes}
use trading_engine_hh.Dbn.Convert.{Trusted}
use trading_engine_hh.Route.{
  RouteOutcome, emit, skip_non_mbo, skip_malformed, IngestStats, zero_stats, route_record, tally,
}
use trading_engine_hh.Route.Outcomes.{IsMbo, RoutedAs, route_record-RoutedAs}
use trading_engine_hh.Stream.Records.{before, events_of, stats_of}

-- The records against the events in their order: each record gives an event with its fields, or is one
-- of the `others`, which are no market-by-order records, or one of the `bad` ones, whose action or side
-- has no name.
pub data Accounts : List (List ℕ) → List Event → ℕ → ℕ → Type 0 where
  no_records : Accounts [] [] 0 0
  gives :
      {rs : List (List ℕ)} {es : List Event} {others bad : ℕ} (rec : List ℕ) (e : Event)
      → IsMbo rec
      → Trusted (wire_of_bytes rec) e
      → Accounts rs es others bad
      → Accounts (rec ∷ rs) (e ∷ es) others bad
  is_other :
      {rs : List (List ℕ)} {es : List Event} {others bad : ℕ} (rec : List ℕ)
      → ¬ IsMbo rec
      → Accounts rs es others bad
      → Accounts (rec ∷ rs) es (suc others) bad
  is_bad :
      {rs : List (List ℕ)} {es : List Event} {others bad : ℕ} (rec : List ℕ)
      → IsMbo rec
      → ((¬ IsNamedAction (cast_action (wire_of_bytes rec).action))
          ⊎ (¬ IsNamedSide (cast_side (wire_of_bytes rec).side)))
      → Accounts rs es others bad
      → Accounts (rec ∷ rs) es others (suc bad)

-- The counters are these numbers, modulo 2 ^ 64.
pub record Counts (records events others bad : ℕ) (s : IngestStats) : Type 0 where
  pub counted : s.records ≡ records % 2 ^ 64
  pub emitted : s.events ≡ events % 2 ^ 64
  pub skipped_non_mbo : s.skipped_non_mbo ≡ others % 2 ^ 64
  pub skipped_malformed : s.skipped_malformed ≡ bad % 2 ^ 64

zero_stats-Counts : Counts 0 0 0 0 zero_stats
zero_stats-Counts = record {
  counted = refl;
  emitted = refl;
  skipped_non_mbo = refl;
  skipped_malformed = refl;
}

-- From counters of earlier records.
abbrev Accounted : List (List ℕ) → List Event → ℕ → ℕ → ℕ → ℕ → IngestStats → Type 0
Accounted rs es n e a b s =
    (a' : ℕ) × (b' : ℕ) × Accounts rs es a' b'
    × Counts (n + length rs) (e + length es) (a + a') (b + b') s

account_record :
    (rec : List ℕ) (rs : List (List ℕ)) (o : RouteOutcome) (x : Event) (s : IngestStats)
    (n e a b : ℕ)
    → RoutedAs o rec x
    → Counts n e a b s
    → ((t : IngestStats) (n e a b : ℕ)
        → Counts n e a b t
        → Accounted rs (events_of t rs) n e a b (stats_of t rs))
    → let t = tally s (record { outcome = o; event = x }) in
      Accounted (rec ∷ rs) (before t.0 (events_of t.1 rs)) n e a b (stats_of t.1 rs)
unfolding tally
account_record rec rs emit x s n e a b (m, trusted) c later =
    let (a', b', rest, counts) =
      later (tally s (record { outcome = emit; event = x })).1 (suc n) (suc e) a b (record {
        counted = omega (arith, c.counted);
        emitted = omega (arith, c.emitted);
        skipped_non_mbo = c.skipped_non_mbo;
        skipped_malformed = c.skipped_malformed;
      }) in
    (
      a',
      b',
      gives rec x m trusted rest,
      record {
        counted = omega (arith, counts.counted);
        emitted = omega (arith, counts.emitted);
        skipped_non_mbo = counts.skipped_non_mbo;
        skipped_malformed = counts.skipped_malformed;
      },
    )
account_record rec rs skip_non_mbo x s n e a b other c later =
    let (a', b', rest, counts) =
      later (tally s (record { outcome = skip_non_mbo; event = x })).1 (suc n) e (suc a) b (record {
        counted = omega (arith, c.counted);
        emitted = c.emitted;
        skipped_non_mbo = omega (arith, c.skipped_non_mbo);
        skipped_malformed = c.skipped_malformed;
      }) in
    (
      suc a',
      b',
      is_other rec other rest,
      record {
        counted = omega (arith, counts.counted);
        emitted = counts.emitted;
        skipped_non_mbo = omega (arith, counts.skipped_non_mbo);
        skipped_malformed = counts.skipped_malformed;
      },
    )
account_record rec rs skip_malformed x s n e a b (m, unnamed) c later =
    let (a', b', rest, counts) =
      later (tally s (record { outcome = skip_malformed; event = x })).1 (suc n) e a (suc b)
        (record {
          counted = omega (arith, c.counted);
          emitted = c.emitted;
          skipped_non_mbo = c.skipped_non_mbo;
          skipped_malformed = omega (arith, c.skipped_malformed);
        }) in
    (
      a',
      suc b',
      is_bad rec m unnamed rest,
      record {
        counted = omega (arith, counts.counted);
        emitted = counts.emitted;
        skipped_non_mbo = counts.skipped_non_mbo;
        skipped_malformed = omega (arith, counts.skipped_malformed);
      },
    )

-- The events and the counters that the code owes for some records account for them.
events_of-Accounted :
    (rs : List (List ℕ)) (s : IngestStats) (n e a b : ℕ)
    → Counts n e a b s
    → Accounted rs (events_of s rs) n e a b (stats_of s rs)
events_of-Accounted [] s n e a b c = (
  0,
  0,
  no_records,
  record {
    counted = omega (arith, c.counted);
    emitted = omega (arith, c.emitted);
    skipped_non_mbo = omega (arith, c.skipped_non_mbo);
    skipped_malformed = omega (arith, c.skipped_malformed);
  },
)
events_of-Accounted (rec ∷ rs) s n e a b c =
    account_record rec rs (route_record rec).outcome (route_record rec).event s n e a b
      (route_record-RoutedAs rec) c (λ t n e a b c. events_of-Accounted rs t n e a b c)

-- The same from the start of a run.
pub events_of-Accounts :
    (rs : List (List ℕ))
    → (others : ℕ) × (bad : ℕ) × Accounts rs (events_of zero_stats rs) others bad
      × Counts (length rs) (length (events_of zero_stats rs)) others bad (stats_of zero_stats rs)
events_of-Accounts rs =
    let (others, bad, accounts, c) = events_of-Accounted rs zero_stats 0 0 0 0 zero_stats-Counts in
    (
      others,
      bad,
      accounts,
      record {
        counted = omega (arith, c.counted);
        emitted = omega (arith, c.emitted);
        skipped_non_mbo = omega (arith, c.skipped_non_mbo);
        skipped_malformed = omega (arith, c.skipped_malformed);
      },
    )
