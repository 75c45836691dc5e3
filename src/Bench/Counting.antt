-- ===== src/Bench/Counting.antt =====
-- bench/bench_dbn.cpp: the counting loop of modes A and C beside a consumer that keeps every event.
use trading_engine_hh.Base.{
  ℕ, zero, suc, ◌+◌, ◌^◌, ◌<◌, ◌≡◌, refl, sym, ap, ◌∙◌, [], length, Option, none, some, Result, ok,
  err, Run, done, out_of_fuel, and_then, arith,
}
use trading_engine_hh.Event.{Event}
use trading_engine_hh.Route.{increment}
use trading_engine_hh.Stream.{Yield}
use trading_engine_hh.Prologue.{DbnError}
use trading_engine_hh.Reader.{EventReader}
use trading_engine_hh.Reader.Client.{collect, after_call, with_event}
use trading_engine_hh.Ingest.{drain_opened}
use trading_engine_hh.Bench.Passes.{count_one, count_events, count_opened}

-- The number of events of an outcome, which fits a `size_t`.
abbrev pub tally_of : Result DbnError Yield → Result DbnError ℕ
tally_of (err x) = err x
tally_of (ok y) = ok (length y.events)

abbrev pub Fits : Result DbnError Yield → Type 0
Fits (err x) = Unit {0}
Fits (ok y) = length y.events < 2 ^ 64

module _ {R : Type 0} (reader : EventReader R) (fuel : ℕ) where
  abbrev Counts : ℕ → Type 0
  Counts calls =
      (events : ℕ) (r : R) (y : Yield)
      → collect reader calls fuel r ≡ done y
      → events + length y.events < 2 ^ 64
      → count_events reader calls fuel events r ≡ done (events + length y.events)

  counted_rest :
      (calls events : ℕ) (y : Yield) (x : Event) (s : R) (u : Run Yield)
      → Counts calls
      → collect reader calls fuel s ≡ u
      → and_then u (λ z. done (with_event x z)) ≡ done y
      → events + length y.events < 2 ^ 64
      → count_events reader calls fuel (increment events) s ≡ done (events + length y.events)
  counted_rest calls events y x s out_of_fuel ih d q h = cc
  counted_rest calls events y x s (done z) ih d q h =
      let size : length y.events ≡ suc (length z.events) =
        ap (λ (w : Yield). length w.events) (sym same) in
      let one : increment events ≡ suc events = omega (arith, h, size) in
      let total : suc events + length z.events ≡ events + length y.events = omega (arith, size) in
      rw one (ih (suc events) s z d (omega (arith, h, size)) ∙ ap (λ (n : ℕ). done n) total)
    where
      same : with_event x z ≡ y
      same = cc q

  counted_call :
      (calls events : ℕ) (y : Yield) (t : Run (Option Event × R))
      → Counts calls
      → and_then t (λ (o, s). after_call reader o s (λ v. collect reader calls fuel v)) ≡ done y
      → events + length y.events < 2 ^ 64
      → and_then t (λ o. count_one events o (λ n s. count_events reader calls fuel n s))
        ≡ done (events + length y.events)
  counted_call calls events y out_of_fuel ih q h = cc
  counted_call calls events y (done (none, s)) ih q h = ap (λ (n : ℕ). done n) total
    where
      same : record { events = []; stats = reader.stats s; failed = reader.failed s } ≡ y
      same = cc q

      total : events ≡ events + length y.events
      total = omega (arith, ap (λ (w : Yield). length w.events) same)
  counted_call calls events y (done (some x, s)) ih q h =
      counted_rest calls events y x s (collect reader calls fuel s) ih refl q h

  pub count_events-collect : (calls : ℕ) → Counts calls
  unfolding count_events collect
  count_events-collect zero events r y e h = cc
  count_events-collect (suc calls) events r y e h =
      counted_call calls events y (reader.next fuel r) (count_events-collect calls) e h

  opened_rest :
      (r : R) (u : Run Yield) (o : Result DbnError Yield)
      → collect reader fuel fuel r ≡ u
      → and_then u (λ y. done (ok y)) ≡ done o
      → Fits o
      → count_opened reader fuel (ok r) ≡ done (tally_of o)
  opened_rest r out_of_fuel o d q h = cc
  opened_rest r (done y) (err x) d q h = cc
  opened_rest r (done y) (ok z) d q h =
      rw (count_events-collect fuel 0 r z (d ∙ ap (λ w. done w) same) (omega arith))
        (ap (λ (n : ℕ). done (ok n)) total)
    where
      same : y ≡ z
      same = cc q

      total : 0 + length z.events ≡ length z.events
      total = omega arith

  pub count_opened-drain :
      (x : Result DbnError R) (o : Result DbnError Yield)
      → drain_opened reader fuel x ≡ done o
      → Fits o
      → count_opened reader fuel x ≡ done (tally_of o)
  count_opened-drain (err x) o e h = ap (λ o. done (tally_of o)) (same o e)
    where
      same : (o : Result DbnError Yield) → drain_opened reader fuel (err x) ≡ done o → err x ≡ o
      same o e = cc e
  count_opened-drain (ok r) o e h = opened_rest r (collect reader fuel fuel r) o refl e h
