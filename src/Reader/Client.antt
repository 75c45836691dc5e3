-- ===== src/Reader/Client.antt =====
-- The loop of a consumer, `for (auto e = reader.next(); e.has_value(); e = reader.next())`, as in
-- examples/replay_dbn.cpp and bench/bench_dbn.cpp, over either reader.
use trading_engine_hh.Base.{
  ℕ, zero, suc, ◌≤◌, ◌<◌, ◌≡◌, refl, ap, Option, none, some, List, [], ◌∷◌, length, length-append,
  Run, done, out_of_fuel, and_then, arith,
}
use trading_engine_hh.Event.{Event}
use trading_engine_hh.Frame.Contract.{record_nonempty}
use trading_engine_hh.Route.{IngestStats}
use trading_engine_hh.Stream.{
  Answer, Delivers, at_end, at_corrupt, hand_on, pass_over, Yield, Yields, last, more,
}
use trading_engine_hh.Reader.{EventReader, KeepsContract}

-- An event is handed on only together with the bytes that it was read from.
pub Delivers-shorter :
    {u : List ℕ} {s : IngestStats} {a : Answer} (x : Event)
    → Delivers u s a
    → a.event ≡ some x
    → length a.rest < length u
Delivers-shorter x (at_end p e) h = cc
Delivers-shorter x (at_corrupt c e) h = cc
Delivers-shorter x (hand_on rec v y c e w t q) h = omega (
  arith,
  ap length e,
  length-append rec v,
  record_nonempty rec w,
  ap (λ (b : Answer). length b.rest) q,
)
Delivers-shorter x (pass_over rec v c e w t d) h =
    omega (arith, ap length e, length-append rec v, Delivers-shorter x d h)

-- There are no more events than bytes.
pub length-Yields :
    {u : List ℕ} {s : IngestStats} {y : Yield} → Yields u s y → length y.events ≤ length u
length-Yields (last a d n e) = omega (arith, ap (λ (z : Yield). length z.events) e)
length-Yields (more a x z d n m e) =
    omega (arith, ap (λ (w : Yield). length w.events) e, length-Yields m, Delivers-shorter x d n)

abbrev pub with_event : Event → Yield → Yield
with_event x y = record y { events = x ∷ y.events }

module _ {R : Type 0} (reader : EventReader R) where
  -- What follows one call: the loop ends at `nullopt`, and `again` is the rest of it.
  abbrev pub after_call : Option Event → R → (R → Run Yield) → Run Yield
  after_call none r again =
      done (record { events = []; stats = reader.stats r; failed = reader.failed r })
  after_call (some x) r again = and_then (again r) (λ y. done (with_event x y))

  -- At most `calls` calls, of at most `fuel` rounds each. The events kept are those that the body of
  -- the loop is run on; what a body does with them is not this definition's.
  unfoldable pub collect : ℕ → ℕ → R → Run Yield
  collect zero fuel r = out_of_fuel
  collect (suc calls) fuel r =
      and_then (reader.next fuel r) (λ (e, r'). after_call e r' (λ s. collect calls fuel s))

module _ {R : Type 0} {IsReady : R → Type 0} (reader : EventReader R)
    (law : KeepsContract reader IsReady) where
  -- What the loop owes within `calls` calls.
  abbrev Collects : ℕ → ℕ → R → Type 0
  Collects calls fuel r =
      IsReady r
      → law.effort r < fuel
      → length (law.rest r) < calls
      → (y : Yield) × (collect reader calls fuel r ≡ done y)
        × Yields (law.rest r) (reader.stats r) y

  -- One call, and then the loop from where it left the reader.
  collect_step :
      (calls fuel : ℕ) (r r' : R) (e : Option Event)
      → reader.next fuel r ≡ done (e, r')
      → Delivers (law.rest r) (reader.stats r) (record {
        event = e;
        rest = law.rest r';
        stats = reader.stats r';
        failed = reader.failed r';
      })
      → IsReady r'
      → law.effort r' < fuel
      → length (law.rest r) < suc calls
      → Collects calls fuel r'
      → (y : Yield) × (collect reader (suc calls) fuel r ≡ done y)
        × Yields (law.rest r) (reader.stats r) y
  unfolding collect
  collect_step calls fuel r r' none runs owed ready enough h ih = (
    record { events = []; stats = reader.stats r'; failed = reader.failed r' },
    rw runs refl,
    last _ owed refl refl,
  )
  collect_step calls fuel r r' (some x) runs owed ready enough h ih =
      let (y, rest_runs, yields) = ih ready enough (omega (arith, Delivers-shorter x owed refl)) in
      (with_event x y, rw (runs, rest_runs) refl, more _ x y owed refl yields refl)

  -- Over every reader that keeps the contract, from a ready reader, with more rounds for each call
  -- than its effort and more calls than bytes before it, the loop that calls `next()` until
  -- `nullopt` ends, and its events, counters and flag are those that `Yields` owes for the bytes.
  pub collect-Yields :
      (calls fuel : ℕ) (r : R)
      → IsReady r
      → law.effort r < fuel
      → length (law.rest r) < calls
      → (y : Yield) × (collect reader calls fuel r ≡ done y)
        × Yields (law.rest r) (reader.stats r) y
  collect-Yields zero fuel r k enough h = absurd (omega arith)
  collect-Yields (suc calls) fuel r k enough h =
      let (e, r', runs, owed, ready, less) = law.next_delivers r fuel k enough in
      collect_step calls fuel r r' e runs owed ready (omega arith) h (collect-Yields calls fuel r')
