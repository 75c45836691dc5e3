-- ===== src/Replay/Loop.antt =====
-- examples/replay_dbn.cpp: the loop against the loop of any consumer.
use trading_engine_hh.Base.{
  ℕ, zero, suc, ◌+◌, ◌<◌, ◌≡◌, ◌^◌, refl, sym, ap, ◌∙◌, List, [], ◌∷◌, ◌++◌, append-nil, take,
  length, Option, none, some, Run, done, out_of_fuel, and_then, arith, ◌==◌, if◌then◌else◌,
}
use trading_engine_hh.Event.{Event}
use trading_engine_hh.Route.{increment}
use trading_engine_hh.Stream.{Yield}
use trading_engine_hh.Reader.Client.{collect, after_call, with_event}
use trading_engine_hh.Source.{ByteSource}
use trading_engine_hh.DbnReader
use trading_engine_hh.DbnReader.{DbnReader}
use trading_engine_hh.DbnReader.Contract.{stream_reader}
use trading_engine_hh.Replay.{replay_from, turn}

-- The lines printed for the first event: one, if none was counted before.
abbrev pub lines_after : ℕ → List Event → List Event → List Event
lines_after zero lines es = lines ++ take 1 es
lines_after (suc n) lines es = lines

module _ {S : Type 0} (bytes : ByteSource S) (fuel : ℕ) where
  -- What the loop leaves where a consumer that keeps every event leaves `y`.
  pub record Replayed (count : ℕ) (lines : List Event) (y : Yield)
      (o : Run (ℕ × List Event × DbnReader S)) : Type 0 where
    pub left : DbnReader S
    pub runs : o ≡ done (count + length y.events, lines_after count lines y.events, left)
    pub stats : left.stats ≡ y.stats
    pub failed : left.failed ≡ y.failed

  lines_once :
      (count : ℕ) (lines : List Event) (x : Event) (es : List Event)
      → lines_after (suc count) (if count == 0 then lines ++ (x ∷ []) else lines) es
        ≡ lines_after count lines (x ∷ es)
  lines_once zero lines x es = refl
  lines_once (suc n) lines x es = ground arith

  lines_none : (count : ℕ) (lines : List Event) → lines ≡ lines_after count lines []
  lines_none zero lines = sym (append-nil lines)
  lines_none (suc n) lines = refl

  -- The lemma below for `calls` calls.
  abbrev Follows : ℕ → Type 0
  Follows calls =
      (count : ℕ) (lines : List Event) (r : DbnReader S) (y : Yield)
      → collect (stream_reader bytes) calls fuel r ≡ done y
      → count + length y.events < 2 ^ 64
      → Replayed count lines y (replay_from bytes calls fuel count lines r)

  pub replay_from-collect :
      (calls count : ℕ) (lines : List Event) (r : DbnReader S) (y : Yield)
      → collect (stream_reader bytes) calls fuel r ≡ done y
      → count + length y.events < 2 ^ 64
      → Replayed count lines y (replay_from bytes calls fuel count lines r)
  unfolding replay_from collect
  replay_from-collect zero count lines r y e h = cc
  replay_from-collect (suc calls) count lines r y e h =
      by_call (replay_from-collect calls) (DbnReader.next bytes fuel r) e
    where
      by_rest :
          Follows calls
          → (x : Event) (s : DbnReader S) (u : Run Yield)
          → collect (stream_reader bytes) calls fuel s ≡ u
          → and_then u (λ z. done (with_event x z)) ≡ done y
          → Replayed count lines y
              (turn bytes count lines (some x, s) (λ c ls t. replay_from bytes calls fuel c ls t))
      by_rest ih x s out_of_fuel d q = cc
      by_rest ih x s (done z) d q =
          let same : with_event x z ≡ y = cc q in
          let size : length y.events ≡ suc (length z.events) =
            ap (λ (w : Yield). length w.events) (sym same) in
          let one : increment count ≡ suc count = omega (arith, h, size) in
          let total : suc count + length z.events ≡ count + length y.events = omega (arith, size) in
          let printed =
            lines_once count lines x z.events
            ∙ ap (λ (w : Yield). lines_after count lines w.events) same in
          let later =
            ih (suc count) (if count == 0 then lines ++ (x ∷ []) else lines) s z d
              (omega (arith, h, size)) in
          rw one (record {
            left = later.left;
            runs = later.runs ∙ (λ i. done (total i, printed i, later.left));
            stats = later.stats ∙ ap (λ (w : Yield). w.stats) same;
            failed = later.failed ∙ ap (λ (w : Yield). w.failed) same;
          })

      by_call :
          Follows calls
          → (t : Run (Option Event × DbnReader S))
          → and_then t (λ (o, s).
            after_call (stream_reader bytes) o s (λ v. collect (stream_reader bytes) calls fuel v))
            ≡ done y
          → Replayed count lines y (
              and_then t
                (λ o. turn bytes count lines o (λ c ls s. replay_from bytes calls fuel c ls s)))
      by_call ih out_of_fuel q = cc
      by_call ih (done (none, s)) q =
          let same : record { events = []; stats = s.stats; failed = s.failed } ≡ y = cc q in
          let total : count ≡ count + length y.events =
            omega (arith, ap (λ (w : Yield). length w.events) same) in
          let printed =
            lines_none count lines ∙ ap (λ (w : Yield). lines_after count lines w.events) same in
          record {
            left = s;
            runs = λ i. done (total i, printed i, s);
            stats = ap (λ (w : Yield). w.stats) same;
            failed = ap (λ (w : Yield). w.failed) same;
          }
      by_call ih (done (some x, s)) q =
          by_rest ih x s (collect (stream_reader bytes) calls fuel s) refl q
