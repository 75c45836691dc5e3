-- ===== src/DbnReader/Spans.antt =====
-- core/include/trading_sim/dbn_reader.hpp: `DbnReader::next` with the span of a pull read from the
-- buffer at the time it is used. `none` is a read of a span whose buffer is gone.
use trading_engine_hh.Base.{
  ℕ, zero, suc, ◌<◌, ◌≡◌, refl, sym, Bool, Bool-cases, inl, inr, true, List, [], take, ◌==◌,
  if◌then◌else◌, Option, none, some, Run, done, out_of_fuel,
}
use mathlib.Core.Path.{subst}
use trading_engine_hh.Event.{Event}
use trading_engine_hh.Assembler.{RecordAssembler, PullStatus, record_pulled, need_more, corrupt}
use trading_engine_hh.Assembler.Buffer.{IsValid, append-Appended}
use trading_engine_hh.Assembler.Span.{
  Span, SpanPull, Held, deref, append_held, append_held-append, next_span, handed, withheld,
  next_span-Spans,
}
use trading_engine_hh.Route.{IngestStats, route_record, tally}
use trading_engine_hh.Source.{ByteSource, IsOrderly}
use trading_engine_hh.DbnReader
use trading_engine_hh.DbnReader.{DbnReader, next}
use trading_engine_hh.DbnReader.Contract.{IsReady, effort, stream_next-Delivers}

pub record SpanReader (S : Type 0) : Type 0 where
  pub source : S
  pub held : Held
  pub scratch : List ℕ
  pub version : ℕ
  pub failed : Bool
  pub stats : IngestStats

abbrev pub forget : {S : Type 0} → SpanReader S → DbnReader S
forget r = record {
  source = r.source;
  assembler = r.held.assembler;
  scratch = r.scratch;
  version = r.version;
  failed = r.failed;
  stats = r.stats;
}

-- What a call leaves.
abbrev pub Called : Type 0 → Type 0
Called S = Run (Option (Option Event × SpanReader S))

module _ {S : Type 0} (bytes : ByteSource S) (grow : ℕ → ℕ → ℕ) where
  abbrev pub emit_or_skip_span :
      SpanReader S → Option Event × IngestStats → (SpanReader S → Called S) → Called S
  emit_or_skip_span r (some e, counted) again = done (some (some e, record r { stats = counted }))
  emit_or_skip_span r (none, counted) again = again (record r { stats = counted })

  -- `route_record(p.record)` reads the bytes of the span.
  abbrev pub route_read : SpanReader S → Option (List ℕ) → (SpanReader S → Called S) → Called S
  route_read r none again = done none
  route_read r (some rec) again = emit_or_skip_span r (tally r.stats (route_record rec)) again

  abbrev pub route_span : SpanReader S → Option Span → (SpanReader S → Called S) → Called S
  route_span r none again = done none
  route_span r (some s) again = route_read r (deref r.held s) again

  abbrev pub refill_held : SpanReader S → ℕ × List ℕ × S → (SpanReader S → Called S) → Called S
  refill_held r (n, scratch, s) again =
      if n == 0
      then done (some (none, record r { source = s; scratch = scratch }))
      else again (record r {
        source = s;
        scratch = scratch;
        held = append_held grow r.held (take n scratch);
      })

  abbrev pub span_round : SpanReader S → SpanPull × Held → (SpanReader S → Called S) → Called S
  span_round r (p, h) again = elim p.status [
    | record_pulled ↦ route_span (record r { held = h }) p.span again
    | need_more ↦ refill_held (record r { held = h }) (bytes.read r.source r.scratch) again
    | corrupt ↦ done (some (none, record r { held = h; failed = true }))
  ]

  unfoldable pub next_reading : ℕ → SpanReader S → Called S
  next_reading zero r = out_of_fuel
  next_reading (suc fuel) r = span_round r (next_span r.held) (λ t. next_reading fuel t)

  -- The call that reads through spans leaves what the call on the bytes leaves.
  abbrev Agrees : Run (Option Event × DbnReader S) → Called S → Type 0
  Agrees out_of_fuel v = v ≡ out_of_fuel
  Agrees (done (e, t)) v = (r : SpanReader S) × (v ≡ done (some (e, r))) × (forget r ≡ t)

  abbrev Keeps : ℕ → Type 0
  Keeps fuel =
      (t : SpanReader S)
      → IsValid t.held.assembler
      → Agrees (next bytes fuel (forget t)) (next_reading fuel t)

  emit_or_skip-Agrees :
      (fuel : ℕ) (r : SpanReader S) (x : Option Event × IngestStats)
      → Keeps fuel
      → IsValid r.held.assembler
      → Agrees
          (DbnReader.emit_or_skip bytes (forget r) x (λ t. next bytes fuel t))
          (emit_or_skip_span r x (λ t. next_reading fuel t))
  emit_or_skip-Agrees fuel r (some e, counted) ih v = (record r { stats = counted }, refl, refl)
  emit_or_skip-Agrees fuel r (none, counted) ih v = ih (record r { stats = counted }) v

  refill-Agrees :
      (fuel : ℕ) (r : SpanReader S) (x : ℕ × List ℕ × S)
      → Keeps fuel
      → IsValid r.held.assembler
      → Agrees
          (DbnReader.refill bytes (forget r) x (λ t. next bytes fuel t))
          (refill_held r x (λ t. next_reading fuel t))
  refill-Agrees fuel r (n, scratch, s) ih v = elim (Bool-cases (n == 0)) [
    | inl at_end ↦ rw at_end (record r { source = s; scratch = scratch }, refl, refl)
    | inr more ↦
        let t = record r {
          source = s;
          scratch = scratch;
          held = append_held grow r.held (take n scratch);
        } in
        let same = append_held-append grow r.held (take n scratch) in
        rw more (
          subst
            (λ (a : RecordAssembler).
              Agrees (next bytes fuel (record (forget t) { assembler = a })) (next_reading fuel t))
            same
            (ih t (
              subst IsValid (sym same)
                (append-Appended r.held.assembler (take n scratch) v).valid)))
  ]

  withheld-Agrees :
      (fuel : ℕ) (r : SpanReader S) (t : PullStatus)
      → Keeps fuel
      → IsValid r.held.assembler
      → ¬ (t ≡ record_pulled)
      → Agrees
          (DbnReader.next_round bytes
            (forget r)
            (record { status = t; bytes = [] }, r.held.assembler)
            (λ t. next bytes fuel t))
          (span_round r (record { status = t; span = none }, r.held) (λ t. next_reading fuel t))
  withheld-Agrees fuel r record_pulled ih v wrong = absurd (wrong refl)
  withheld-Agrees fuel r need_more ih v wrong =
      refill-Agrees fuel r (bytes.read r.source r.scratch) ih v
  withheld-Agrees fuel r corrupt ih v wrong = (record r { failed = true }, refl, refl)

  pub next_reading-Agrees :
      (fuel : ℕ) (r : SpanReader S)
      → IsValid r.held.assembler
      → Agrees (next bytes fuel (forget r)) (next_reading fuel r)
  unfolding next next_reading
  next_reading-Agrees zero r v = refl
  next_reading-Agrees (suc fuel) r v = elim (next_span-Spans r.held v) [
    | handed rec s a byte_level is epoch advanced buf v' read ↦
        rw (byte_level, is, read)
          (emit_or_skip-Agrees fuel (record r { held = record r.held { assembler = a } })
            (tally r.stats (route_record rec)) (next_reading-Agrees fuel) v')
    | withheld t byte_level is wrong ↦
        rw (byte_level, is) (withheld-Agrees fuel r t (next_reading-Agrees fuel) v wrong)
  ]

-- Over every orderly source, whatever capacity the vector takes when it needs more, from a reader
-- in its invariant and with more rounds than its effort, the call of `next()` that reads each
-- record through its span, and is undefined when the references of the span have ended, is never
-- undefined: it ends with the event and the reader of the call that has the bytes of the record,
-- and the invariant holds again.
pub next_reading-next :
    {S : Type 0} (bytes : ByteSource S) (left : S → List ℕ) (orderly : IsOrderly bytes left)
    (grow : ℕ → ℕ → ℕ) (fuel : ℕ) (r : SpanReader S)
    → IsReady bytes left orderly (forget r)
    → effort bytes left orderly (forget r) < fuel
    → (e : Option Event) × (r' : SpanReader S) × (next_reading bytes grow fuel r
        ≡ done (some (e, r')))
      × (next bytes fuel (forget r) ≡ done (e, forget r'))
      × IsReady bytes left orderly (forget r')
next_reading-next bytes left orderly grow fuel r k h =
    let (e, t, runs, delivers, ready, less) =
      stream_next-Delivers bytes left orderly fuel (forget r) k h in
    let (r', reads, same) = rw runs at (next_reading-Agrees bytes grow fuel r k.valid) in
    (e, r', reads, rw same runs, rw same ready)
