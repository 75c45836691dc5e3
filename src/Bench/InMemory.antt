-- ===== src/Bench/InMemory.antt =====
-- bench/bench_dbn.cpp: what a pass of the in-memory mode counts.
use trading_engine_hh.Base.{
  ℕ, zero, suc, ◌+◌, ◌-◌, ◌*◌, ◌%◌, ◌^◌, ◌<◌, ◌≡◌, refl, sym, ap, ◌∙◌, inl, inr, Bool-cases, ltb,
  ltb→lt, ltb→le, min, List, [], ◌∷◌, ◌++◌, append-nil, append_assoc, length, take, drop,
  length-append, length-take, length-drop, take-append-drop, drop-drop, drop_all, Run, done, arith,
}
use mathlib.Core.Path.{subst}
use trading_engine_hh.Frame.{IsPartial, IsCorrupt}
use trading_engine_hh.Frame.Contract.{record_nonempty, IsCorrupt-append}
use trading_engine_hh.Frame.Split.{
  Parts, Splits, ends, breaks, Splits-unique, Splits-record, concat,
}
use trading_engine_hh.Assembler.{RecordAssembler, view, append}
use trading_engine_hh.Assembler.Buffer.{
  IsValid, append-Appended, record_at_front, ran_dry, broken, next-Pulls,
}
use trading_engine_hh.Route.{RouteOutcome, emit, skip_non_mbo, skip_malformed, route_record}
use trading_engine_hh.Bench.{Pass, count_emit, pass_from}

-- How many of the records are emitted.
abbrev pub one_if_emit : RouteOutcome → ℕ
one_if_emit emit = 1
one_if_emit skip_non_mbo = 0
one_if_emit skip_malformed = 0

abbrev pub emitted : List (List ℕ) → ℕ
emitted [] = 0
emitted (r ∷ rs) = one_if_emit (route_record r).outcome + emitted rs

count_emit_lem :
    (o : RouteOutcome) (n : ℕ) → n < 2 ^ 64 → count_emit o n ≡ (n + one_if_emit o) % 2 ^ 64
count_emit_lem emit n h = refl
count_emit_lem skip_non_mbo n h = omega arith
count_emit_lem skip_malformed n h = omega arith

no_records_of_partial : {u : List ℕ} {p : Parts} → IsPartial u → Splits u p → p.records ≡ []
no_records_of_partial h d = ap (λ (p : Parts). p.records) (Splits-unique d (ends h refl))

no_records_of_corrupt : {u : List ℕ} {p : Parts} → IsCorrupt u → Splits u p → p.records ≡ []
no_records_of_corrupt h d = ap (λ (p : Parts). p.records) (Splits-unique d (breaks h refl))

-- What a pass that stands at `p` before bytes with the records `rs` leaves.
pub record Counted (p : Pass) (rs : List (List ℕ)) (o : Run Pass) : Type 0 where
  pub left : Pass
  pub runs : o ≡ done left
  pub events : left.events ≡ (p.events + emitted rs) % 2 ^ 64
  pub record_bytes : left.record_bytes ≡ (p.record_bytes + length (concat rs)) % 2 ^ 64

module _ (chunk : ℕ) (records : List ℕ) (room : 0 < chunk) where
  abbrev ahead : RecordAssembler → Pass → List ℕ
  ahead a p = view a ++ drop p.offset records

  abbrev work : RecordAssembler → Pass → ℕ
  work a p = 2 * (length records - p.offset) + length (view a)

  stop :
      (p : Pass) (rs : List (List ℕ))
      → p.events < 2 ^ 64
      → p.record_bytes < 2 ^ 64
      → rs ≡ []
      → Counted p rs (done p)
  stop p rs h h' e = record {
    left = p;
    runs = refl;
    events = rw e (omega (arith, h));
    record_bytes = rw e (omega (arith, h'));
  }

  -- One record more in front.
  Counted-record :
      (p : Pass) (rec : List ℕ) (rs : List (List ℕ)) (o : Run Pass)
      → p.events < 2 ^ 64
      → Counted
          (record p {
            events = count_emit (route_record rec).outcome p.events;
            record_bytes = (p.record_bytes + length rec) % 2 ^ 64;
          })
          rs
          o
      → Counted p (rec ∷ rs) o
  Counted-record p rec rs o h c = record {
    left = c.left;
    runs = c.runs;
    events = omega (arith, c.events, count_emit_lem (route_record rec).outcome p.events h);
    record_bytes = omega (arith, c.record_bytes, length-append rec (concat rs));
  }

  -- One slice more in the buffer.
  module _ (a : RecordAssembler) (p : Pass) (v : IsValid a) (more : p.offset < length records) where
    abbrev n : ℕ
    n = min chunk (length records - p.offset)

    abbrev slice : List ℕ
    slice = take n (drop p.offset records)

    abbrev fed : RecordAssembler
    fed = append a slice

    ahead-fed : ahead fed (record p { offset = p.offset + n }) ≡ ahead a p
    ahead-fed =
        rw
          (
            (append-Appended a slice v).bytes,
            append_assoc (view a) slice,
            ← drop-drop n p.offset records,
            take-append-drop n (drop p.offset records),
          )
          refl

    less_work : work fed (record p { offset = p.offset + n }) < work a p
    less_work = omega (
      arith,
      more,
      room,
      ap length (append-Appended a slice v).bytes,
      length-append (view a) slice,
      length-take n (drop p.offset records),
      length-drop p.offset records,
    )

  pub pass_from-Counted :
      (fuel : ℕ) (a : RecordAssembler) (p : Pass) {parts : Parts}
      → IsValid a
      → p.events < 2 ^ 64
      → p.record_bytes < 2 ^ 64
      → work a p < fuel
      → Splits (ahead a p) parts
      → Counted p parts.records (pass_from fuel chunk records a p)
  unfolding pass_from
  pass_from-Counted zero a p v he hb h d = absurd (omega arith)
  pass_from-Counted (suc fuel) a p {parts} v he hb h d = elim (next-Pulls a v) [
    | broken e c ↦ rw e (
        stop p parts.records he hb
          (no_records_of_corrupt (IsCorrupt-append _ (drop p.offset records) c) d))
    | ran_dry e partial ↦ elim (Bool-cases (ltb p.offset (length records))) [
      | inl some_left ↦
          let more : p.offset < length records = ltb→lt _ _ some_left in
          let later =
            pass_from-Counted fuel (fed a p v more) (record p { offset = p.offset + n a p v more })
              (append-Appended a (slice a p v more) v).valid he hb
              (omega (arith, less_work a p v more))
              (subst (λ u. Splits u parts) (sym (ahead-fed a p v more)) d) in
          rw (e, some_left)
            (record {
              left = later.left;
              runs = later.runs;
              events = later.events;
              record_bytes = later.record_bytes;
            })
      | inr none_left ↦
          rw (e, none_left)
            (stop p parts.records he hb (
              no_records_of_partial {u = ahead a p}
                (rw (drop_all p.offset records (ltb→le _ _ none_left), append-nil) partial) d))
    ]
    | record_at_front rec a' e r w v' same ↦
        let (q, later, is) =
          Splits-record rec (ahead a' p)
            (ap (λ x. x ++ drop p.offset records) w ∙ append_assoc rec (view a') _) r d in
        rw (e, is)
          (Counted-record p rec q.records _ he (
            pass_from-Counted fuel a' _ v'
              (omega (arith, count_emit_lem (route_record rec).outcome p.events he)) (omega arith)
              (omega (arith, ap length w, length-append rec (view a'), record_nonempty rec r))
              later))
  ]
