-- ===== src/DbnReader/Rounds.antt =====
-- dbn_reader.hpp: one round of `DbnReader::next()`.
use trading_engine_hh.Base.{
  ℕ, suc, ◌+◌, ◌<◌, ◌≡◌, refl, sym, ap, inl, inr, false, Bool-cases, List, [], ◌++◌, append-nil,
  append_assoc, length, take, ◌==◌, ==_iff, none, some, length-append, length-take, arith,
}
use mathlib.Core.Path.{subst}
use trading_engine_hh.Frame.{IsRecord, IsPartial}
use trading_engine_hh.Frame.Contract.{record_nonempty}
use trading_engine_hh.Assembler
use trading_engine_hh.Assembler.{RecordAssembler, view, append}
use trading_engine_hh.Assembler.Buffer.{IsValid, append-Appended}
use trading_engine_hh.Route.{IngestStats, route_record, tally}
use trading_engine_hh.Stream.{Delivers, at_end, hand_on, pass_over}
use trading_engine_hh.Stream.Failure.{not_failed_of_record, not_failed_of_partial, Tallied-cases}
use trading_engine_hh.Source.{ByteSource, IsOrderly}
use trading_engine_hh.DbnReader.{DbnReader, next}
use trading_engine_hh.DbnReader.Ready.{rest, effort, IsReady, answer, Owes}

module _ {S : Type 0} (bytes : ByteSource S) (left : S → List ℕ)
    (orderly : IsOrderly bytes left) where
  -- A record at the front of the assembler.
  module _ (fuel : ℕ) (r : DbnReader S) (k : IsReady bytes left orderly r)
      (h : effort bytes left orderly r < suc fuel)
      (ih : (t : DbnReader S)
        → IsReady bytes left orderly t
        → effort bytes left orderly t < fuel
        → Owes bytes left orderly fuel t)
      (rec : List ℕ) (a : RecordAssembler)
      (p : Assembler.next r.assembler
        ≡ (record { status = Assembler.record_pulled; bytes = rec }, a))
      (w : IsRecord rec) (e : view r.assembler ≡ rec ++ view a) (v : IsValid a) where
    abbrev past : IngestStats → DbnReader S
    past c = record r { assembler = a; stats = c }

    split : (c : IngestStats) → rest bytes left orderly r ≡ rec ++ rest bytes left orderly (past c)
    split c = rw e (append_assoc rec (view a) (left r.source))

    clear : r.failed ≡ false
    clear = not_failed_of_record rec _ k.truthful (split r.stats) w

    past-IsReady : (c : IngestStats) → IsReady bytes left orderly (past c)
    past-IsReady c = record { valid = v; room = k.room; truthful = λ set. cc (set, clear) }

    shorter : (c : IngestStats) → effort bytes left orderly (past c) < effort bytes left orderly r
    shorter c = omega (arith, ap length e, length-append rec (view a), record_nonempty rec w)

    pub take_record : Owes bytes left orderly (suc fuel) r
    take_record = elim (Tallied-cases (tally r.stats (route_record rec))) [
      | inr (x, c, t) ↦ (
        some x,
        past c,
        unfold next in rw (p, t) refl,
        hand_on rec (rest bytes left orderly (past c)) x c (split c) w t λ i. record {
          event = some x;
          rest = rest bytes left orderly (past c);
          stats = c;
          failed = clear i;
        },
        past-IsReady c,
        omega (arith, shorter c),
      )
      | inl (c, t) ↦
          let (x, r', runs, owed, ready, less) =
            ih (past c) (past-IsReady c) (omega (arith, shorter c)) in
          (
            x,
            r',
            unfold next in rw (p, t) runs,
            pass_over rec (rest bytes left orderly (past c)) c (split c) w t owed,
            ready,
            omega (arith, shorter c),
          )
    ]

  -- The assembler has no whole record.
  module _ (fuel : ℕ) (r : DbnReader S) (k : IsReady bytes left orderly r)
      (h : effort bytes left orderly r < suc fuel)
      (ih : (t : DbnReader S)
        → IsReady bytes left orderly t
        → effort bytes left orderly t < fuel
        → Owes bytes left orderly fuel t)
      (p : Assembler.next r.assembler
        ≡ (record { status = Assembler.need_more; bytes = [] }, r.assembler))
      (partial : IsPartial (view r.assembler)) where
    n : ℕ
    n = (bytes.read r.source r.scratch).0

    chunk : List ℕ
    chunk = take (bytes.read r.source r.scratch).0 (bytes.read r.source r.scratch).1

    abbrev read : DbnReader S
    read = record r {
      source = (bytes.read r.source r.scratch).2;
      scratch = (bytes.read r.source r.scratch).1;
    }

    abbrev refilled : DbnReader S
    refilled = record read { assembler = append r.assembler chunk }

    length-chunk : length chunk ≡ n
    unfolding chunk n
    length-chunk = omega (
      arith,
      length-take (bytes.read r.source r.scratch).0 (bytes.read r.source r.scratch).1,
      orderly.keeps_size r.source r.scratch,
      orderly.fits r.source r.scratch,
    )

    rest-refilled : rest bytes left orderly refilled ≡ rest bytes left orderly r
    unfolding chunk
    rest-refilled =
        rw
          (
            (append-Appended r.assembler chunk k.valid).bytes,
            append_assoc,
            ← orderly.in_order r.source r.scratch,
          )
          refl

    refilled-IsReady : IsReady bytes left orderly refilled
    refilled-IsReady = record {
      valid = (append-Appended r.assembler chunk k.valid).valid;
      room = omega (arith, k.room, orderly.keeps_size r.source r.scratch);
      truthful = λ set. rw rest-refilled (k.truthful set);
    }

    effort-refilled : effort bytes left orderly refilled + n ≡ effort bytes left orderly r
    unfolding chunk n
    effort-refilled = omega (
      arith,
      length-chunk,
      ap length (append-Appended r.assembler chunk k.valid).bytes,
      length-append (view r.assembler) chunk,
      ap length (orderly.in_order r.source r.scratch),
      length-append chunk (left (bytes.read r.source r.scratch).2),
    )

    module _ (ended : (bytes.read r.source r.scratch).0 ≡ 0) where
      source_empty : left r.source ≡ []
      source_empty = orderly.none_at_end r.source r.scratch k.room ended

      rest-read : rest bytes left orderly read ≡ rest bytes left orderly r
      rest-read =
          sym (rw ended at (ap (λ x. view r.assembler ++ x) (orderly.in_order r.source r.scratch)))

      rest-IsPartial : IsPartial (rest bytes left orderly r)
      rest-IsPartial = rw (source_empty, append-nil) partial

      end_stream : Owes bytes left orderly (suc fuel) r
      end_stream = (
        none,
        read,
        unfold next in rw (p, (==_iff _ _).1 ended) refl,
        at_end rest-IsPartial λ i. record {
          event = none;
          rest = rest-read i;
          stats = r.stats;
          failed = not_failed_of_partial (rest bytes left orderly r) k.truthful rest-IsPartial i;
        },
        record {
          valid = k.valid;
          room = omega (arith, k.room, orderly.keeps_size r.source r.scratch);
          truthful = λ set. rw rest-read (k.truthful set);
        },
        omega (
          arith,
          ap length rest-read,
          length-append (view r.assembler) (left r.source),
          length-append (view r.assembler) (left (bytes.read r.source r.scratch).2),
        ),
      )

    pub take_chunk : Owes bytes left orderly (suc fuel) r
    unfolding chunk n
    take_chunk = elim (Bool-cases ((bytes.read r.source r.scratch).0 == 0)) [
      | inl none_read ↦ end_stream ((==_iff _ _).0 none_read)
      | inr some_read ↦
          let (x, r', runs, owed, ready, less) =
            ih refilled refilled-IsReady (ground (arith, effort-refilled)) in
          (
            x,
            r',
            unfold next in rw (p, some_read) runs,
            subst (λ u. Delivers u r.stats (answer bytes left orderly x r')) rest-refilled owed,
            ready,
            omega (arith, effort-refilled),
          )
    ]
