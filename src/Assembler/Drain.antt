-- ===== src/Assembler/Drain.antt =====
-- fuzz/frame_fuzz_libfuzzer.cpp and tests/cpp/test_frame_fuzz.cpp: draining an assembler.
use trading_engine_hh.Base.{
  ℕ, zero, suc, ◌*◌, ◌<◌, ◌≡◌, refl, ap, Bool, true, false, [], length, length-append,
  if◌then◌else◌, done, arith,
}
use trading_engine_hh.Frame.Contract.{record_nonempty}
use trading_engine_hh.Frame.Split.{Parts, Splits, ends, breaks, splits}
use trading_engine_hh.Assembler.{
  need_more, corrupt, RecordAssembler, Drained, with_record, view, drain,
}
use trading_engine_hh.Assembler.Buffer.{IsValid, record_at_front, ran_dry, broken, next-Pulls}

-- The parts that a drained assembler shows.
abbrev pub parts_of : Drained → Bool → Parts
parts_of d b = record { records = d.records; broken = b; rest = view d.assembler }

-- From a valid assembler, with rounds of which four times the number is more than the number of
-- unconsumed bytes, pulling until no record comes ends: the records pulled and the bytes left are
-- the split of the unconsumed bytes into records, the last status is `corrupt` exactly if a record
-- of no words follows them and `need_more` otherwise, and the assembler is valid.
pub drain-Splits :
    (fuel : ℕ) (a : RecordAssembler)
    → IsValid a
    → length (view a) < 4 * fuel
    → (d : Drained) × (b : Bool) × (drain fuel a ≡ done d)
      × Splits (view a) (parts_of d b)
      × (d.status ≡ (if b then corrupt else need_more))
      × IsValid d.assembler
unfolding drain
drain-Splits zero a v h = absurd (omega arith)
drain-Splits (suc fuel) a v h = elim (next-Pulls a v) [
  | ran_dry p partial ↦ (
    record { records = []; status = need_more; assembler = a },
    false,
    rw p refl,
    ends partial refl,
    refl,
    v,
  )
  | broken p c ↦ (
    record { records = []; status = corrupt; assembler = a },
    true,
    rw p refl,
    breaks c refl,
    refl,
    v,
  )
  | record_at_front rec a' p r e v' same ↦
      let (d, b, runs, parts, status, valid) =
        drain-Splits fuel a' v'
          (omega (arith, ap length e, length-append rec (view a'), record_nonempty rec r)) in
      (
        with_record rec d,
        b,
        rw (p, runs) refl,
        splits rec (view a') (parts_of d b) e r parts refl,
        status,
        valid,
      )
]
