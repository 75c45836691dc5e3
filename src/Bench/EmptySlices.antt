-- ===== src/Bench/EmptySlices.antt =====
-- bench/bench_dbn.cpp: the in-memory mode with `chunk_bytes` 0.
use trading_engine_hh.Base.{
  ℕ, zero, suc, ◌+◌, ◌-◌, ◌<◌, ◌≡◌, refl, min, List, [], length, lt→ltb, ok, out_of_fuel, arith,
}
use trading_engine_hh.Frame.{frame_one}
use trading_engine_hh.Assembler
use trading_engine_hh.Assembler.{Pull, RecordAssembler, empty_assembler, need_more, append}
use trading_engine_hh.Prologue.{Opens}
use trading_engine_hh.Bench.{Pass, pass_from}
use trading_engine_hh.Bench.Passes.{Clock, bench_in_memory}
use trading_engine_hh.Bench.Parity.{record_start-Opens}

next-empty_assembler :
    Assembler.next empty_assembler ≡ (record { status = need_more; bytes = [] }, empty_assembler)
unfolding Assembler.next frame_one
next-empty_assembler = refl

append-empty_assembler : append empty_assembler [] ≡ empty_assembler
unfolding append
append-empty_assembler = refl

pass_from-out_of_fuel :
    (fuel : ℕ) (records : List ℕ) (p : Pass)
    → p.offset < length records
    → pass_from fuel 0 records empty_assembler p ≡ out_of_fuel
unfolding pass_from
pass_from-out_of_fuel zero records p h = refl
pass_from-out_of_fuel (suc fuel) records p h =
    rw
      (
        next-empty_assembler,
        lt→ltb p.offset (length records) h,
        none_wanted,
        append-empty_assembler,
      )
      (pass_from-out_of_fuel fuel records (record p { offset = p.offset + 0 }) (omega arith))
  where
    none_wanted : min 0 (length records - p.offset) ≡ 0
    none_wanted = omega arith

-- For every file that opens and has bytes after its metadata the in-memory mode with slices of 0
-- bytes, asked for at least one pass, runs out of any number of rounds.
pub bench_in_memory-out_of_fuel :
    {D : Type 0} (clock : Clock D) (fuel passes : ℕ) (f records : List ℕ)
    → Opens f (ok records)
    → 0 < length records
    → bench_in_memory clock fuel f 0 (suc passes) ≡ out_of_fuel
unfolding bench_in_memory
bench_in_memory-out_of_fuel clock fuel passes f records opens h =
    rw
      (
        record_start-Opens f records opens,
        ← opens.3,
        pass_from-out_of_fuel fuel records (record { events = 0; record_bytes = 0; offset = 0 }) h,
      )
      refl
