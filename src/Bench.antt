-- ===== src/Bench.antt =====
-- bench/bench_dbn.cpp: `record_start` and one pass of the in-memory mode, without the clock.
pub mod InMemory
pub mod Parity
pub mod Actions
pub mod Passes
pub mod Counting
pub mod Main
pub mod Rounds
pub mod Mapped
pub mod Modes
pub mod EmptySlices
pub mod Report
pub mod Measuring
pub mod Compare
pub mod Gate
pub mod Faults
use trading_engine_hh.Base.{
  ℕ, zero, suc, ◌+◌, ◌-◌, ◌%◌, ◌^◌, min, ◌||◌, List, [], length, take, drop, ltb, not,
  if◌then◌else◌, Result, ok, err, Run, done, out_of_fuel, and_then,
}
use trading_engine_hh.Assembler.{
  PullStatus, record_pulled, need_more, corrupt, Pull, RecordAssembler, empty_assembler, append,
  next,
}
use trading_engine_hh.Route.{
  RouteOutcome, emit, skip_non_mbo, skip_malformed, route_record, increment,
}
use trading_engine_hh.Prologue.{DbnError, bad_magic, header_size, wrong_magic, metadata_len}

unfoldable pub record_start : List ℕ → Result DbnError ℕ
record_start f =
    if ltb (length f) header_size || wrong_magic f
    then err bad_magic
    else ok (header_size + metadata_len f)

-- `if (route_record(...).outcome == Emit) ++events`
abbrev pub count_emit : RouteOutcome → ℕ → ℕ
count_emit emit events = increment events
count_emit skip_non_mbo events = events
count_emit skip_malformed events = events

-- The number of events and of bytes framed so far, and the offset of the next slice.
pub record Pass : Type 0 where
  pub events : ℕ
  pub record_bytes : ℕ
  pub offset : ℕ

-- A start past the end of the file is undefined in `subspan`; here it leaves no bytes.
-- The next slice, or the end; `again` is the rest of the loop.
abbrev pub feed :
    ℕ → List ℕ → RecordAssembler → Pass → (RecordAssembler → Pass → Run Pass) → Run Pass
feed chunk records a p again =
    let n = min chunk (length records - p.offset) in
    if not (ltb p.offset (length records))
    then done p
    else again (append a (take n (drop p.offset records))) (record p { offset = p.offset + n })

abbrev pub pass_round :
    ℕ → List ℕ → Pull × RecordAssembler → Pass → (RecordAssembler → Pass → Run Pass) → Run Pass
pass_round chunk records (pull, a) p again = elim pull.status [
  | record_pulled ↦ again a (record p {
    events = count_emit (route_record pull.bytes).outcome p.events;
    record_bytes = (p.record_bytes + length pull.bytes) % 2 ^ 64;
  })
  | corrupt ↦ done p
  | need_more ↦ feed chunk records a p again
]

unfoldable pub pass_from : ℕ → ℕ → List ℕ → RecordAssembler → Pass → Run Pass
pass_from zero chunk records a p = out_of_fuel
pass_from (suc fuel) chunk records a p =
    pass_round chunk records (next a) p (λ b q. pass_from fuel chunk records b q)

-- One pass over the records of a file in memory, which begin at `start`.
abbrev pub one_pass : ℕ → List ℕ → ℕ → Result DbnError ℕ → Run (Result DbnError Pass)
one_pass fuel file chunk (err x) = done (err x)
one_pass fuel file chunk (ok start) =
    and_then
      (pass_from fuel chunk (drop start file) empty_assembler
        (record { events = 0; record_bytes = 0; offset = 0 }))
      (λ p. done (ok p))

unfoldable pub first_pass : ℕ → List ℕ → ℕ → Run (Result DbnError Pass)
unfolding record_start
first_pass fuel file chunk = one_pass fuel file chunk (record_start file)
