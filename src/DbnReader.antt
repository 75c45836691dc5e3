-- ===== src/DbnReader.antt =====
-- core/include/trading_sim/dbn_reader.hpp: `DbnReader`, which drives a byte source, a
-- `RecordAssembler` and a scratch buffer.
pub mod Filling
pub mod Skipping
pub mod Opening
pub mod EmptyScratch
pub mod Ready
pub mod Rounds
pub mod Contract
pub mod Sticky
pub mod Memory
pub mod Spans
use trading_engine_hh.Base.{
  ℕ, zero, suc, ◌+◌, ◌-◌, ◌*◌, min, Bool, true, false, not, List, [], ◌++◌, length, take, drop,
  replicate, get_or, ltb, ◌==◌, if◌then◌else◌, Option, none, some, Result, ok, err, Run, done,
  out_of_fuel, and_then,
}
use trading_engine_hh.Event.{Event}
use trading_engine_hh.Assembler.{
  PullStatus, record_pulled, need_more, corrupt, Pull, RecordAssembler, empty_assembler, append,
}
use trading_engine_hh.Assembler
use trading_engine_hh.Route.{IngestStats, zero_stats, route_record, tally, k_supported_dbn_version}
use trading_engine_hh.Prologue.{
  DbnError, truncated_header, bad_magic, unsupported_version, truncated_metadata, header_size,
  wrong_magic, metadata_len,
}
use trading_engine_hh.Source.{ByteSource}

pub record DbnReader (S : Type 0) : Type 0 where
  pub source : S
  pub assembler : RecordAssembler
  pub scratch : List ℕ
  pub version : ℕ
  pub failed : Bool
  pub stats : IngestStats

module _ {S : Type 0} (bytes : ByteSource S) where
  -- The loop of `read_fully_`, with `total` bytes of `dst` filled. Each round that goes on fills one
  -- more at least.
  fill_from : ℕ → ℕ → List ℕ → S → Run (ℕ × List ℕ × S)
  fill_from zero total dst s = out_of_fuel
  fill_from (suc fuel) total dst s =
      let (n, tail, s') = bytes.read s (drop total dst) in
      let filled = take total dst ++ tail in
      let again = fill_from fuel (total + n) filled s' in
      if ltb total (length dst)
      then (if n == 0 then done (total, filled, s') else again)
      else done (total, dst, s)

  unfoldable pub read_fully : List ℕ → S → Run (ℕ × List ℕ × S)
  unfolding fill_from
  read_fully dst s = fill_from (suc (length dst)) 0 dst s

  -- The loop over the metadata in `skip_prologue_`; the scratch buffer is read into and not looked
  -- at. A round with an empty scratch buffer changes nothing, so this loop takes fuel.
  abbrev pub after_read :
      List ℕ
      → ℕ
      → ℕ
      → ℕ × List ℕ × S
      → (ℕ → List ℕ → S → Run (Result DbnError (List ℕ × S)))
      → Run (Result DbnError (List ℕ × S))
  after_read scratch remaining want (got, front, s) again =
      if got == want
      then again (remaining - got) (front ++ drop want scratch) s
      else done (err truncated_metadata)

  unfoldable pub skip_metadata : ℕ → ℕ → List ℕ → S → Run (Result DbnError (List ℕ × S))
  skip_metadata zero remaining scratch s = out_of_fuel
  skip_metadata (suc fuel) remaining scratch s =
      let want = min remaining (length scratch) in
      let round = and_then (read_fully (take want scratch) s) (λ filled.
        after_read scratch remaining want filled (λ left b t. skip_metadata fuel left b t)) in
      if ltb 0 remaining then round else done (ok (scratch, s))

  -- What is left of `skip_prologue_` once the header is accepted and the metadata skipped.
  abbrev pub entered :
      DbnReader S → ℕ → Result DbnError (List ℕ × S) → Result DbnError (DbnReader S)
  entered r version (ok (scratch, s)) =
      ok (record r { source = s; scratch = scratch; version = version })
  entered r version (err x) = err x

  -- The checks of the header, in their order; the header is in `header`, as far as `n` bytes.
  abbrev pub check_header : ℕ → DbnReader S → ℕ × List ℕ × S → Run (Result DbnError (DbnReader S))
  check_header fuel r (n, header, s) =
      if not (n == header_size)
      then done (err truncated_header)
      else if wrong_magic header
      then done (err bad_magic)
      else if not (get_or header 3 0 == k_supported_dbn_version)
      then done (err (unsupported_version (get_or header 3 0)))
      else and_then (skip_metadata fuel (metadata_len header) r.scratch s)
          (λ skipped. done (entered r (get_or header 3 0) skipped))

  unfoldable pub skip_prologue : ℕ → DbnReader S → Run (Result DbnError (DbnReader S))
  skip_prologue fuel r =
      and_then (read_fully (replicate header_size 0) r.source)
        (λ filled. check_header fuel r filled)

  -- The constructor, over a source that is open. `fuel` bounds the rounds over the metadata.
  unfoldable pub open_reader : ℕ → S → ℕ → Run (Result DbnError (DbnReader S))
  unfolding skip_prologue
  open_reader fuel s chunk_size = skip_prologue fuel (record {
    source = s;
    assembler = empty_assembler;
    scratch = replicate chunk_size 0;
    version = 0;
    failed = false;
    stats = zero_stats;
  })

  -- `return *e` for an event; for a skipped record `continue`, which `again` stands for.
  abbrev pub emit_or_skip :
      DbnReader S
      → Option Event × IngestStats
      → (DbnReader S → Run (Option Event × DbnReader S))
      → Run (Option Event × DbnReader S)
  emit_or_skip r (some e, counted) again = done (some e, record r { stats = counted })
  emit_or_skip r (none, counted) again = again (record r { stats = counted })

  -- The assembler ran dry: refill it, or end the stream.
  abbrev pub refill :
      DbnReader S
      → ℕ × List ℕ × S
      → (DbnReader S → Run (Option Event × DbnReader S))
      → Run (Option Event × DbnReader S)
  refill r (n, scratch, s) again =
      if n == 0
      then done (none, record r { source = s; scratch = scratch })
      else again (record r {
        source = s;
        scratch = scratch;
        assembler = append r.assembler (take n scratch);
      })

  -- One case for each `PullStatus`.
  abbrev pub next_round :
      DbnReader S
      → Pull × RecordAssembler
      → (DbnReader S → Run (Option Event × DbnReader S))
      → Run (Option Event × DbnReader S)
  next_round r (p, a) again = elim p.status [
    | record_pulled ↦
        emit_or_skip (record r { assembler = a }) (tally r.stats (route_record p.bytes)) again
    | need_more ↦ refill (record r { assembler = a }) (bytes.read r.source r.scratch) again
    | corrupt ↦ done (none, record r { assembler = a; failed = true })
  ]

  unfoldable pub next : ℕ → DbnReader S → Run (Option Event × DbnReader S)
  next zero r = out_of_fuel
  next (suc fuel) r = next_round r (Assembler.next r.assembler) (λ t. next fuel t)

-- The default of the constructor's second argument.
abbrev pub default_chunk_size : ℕ
default_chunk_size = 64 * 1024
