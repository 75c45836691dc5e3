-- ===== src/DbnReader/Contract.antt =====
-- dbn_reader.hpp: `DbnReader::next()` against the contract of `Stream`, over orderly sources.
use trading_engine_hh.Base.{ℕ, zero, suc, ◌<◌, refl, true, List, none, arith}
use trading_engine_hh.Frame.Contract.{IsCorrupt-append}
use trading_engine_hh.Assembler.Buffer.{record_at_front, ran_dry, broken, next-Pulls}
use trading_engine_hh.Stream.{at_corrupt}
use trading_engine_hh.Source.{ByteSource, IsOrderly}
use trading_engine_hh.Reader.{EventReader, KeepsContract}
use trading_engine_hh.DbnReader.{DbnReader, next}
pub use trading_engine_hh.DbnReader.Ready.{rest, effort, IsReady}
use trading_engine_hh.DbnReader.Ready.{Owes}
use trading_engine_hh.DbnReader.Rounds.{take_record, take_chunk}

abbrev pub stream_reader : {S : Type 0} → ByteSource S → EventReader (DbnReader S)
stream_reader bytes = record { next = next bytes; stats = λ r. r.stats; failed = λ r. r.failed }

module _ {S : Type 0} (bytes : ByteSource S) (left : S → List ℕ)
    (orderly : IsOrderly bytes left) where
  -- Over every orderly source, from a reader in its invariant and with more rounds than its effort
  -- (twice the bytes in the source and once those in the assembler), `DbnReader::next()` returns;
  -- its answer is the one that `Delivers` owes for the bytes in the assembler and the source, the
  -- invariant holds again, and the effort has not grown.
  pub stream_next-Delivers :
      (fuel : ℕ) (r : DbnReader S)
      → IsReady bytes left orderly r
      → effort bytes left orderly r < fuel
      → Owes bytes left orderly fuel r
  stream_next-Delivers zero r k h = absurd (omega arith)
  stream_next-Delivers (suc fuel) r k h = elim (next-Pulls r.assembler k.valid) [
    | record_at_front rec a p w e v b ↦
        take_record bytes left orderly fuel r k h (stream_next-Delivers fuel) rec a p w e v
    | ran_dry p partial ↦
        take_chunk bytes left orderly fuel r k h (stream_next-Delivers fuel) p partial
    | broken p c ↦ (
      none,
      record r { failed = true },
      unfold next in rw p refl,
      at_corrupt (IsCorrupt-append _ (left r.source) c) refl,
      record {
        valid = k.valid;
        room = k.room;
        truthful = λ set. IsCorrupt-append _ (left r.source) c;
      },
      omega arith,
    )
  ]

  -- The streaming reader keeps the contract of `Stream`.
  abbrev pub stream_contract : KeepsContract (stream_reader bytes) (IsReady bytes left orderly)
  stream_contract = record {
    rest = rest bytes left orderly;
    effort = effort bytes left orderly;
    next_delivers = λ r fuel k h. stream_next-Delivers fuel r k h;
  }
