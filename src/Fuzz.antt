-- ===== src/Fuzz.antt =====
-- fuzz/frame_fuzz_libfuzzer.cpp: `LLVMFuzzerTestOneInput`, with what it routes as its result.
use trading_engine_hh.Base.{
  ℕ, suc, ◌≡◌, refl, ap, List, [], ◌∷◌, length, Run, done, and_then, arith,
}
use trading_engine_hh.Frame.Split.{Parts, Splits}
use trading_engine_hh.Assembler.{empty_assembler, append, drain}
use trading_engine_hh.Assembler.Buffer.{append-Appended}
use trading_engine_hh.Assembler.Drain.{parts_of, drain-Splits}
use trading_engine_hh.Route.{Routed, route_record}

-- What `route_record` answers for each record, in order.
abbrev pub routed_records : List (List ℕ) → List Routed
routed_records [] = []
routed_records (r ∷ rs) = route_record r ∷ routed_records rs

unfoldable pub test_one_input : ℕ → List ℕ → Run (List Routed)
test_one_input fuel input =
    and_then (drain fuel (append empty_assembler input)) (λ d. done (routed_records d.records))

-- On every input, with one round more than bytes, the fuzz target ends, having routed, in order,
-- exactly the records that the input splits into.
pub test_one_input-Splits :
    (input : List ℕ)
    → (p : Parts) × (test_one_input (suc (length input)) input ≡ done (routed_records p.records))
      × Splits input p
unfolding test_one_input
test_one_input-Splits input =
    let filled = append-Appended empty_assembler input (omega arith) in
    let (d, b, runs, parts, status, valid) =
      drain-Splits (suc (length input)) (append empty_assembler input) filled.valid
        (omega (arith, ap length filled.bytes)) in
    (parts_of d b, rw runs refl, rw filled.bytes at parts)
