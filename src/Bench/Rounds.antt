-- ===== src/Bench/Rounds.antt =====
-- bench/bench_dbn.cpp: the loops over the passes.
use trading_engine_hh.Base.{
  ℕ, zero, suc, ◌+◌, ◌≡◌, refl, ap, ◌∙◌, List, [], ◌∷◌, ◌++◌, length, length-append, ok, err, Run,
  done, and_then, arith,
}
use trading_engine_hh.Assembler.{empty_assembler}
use trading_engine_hh.MmapDbnReader.Owned.{OpenError}
use trading_engine_hh.Bench.Actions.{Action, Does, throw-Does, chain-Does, pure-Does}
use trading_engine_hh.Bench.{Pass, pass_from}
use trading_engine_hh.Bench.Passes.{Stats, Clock, passes_from, slices_from}

-- What a mode leaves after `k` passes of `n` events each.
pub record Measured {D : Type 0} (n k : ℕ) (s : Stats D) : Type 0 where
  pub events : s.events ≡ n
  pub passes : length s.pass_ns_per_event ≡ k

module _ {D : Type 0} (clock : Clock D) where
  -- The statistics after one more pass of modes A and C.
  abbrev pub with_pass : ℕ → ℕ → Stats D → Stats D
  with_pass n p s = record s {
    events = n;
    pass_ns_per_event = s.pass_ns_per_event ++ (clock p n ∷ []);
  }

  module _ {W : Type 0} (safe : W → W → Type 0) (here : (w : W) → safe w w)
      (there : (u v w : W) → safe u v → safe v w → safe u w) where
    pub passes_from-throws :
        (one : Action W ℕ) (x : OpenError) (k p : ℕ) (s : Stats D)
        → Does safe one (err x)
        → Does safe (passes_from clock one (suc k) p s) (err x)
    unfolding passes_from
    passes_from-throws one x k p s does =
        throw-Does safe one (λ n. passes_from clock one k (suc p) (with_pass n p s)) x does

    pub passes_from-Does :
        (one : Action W ℕ) (n k p j : ℕ) (s : Stats D)
        → Does safe one (ok n)
        → length s.pass_ns_per_event ≡ j
        → (s' : Stats D) × Does safe (passes_from clock one (suc k) p s) (ok s')
          × Measured n (j + suc k) s'
    unfolding passes_from
    passes_from-Does one n zero p j s does h = (
      with_pass n p s,
      chain-Does safe there one (λ m. passes_from clock one zero (suc p) (with_pass m p s)) n
          (ok (with_pass n p s)) does (pure-Does safe here (with_pass n p s)),
      record {
        events = refl;
        passes = omega (arith, length-append s.pass_ns_per_event (clock p n ∷ []), h);
      },
    )
    passes_from-Does one n (suc k) p j s does h =
        let (s', later, m) =
          passes_from-Does one n k (suc p) (suc j) (with_pass n p s) does
            (omega (arith, length-append s.pass_ns_per_event (clock p n ∷ []), h)) in
        (
          s',
          chain-Does safe there one (λ m. passes_from clock one (suc k) (suc p) (with_pass m p s)) n
              (ok s') does later,
          record { events = m.events; passes = omega (arith, m.passes) },
        )

  -- What the mode holds after one more pass.
  abbrev after_slices : Pass → ℕ → Stats D → Stats D
  after_slices q p s = record {
    events = q.events;
    record_bytes = q.record_bytes;
    pass_ns_per_event = s.pass_ns_per_event ++ (clock p q.events ∷ []);
  }

  slices_step :
      (fuel chunk : ℕ) (records : List ℕ) (q : Pass) (n p : ℕ) (s : Stats D)
      → pass_from fuel chunk records empty_assembler
          (record { events = 0; record_bytes = 0; offset = 0 })
        ≡ done q
      → slices_from clock fuel chunk records (suc n) p s
        ≡ slices_from clock fuel chunk records n (suc p) (after_slices q p s)
  unfolding slices_from
  slices_step fuel chunk records q n p s e =
      ap
        (λ (t : Run Pass).
          and_then t (λ q. slices_from clock fuel chunk records n (suc p) (after_slices q p s)))
        e

  slices_end :
      (fuel chunk : ℕ) (records : List ℕ) (p : ℕ) (s : Stats D)
      → slices_from clock fuel chunk records zero p s ≡ done (ok s)
  unfolding slices_from
  slices_end fuel chunk records p s = refl

  pub slices_from-Measured :
      (fuel chunk : ℕ) (records : List ℕ) (q : Pass) (k p j : ℕ) (s : Stats D)
      → pass_from fuel chunk records empty_assembler
          (record { events = 0; record_bytes = 0; offset = 0 })
        ≡ done q
      → length s.pass_ns_per_event ≡ j
      → (s' : Stats D) × (slices_from clock fuel chunk records (suc k) p s ≡ done (ok s'))
        × Measured q.events (j + suc k) s'
  slices_from-Measured fuel chunk records q zero p j s e h = (
    after_slices q p s,
    slices_step fuel chunk records q zero p s e
        ∙ slices_end fuel chunk records (suc p) (after_slices q p s),
    record {
      events = refl;
      passes = omega (arith, length-append s.pass_ns_per_event (clock p q.events ∷ []), h);
    },
  )
  slices_from-Measured fuel chunk records q (suc k) p j s e h =
      let (s', runs, m) =
        slices_from-Measured fuel chunk records q k (suc p) (suc j) (after_slices q p s) e
          (omega (arith, length-append s.pass_ns_per_event (clock p q.events ∷ []), h)) in
      (
        s',
        slices_step fuel chunk records q (suc k) p s e ∙ runs,
        record { events = m.events; passes = omega (arith, m.passes) },
      )
