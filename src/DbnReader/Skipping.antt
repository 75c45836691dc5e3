-- ===== src/DbnReader/Skipping.antt =====
-- dbn_reader.hpp: the loop of `DbnReader::skip_prologue_` over the metadata.
use trading_engine_hh.Base.{
  ℕ, zero, suc, ◌+◌, ◌-◌, ◌≤◌, ◌<◌, ◌≡◌, refl, sym, ap, ◌∙◌, inl, inr, Bool-cases, List, ◌++◌,
  length, take, drop, lt→ltb, ◌==◌, ==_iff, Result, ok, err, done, length-append, length-take,
  length-drop, drop-append_add, min, arith,
}
use trading_engine_hh.Prologue.{DbnError, truncated_metadata}
use trading_engine_hh.Source.{ByteSource, IsOrderly}
use trading_engine_hh.DbnReader.{read_fully, skip_metadata}
use trading_engine_hh.DbnReader.Filling.{FullyRead, read_fully-FullyRead}

module _ {S : Type 0} (bytes : ByteSource S) (left : S → List ℕ)
    (orderly : IsOrderly bytes left) where
  -- What skipping `remaining` bytes owes: the source past them, or the complaint that there are not
  -- so many. The scratch buffer keeps its size.
  pub data Skips (remaining : ℕ) (scratch : List ℕ) (s : S) (r : Result DbnError (List ℕ × S))
      : Type 0 where
    skipped :
        (scratch' : List ℕ) (s' : S)
        → r ≡ ok (scratch', s')
        → length scratch' ≡ length scratch
        → remaining ≤ length (left s)
        → left s' ≡ drop remaining (left s)
        → Skips remaining scratch s r
    cut : r ≡ err truncated_metadata → length (left s) < remaining → Skips remaining scratch s r

  -- One round that took all it wanted.
  Skips-more :
      (remaining want : ℕ) (scratch scratch' : List ℕ) (s s' : S) (front : List ℕ)
      {r : Result DbnError (List ℕ × S)}
      → want ≤ remaining
      → left s ≡ front ++ left s'
      → length front ≡ want
      → length scratch' ≡ length scratch
      → Skips (remaining - want) scratch' s' r
      → Skips remaining scratch s r
  Skips-more remaining want scratch scratch' s s' front h e l z (skipped b t q y fits at_) =
      skipped b t q (y ∙ z) (omega (arith, ap length e, length-append front (left s')))
        (at_ ∙ sym past)
    where
      whole : length front + (remaining - want) ≡ remaining
      whole = omega arith

      past : drop remaining (left s) ≡ drop (remaining - want) (left s')
      past = rw e (
          ap (λ (k : ℕ). drop k (front ++ left s')) (sym whole)
          ∙ drop-append_add (remaining - want) front (left s'))
  Skips-more remaining want scratch scratch' s s' front h e l z (cut q short) =
      cut q (omega (arith, ap length e, length-append front (left s')))

  -- Over every orderly source, with a scratch buffer that is not empty and more rounds than bytes
  -- to skip, the loop over the metadata ends: the source stands past exactly those bytes and the
  -- scratch buffer keeps its size, or the source held fewer bytes and the error is
  -- `truncated_metadata`.
  pub skip_metadata-Skips :
      (fuel remaining : ℕ) (scratch : List ℕ) (s : S)
      → 0 < length scratch
      → remaining < fuel
      → (r : Result DbnError (List ℕ × S)) × (skip_metadata bytes fuel remaining scratch s ≡ done r)
        × Skips remaining scratch s r
  unfolding skip_metadata
  skip_metadata-Skips zero remaining scratch s room h = absurd (omega arith)
  skip_metadata-Skips (suc fuel) zero scratch s room h =
      (ok (scratch, s), refl, skipped scratch s refl refl (omega arith) refl)
  skip_metadata-Skips (suc fuel) (suc m) scratch s room h = elim (Bool-cases (k == want)) [
    | inl all ↦
        let full : k ≡ want = (==_iff _ _).0 all in
        let (r, rest_runs, skips) =
          skip_metadata-Skips fuel (suc m - k) (front ++ drop want scratch) s'
            (omega (
              arith,
              length-append front (drop want scratch),
              length-drop want scratch,
              f.keeps_size,
              length-want,
            ))
            (omega (arith, full)) in
        (
          r,
          rw (lt→ltb 0 (suc m) (omega arith), runs, all) rest_runs,
          Skips-more (suc m) k scratch (front ++ drop want scratch) s s' (take k front)
              (omega (arith, full)) f.in_order
              (omega (arith, length-take k front, f.keeps_size, length-want, full))
              (omega (
                arith,
                length-append front (drop want scratch),
                length-drop want scratch,
                f.keeps_size,
                length-want,
              ))
              skips,
        )
    | inr not_all ↦
        let less : k < want = ground (arith, f.fits, length-want) in
        (
          err truncated_metadata,
          rw (lt→ltb 0 (suc m) (omega arith), runs, not_all) refl,
          cut refl (
              omega (
                arith,
                less,
                ap length f.in_order,
                length-append (take k front) (left s'),
                length-take k front,
                ap length (f.short (omega (arith, less, length-want))),
              )),
        )
  ]
    where
      want : ℕ
      want = min (suc m) (length scratch)

      filled :
          (k : ℕ) × (dst' : List ℕ) × (s' : S) × (read_fully bytes (take want scratch) s
            ≡ done (k, dst', s'))
          × FullyRead bytes left orderly (take want scratch) s k dst' s'
      filled = read_fully-FullyRead bytes left orderly (take want scratch) s

      k : ℕ
      k = filled.0

      front : List ℕ
      front = filled.1

      s' : S
      s' = filled.2

      runs : read_fully bytes (take want scratch) s ≡ done (k, front, s')
      runs = filled.3

      f : FullyRead bytes left orderly (take want scratch) s k front s'
      f = filled.4

      length-want : length (take want scratch) ≡ want
      length-want = omega (arith, length-take want scratch)
