-- ===== src/DbnReader/Filling.antt =====
-- dbn_reader.hpp: `DbnReader::read_fully_` over orderly sources.
use trading_engine_hh.Base.{
  ℕ, zero, suc, ◌+◌, ◌≤◌, ◌<◌, ◌≡◌, refl, sym, ap, ◌∙◌, inl, inr, Bool-cases, List, [], ◌++◌,
  append_assoc, length, take, drop, ltb, ltb→le, ◌==◌, ==_iff, done, length-append, length-take,
  length-drop, take-append_add, arith,
}
use mathlib.Core.Path.{subst}
use trading_engine_hh.Source.{ByteSource, IsOrderly}
use trading_engine_hh.DbnReader.{fill_from, read_fully}

module _ {S : Type 0} (bytes : ByteSource S) (left : S → List ℕ)
    (orderly : IsOrderly bytes left) where
  -- The state of the loop of `read_fully_`: `k` bytes of a buffer of fixed size hold what came before
  -- what is left.
  record Filled (size : ℕ) (before : List ℕ) (k : ℕ) (dst : List ℕ) (s : S) : Type 0 where
    keeps_size : length dst ≡ size
    fits : k ≤ size
    in_order : before ≡ take k dst ++ left s

  module _ (size : ℕ) (before : List ℕ) (k : ℕ) (dst : List ℕ) (s : S)
      (f : Filled size before k dst s) where
    abbrev n : ℕ
    n = (bytes.read s (drop k dst)).0

    abbrev tail : List ℕ
    tail = (bytes.read s (drop k dst)).1

    length-front : length (take k dst) ≡ k
    length-front = omega (arith, length-take k dst, f.keeps_size, f.fits)

    -- One read into the rest of the buffer.
    read_more : Filled size before (k + n) (take k dst ++ tail) (bytes.read s (drop k dst)).2
    read_more = record {
      keeps_size = omega (
        arith,
        length-append (take k dst) tail,
        length-front,
        orderly.keeps_size s (drop k dst),
        length-drop k dst,
        f.keeps_size,
        f.fits,
      );
      fits = omega (arith, orderly.fits s (drop k dst), length-drop k dst, f.keeps_size, f.fits);
      in_order =
          f.in_order
          ∙ ap (λ x. take k dst ++ x) (orderly.in_order s (drop k dst))
          ∙ sym (append_assoc (take k dst) (take n tail) _)
          ∙ ap (λ x. x ++ left (bytes.read s (drop k dst)).2)
              (sym (take-append_add n (take k dst) tail)
                ∙ ap (λ (j : ℕ). take (j + n) (take k dst ++ tail)) length-front);
    }

    ended : k < size → n ≡ 0 → left (bytes.read s (drop k dst)).2 ≡ []
    ended h e =
        sym (rw (e, orderly.none_at_end s (drop k dst) more e) at (orderly.in_order s (drop k dst)))
      where
        more : 0 < length (drop k dst)
        more = omega (arith, length-drop k dst, f.keeps_size)

  -- `read_fully_` stops when the buffer is full or the source is empty.
  fill_from-Filled :
      (fuel size : ℕ) (before : List ℕ) (k : ℕ) (dst : List ℕ) (s : S)
      → Filled size before k dst s
      → size < k + fuel
      → (j : ℕ) × (dst' : List ℕ) × (s' : S) × (fill_from bytes fuel k dst s ≡ done (j, dst', s'))
        × Filled size before j dst' s'
        × (j < size → left s' ≡ [])
  unfolding fill_from
  fill_from-Filled zero size before k dst s f h = absurd (omega (arith, f.fits))
  fill_from-Filled (suc fuel) size before k dst s f h = elim (Bool-cases (ltb k (length dst))) [
    | inr full ↦
        (k, dst, s, rw full refl, f, λ h. absurd (omega (arith, ltb→le _ _ full, f.keeps_size)))
    | inl more ↦ elim (Bool-cases ((bytes.read s (drop k dst)).0 == 0)) [
      | inl stop ↦
          let none_read : n size before k dst s f ≡ 0 = (==_iff _ _).0 stop in
          let same : k + n size before k dst s f ≡ k = omega (arith, none_read) in
          (
            k,
            take k dst ++ tail size before k dst s f,
            (bytes.read s (drop k dst)).2,
            rw (more, stop) refl,
            subst
                (λ j.
                  Filled size before j (take k dst ++ tail size before k dst s f)
                    (bytes.read s (drop k dst)).2)
                same (read_more size before k dst s f),
            λ h. ended size before k dst s f h none_read,
          )
      | inr some_read ↦
          let (j, dst', s', runs, filled, short) =
            fill_from-Filled fuel size before (k + n size before k dst s f)
              (take k dst ++ tail size before k dst s f) (bytes.read s (drop k dst)).2
              (read_more size before k dst s f) (ground arith) in
          (j, dst', s', rw (more, some_read) runs, filled, short)
    ]
  ]

  -- What `read_fully_` leaves: the bytes that it took are the front of what was left, and it stops
  -- short only when the source is empty.
  pub record FullyRead (dst : List ℕ) (s : S) (k : ℕ) (dst' : List ℕ) (s' : S) : Type 0 where
    pub keeps_size : length dst' ≡ length dst
    pub fits : k ≤ length dst
    pub in_order : left s ≡ take k dst' ++ left s'
    pub short : k < length dst → left s' ≡ []

  -- Over every orderly source `read_fully_` returns: the destination keeps its size, the bytes
  -- filled in and the bytes left in the source are those that were left before, in order, and if
  -- it is not full the source is empty.
  pub read_fully-FullyRead :
      (dst : List ℕ) (s : S)
      → (k : ℕ) × (dst' : List ℕ) × (s' : S) × (read_fully bytes dst s ≡ done (k, dst', s'))
        × FullyRead dst s k dst' s'
  unfolding read_fully
  read_fully-FullyRead dst s =
      let (k, dst', s', runs, f, short) =
        fill_from-Filled (suc (length dst)) (length dst) (left s) 0 dst s start (omega arith) in
      (
        k,
        dst',
        s',
        runs,
        record { keeps_size = f.keeps_size; fits = f.fits; in_order = f.in_order; short = short },
      )
    where
      start : Filled (length dst) (left s) 0 dst s
      start = record { keeps_size = refl; fits = omega arith; in_order = refl }
