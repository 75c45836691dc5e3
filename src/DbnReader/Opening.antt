-- ===== src/DbnReader/Opening.antt =====
-- dbn_reader.hpp: the constructor of `DbnReader` over orderly sources.
use trading_engine_hh.Base.{
  ℕ, ◌+◌, ◌≤◌, ◌<◌, ◌≡◌, refl, sym, ap, ◌∙◌, inl, inr, false, Bool-cases, List, ◌++◌, length, take,
  drop, replicate, get_or, ◌==◌, ==_iff, Result, ok, err, done, length-append, length-take,
  length-drop, length-replicate, take_all, drop-append_add, take-append_le, drop-append_le,
  get_or-append, arith,
}
use trading_engine_hh.Assembler.{empty_assembler}
use trading_engine_hh.Route.{zero_stats, k_supported_dbn_version}
use trading_engine_hh.Prologue.{
  DbnError, truncated_header, bad_magic, unsupported_version, Opens, IsMagic, metadata_len,
  IsMagic-cases,
}
use trading_engine_hh.Source.{ByteSource, IsOrderly}
use trading_engine_hh.DbnReader.{DbnReader, read_fully, check_header, entered, open_reader}
use trading_engine_hh.DbnReader.Skipping.{Skips, skipped, cut, skip_metadata-Skips}
use trading_engine_hh.DbnReader.Filling.{FullyRead, read_fully-FullyRead}
use trading_engine_hh.DbnReader.Contract.{rest, IsReady}

module _ {S : Type 0} (bytes : ByteSource S) (left : S → List ℕ)
    (orderly : IsOrderly bytes left) where
  -- What a reader that has just been opened over the contents `f` has to be.
  pub record IsFresh (chunk_size : ℕ) (f : List ℕ) (r : DbnReader S) : Type 0 where
    pub records : Opens f (ok (rest bytes left orderly r))
    pub ready : IsReady bytes left orderly r
    pub version : r.version ≡ k_supported_dbn_version
    pub failed : r.failed ≡ false
    pub stats : r.stats ≡ zero_stats
    pub assembler : r.assembler ≡ empty_assembler
    pub scratch : length r.scratch ≡ chunk_size

  abbrev pub OpensReader : ℕ → List ℕ → Result DbnError (DbnReader S) → Type 0
  OpensReader n f (ok r) = IsFresh n f r
  OpensReader n f (err x) = Opens f (err x)

  -- The header read from the front of `f`.
  module _ (f header : List ℕ) (s : S) (size : length header ≡ 8)
      (front : f ≡ header ++ left s) where
    pub agree : (i : ℕ) → i < 8 → get_or f i 0 ≡ get_or header i 0
    agree i h = rw front (get_or-append i header (left s) 0 (omega (arith, size)))

    magic : IsMagic header → IsMagic f
    magic m =
        (agree 0 (omega arith) ∙ m.0, agree 1 (omega arith) ∙ m.1, agree 2 (omega arith) ∙ m.2)

    pub IsMagic-back : IsMagic f → IsMagic header
    IsMagic-back m = (
      sym (agree 0 (omega arith)) ∙ m.0,
      sym (agree 1 (omega arith)) ∙ m.1,
      sym (agree 2 (omega arith)) ∙ m.2,
    )

    pub same_len : metadata_len f ≡ metadata_len header
    same_len =
        rw
          (
            front,
            drop-append_le 4 header (left s) (omega (arith, size)),
            take-append_le 4 (drop 4 header) (left s) (omega (arith, size, length-drop 4 header)),
          )
          refl

    long : 8 ≤ length f
    long = omega (arith, ap length front, length-append header (left s), size)

    past_header : (n : ℕ) → drop (8 + n) f ≡ drop n (left s)
    past_header n = rw front (rw size at (drop-append_add n header (left s)))

    entered-OpensReader :
        (r : DbnReader S) (n : ℕ)
        → length r.scratch ≡ n
        → 0 < n
        → r.assembler ≡ empty_assembler
        → r.failed ≡ false
        → r.stats ≡ zero_stats
        → IsMagic header
        → get_or header 3 0 ≡ k_supported_dbn_version
        → (res : Result DbnError (List ℕ × S))
        → Skips bytes left orderly (metadata_len header) r.scratch s res
        → OpensReader n f (entered bytes r (get_or header 3 0) res)
    entered-OpensReader r n sized room a b c m one res (cut q short) = rw q (
      (long, magic m),
      agree 3 (omega arith) ∙ one,
      omega (arith, ap length front, length-append header (left s), size, same_len, short),
    )
    entered-OpensReader r n sized room a b c m one res (skipped scratch' s' q y fits at_) =
        rw q (record {
          records = (
            (long, magic m),
            agree 3 (omega arith) ∙ one,
            omega (arith, ap length front, length-append header (left s), size, same_len, fits),
            rw a (at_ ∙ ap (λ (n : ℕ). drop n (left s)) (sym same_len) ∙ sym (past_header _)),
          );
          ready = record {
            valid = rw a (omega arith);
            room = omega (arith, y, sized, room);
            truthful = λ set. cc (set, b);
          };
          version = one;
          failed = b;
          stats = c;
          assembler = a;
          scratch = y ∙ sized;
        })

    -- Every outcome of the checks of a header that is whole.
    check_header-OpensReader :
        (fuel : ℕ) (r : DbnReader S) (n : ℕ)
        → length r.scratch ≡ n
        → 0 < n
        → r.assembler ≡ empty_assembler
        → r.failed ≡ false
        → r.stats ≡ zero_stats
        → metadata_len f < fuel
        → (o : Result DbnError (DbnReader S)) × (check_header bytes fuel r (8, header, s) ≡ done o)
          × OpensReader n f o
    check_header-OpensReader fuel r n sized room a b c enough = elim (IsMagic-cases header) [
      | inr (wrong, t) ↦ (err bad_magic, rw t refl, (long, λ m. wrong (IsMagic-back m)))
      | inl (m, t) ↦ elim (Bool-cases (get_or header 3 0 == k_supported_dbn_version)) [
        | inr other ↦ (
          err (unsupported_version (get_or header 3 0)),
          rw (t, other) refl,
          ((long, magic m), agree 3 (omega arith), λ e. cc (other, (==_iff _ _).1 e)),
        )
        | inl one ↦
            let (res, runs, skips) =
              skip_metadata-Skips bytes left orderly fuel (metadata_len header) r.scratch s
                (omega (arith, sized, room)) (omega (arith, same_len)) in
            (
              entered bytes r (get_or header 3 0) res,
              rw (t, one, runs) refl,
              entered-OpensReader r n sized room a b c m ((==_iff _ _).0 one) res skips,
            )
      ]
    ]

  -- Over every orderly source, with a chunk size above 0 and more rounds than metadata bytes, the
  -- constructor of `DbnReader` ends: it throws the error that `Opens` owes for the bytes of the
  -- source, or its reader stands before the first record of a supported file, in its invariant,
  -- with the supported version, nothing counted and nothing failed.
  pub stream_open-OpensReader :
      (fuel : ℕ) (s : S) (chunk_size : ℕ)
      → 0 < chunk_size
      → metadata_len (left s) < fuel
      → (o : Result DbnError (DbnReader S)) × (open_reader bytes fuel s chunk_size ≡ done o)
        × OpensReader chunk_size (left s) o
  unfolding open_reader
  stream_open-OpensReader fuel s chunk_size room enough = elim (Bool-cases (k == 8)) [
    | inr short ↦
        let cut_off : k < 8 = ground (arith, f.fits) in
        (
          err truncated_header,
          rw (runs, short) refl,
          omega (
            arith,
            cut_off,
            ap length f.in_order,
            length-append (take k header) (left s'),
            length-take k header,
            ap length (f.short cut_off),
          ),
        )
    | inl all ↦
        let full : k ≡ 8 = (==_iff _ _).0 all in
        let front : left s ≡ header ++ left s' =
          rw (take_all k header (omega (arith, f.keeps_size, full))) at f.in_order in
        let (o, checks, opens) =
          check_header-OpensReader (left s) header s' f.keeps_size front fuel fresh chunk_size
            (length-replicate {A = ℕ} chunk_size 0) room refl refl refl enough in
        (o, rw (runs, full) checks, opens)
  ]
    where
      fresh : DbnReader S
      fresh = record {
        source = s;
        assembler = empty_assembler;
        scratch = replicate chunk_size 0;
        version = 0;
        failed = false;
        stats = zero_stats;
      }

      filled :
          (k : ℕ) × (dst' : List ℕ) × (s' : S) × (read_fully bytes (replicate 8 0) s
            ≡ done (k, dst', s'))
          × FullyRead bytes left orderly (replicate 8 0) s k dst' s'
      filled = read_fully-FullyRead bytes left orderly (replicate 8 0) s

      k : ℕ
      k = filled.0

      header : List ℕ
      header = filled.1

      s' : S
      s' = filled.2

      runs : read_fully bytes (replicate 8 0) s ≡ done (k, header, s')
      runs = filled.3

      f : FullyRead bytes left orderly (replicate 8 0) s k header s'
      f = filled.4
