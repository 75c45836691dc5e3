-- ===== src/Frame/Contract.antt =====
-- dbn_reader.hpp: the contract of `frame_one`, which tests/cpp/test_frame_fuzz.cpp samples.
use trading_engine_hh.Base.{
  ℕ, zero, suc, ◌+◌, ◌*◌, ◌≤◌, ◌<◌, ◌≡◌, refl, sym, ap, ◌∙◌, List, [], ◌∷◌, ◌++◌, length, take,
  drop, get_or, All, length-take, length-append, take-append, drop-append, append_assoc, append-nil,
  take-append-drop, arith,
}
use trading_engine_hh.Base.Bytes.{IsByte}
use trading_engine_hh.Frame.{
  FrameStatus, ok, need_more, corrupt, FrameResult, frame_one, IsRecord, IsPartial, IsCorrupt,
}

-- What an answer of the given status says of the buffer.
abbrev pub FramedAs : FrameStatus → List ℕ → FrameResult → Type 0
FramedAs ok buf r =
    IsRecord (take r.record_size buf)
    × (r.record_size ≤ length buf)
    × (r.record_size ≡ 4 * get_or buf 0 0)
    × (r.rtype ≡ get_or buf 1 0)
FramedAs need_more buf r = IsPartial buf
FramedAs corrupt buf r = IsCorrupt buf

IsRecord-take :
    (l t : ℕ) (body : List ℕ)
    → 0 < l
    → 4 * l ≤ length (l ∷ t ∷ body)
    → IsRecord (take (l * 4) (l ∷ t ∷ body))
IsRecord-take zero t body p h = absurd (omega arith)
IsRecord-take (suc k) t body p h =
    rw shape (omega arith, omega (arith, length-take (k * 4 + 2) body))
  where
    shape : suc k * 4 ≡ suc (suc (k * 4 + 2))
    shape = omega arith

-- On every buffer `frame_one` answers `ok` only with a whole record at the front, its size four
-- times the first byte and its type the second, `need_more` only for a part of a record, and
-- `corrupt` only for a record of no words.
pub frame_one_lem : (buf : List ℕ) → FramedAs (frame_one buf).status buf (frame_one buf)
unfolding frame_one
frame_one_lem [] = tt
frame_one_lem (l ∷ []) = tt
frame_one_lem (l ∷ t ∷ body) = ground (arith, IsRecord-take l t body)

-- A whole record at the front is framed as such, whatever follows it.
pub frame_one-IsRecord :
    (rec rest : List ℕ)
    → IsRecord rec
    → frame_one (rec ++ rest)
      ≡ record { status = ok; rtype = get_or rec 1 0; record_size = length rec }
unfolding frame_one
frame_one-IsRecord [] rest h = absurd h
frame_one-IsRecord (l ∷ []) rest h = absurd h
frame_one-IsRecord (l ∷ t ∷ body) rest h = ground (arith, length-append body rest)

pub frame_one-IsPartial :
    (buf : List ℕ)
    → IsPartial buf
    → frame_one buf ≡ record { status = need_more; rtype = 0; record_size = 0 }
unfolding frame_one
frame_one-IsPartial [] h = refl
frame_one-IsPartial (l ∷ []) h = refl
frame_one-IsPartial (l ∷ t ∷ body) h = ground arith

pub frame_one-IsCorrupt :
    (buf rest : List ℕ)
    → IsCorrupt buf
    → frame_one (buf ++ rest) ≡ record { status = corrupt; rtype = 0; record_size = 0 }
unfolding frame_one
frame_one-IsCorrupt [] rest h = absurd h
frame_one-IsCorrupt (l ∷ []) rest h = absurd h
frame_one-IsCorrupt (l ∷ t ∷ body) rest h = ground arith

-- The three ways in which a buffer can begin, with the record split off in the first.
pub data Front (buf : List ℕ) : Type 0 where
  whole : (rec rest : List ℕ) → buf ≡ rec ++ rest → IsRecord rec → Front buf
  part : IsPartial buf → Front buf
  lost : IsCorrupt buf → Front buf

pub front : (buf : List ℕ) → Front buf
front buf = go (frame_one buf) (frame_one_lem buf)
  where
    go : (r : FrameResult) → FramedAs r.status buf r → Front buf
    go r h = by_status r.status refl
      where
        by_status : (s : FrameStatus) → r.status ≡ s → Front buf
        by_status ok e =
            whole (take r.record_size buf) (drop r.record_size buf)
              (sym (take-append-drop r.record_size buf)) (rw e at h).0
        by_status need_more e = part (rw e at h)
        by_status corrupt e = lost (rw e at h)

-- If `frame_one` does not answer `need_more` for a buffer, it gives the same answer when more
-- bytes follow.
frame_one-append :
    (buf more : List ℕ)
    → ¬ ((frame_one buf).status ≡ need_more)
    → frame_one (buf ++ more) ≡ frame_one buf
frame_one-append buf more h = elim (front buf) [
  | whole rec rest e r ↦
      rw (e, append_assoc)
        (frame_one-IsRecord rec (rest ++ more) r ∙ sym (frame_one-IsRecord rec rest r))
  | part p ↦ absurd (h (ap (λ (r : FrameResult). r.status) (frame_one-IsPartial buf p)))
  | lost c ↦ frame_one-IsCorrupt buf more c ∙ sym (rw append-nil at (frame_one-IsCorrupt buf [] c))
]

-- A buffer begins with one record at most.
pub record_unique :
    (rec rest rec' rest' : List ℕ)
    → IsRecord rec
    → IsRecord rec'
    → rec ++ rest ≡ rec' ++ rest'
    → (rec ≡ rec') × (rest ≡ rest')
record_unique rec rest rec' rest' h h' e = (
  sym (take-append rec rest (length rec) refl) ∙ rw e (take-append rec' rest' (length rec) same),
  sym (drop-append rec rest (length rec) refl) ∙ rw e (drop-append rec' rest' (length rec) same),
)
  where
    same : length rec ≡ length rec'
    same =
        ap (λ (r : FrameResult). r.record_size)
          (sym (rw e at (frame_one-IsRecord rec rest h)) ∙ frame_one-IsRecord rec' rest' h')

-- A record has four bytes at least, and at most 1020.
pub record_bounds :
    (rec : List ℕ) → IsRecord rec → All IsByte rec → (4 ≤ length rec) × (length rec ≤ 1020)
record_bounds [] h b = absurd h
record_bounds (l ∷ []) h b = absurd h
record_bounds (l ∷ t ∷ body) h b = omega (arith, b.0)

pub record_nonempty : (rec : List ℕ) → IsRecord rec → 4 ≤ length rec
record_nonempty [] h = absurd h
record_nonempty (l ∷ []) h = absurd h
record_nonempty (l ∷ t ∷ body) h = omega arith

pub frame_one-IsCorrupt_whole :
    (buf : List ℕ)
    → IsCorrupt buf
    → frame_one buf ≡ record { status = corrupt; rtype = 0; record_size = 0 }
frame_one-IsCorrupt_whole buf c = rw append-nil at (frame_one-IsCorrupt buf [] c)

pub IsCorrupt-append : (buf more : List ℕ) → IsCorrupt buf → IsCorrupt (buf ++ more)
IsCorrupt-append [] more h = absurd h
IsCorrupt-append (l ∷ []) more h = absurd h
IsCorrupt-append (l ∷ t ∷ body) more h = h

pub not_partial_and_record : (u rec v : List ℕ) → IsPartial u → u ≡ rec ++ v → IsRecord rec → ⊥
not_partial_and_record u rec v p e r =
    cc (frame_one-IsPartial u p, frame_one-IsRecord rec v r, ap frame_one e)

pub not_corrupt_and_record : (u rec v : List ℕ) → IsCorrupt u → u ≡ rec ++ v → IsRecord rec → ⊥
not_corrupt_and_record u rec v c e r =
    cc (frame_one-IsCorrupt u [] c, append-nil u, frame_one-IsRecord rec v r, ap frame_one e)

pub not_partial_and_corrupt : (u : List ℕ) → IsPartial u → IsCorrupt u → ⊥
not_partial_and_corrupt u p c =
    cc (frame_one-IsPartial u p, frame_one-IsCorrupt u [] c, append-nil u)
