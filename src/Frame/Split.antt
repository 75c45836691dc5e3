-- ===== src/Frame/Split.antt =====
-- The records of a run of bytes: what the framing of dbn_reader.hpp makes of them from front to end,
-- however they are buffered.
use trading_engine_hh.Base.{
  ℕ, zero, suc, ◌≤◌, ◌<◌, ◌≡◌, refl, sym, ap, ◌∙◌, Bool, true, false, ◌⊎◌, inl, inr, List, [], ◌∷◌,
  ◌++◌, append_assoc, length, length-append, arith,
}
use mathlib.Core.Path.{subst}
use trading_engine_hh.Frame.{IsRecord, IsPartial, IsCorrupt}
use trading_engine_hh.Frame.Contract.{
  whole, part, lost, front, record_nonempty, record_unique, not_partial_and_record,
  not_corrupt_and_record, not_partial_and_corrupt, IsCorrupt-append,
}

-- Whole records, then either a part of one or a record of no words.
pub record Parts : Type 0 where
  pub records : List (List ℕ)
  pub broken : Bool
  pub rest : List ℕ

abbrev pub with_record : List ℕ → Parts → Parts
with_record rec p = record p { records = rec ∷ p.records }

pub data Splits : List ℕ → Parts → Type 0 where
  ends :
      {u : List ℕ} {p : Parts}
      → IsPartial u
      → p ≡ record { records = []; broken = false; rest = u }
      → Splits u p
  breaks :
      {u : List ℕ} {p : Parts}
      → IsCorrupt u
      → p ≡ record { records = []; broken = true; rest = u }
      → Splits u p
  splits :
      {u : List ℕ} {p : Parts} (rec v : List ℕ) (q : Parts)
      → u ≡ rec ++ v
      → IsRecord rec
      → Splits v q
      → p ≡ with_record rec q
      → Splits u p

-- Bytes split in one way only.
pub Splits-unique : {u : List ℕ} {p q : Parts} → Splits u p → Splits u q → p ≡ q
Splits-unique (ends h e) (ends h' e') = e ∙ sym e'
Splits-unique (ends h e) (breaks h' e') = absurd (not_partial_and_corrupt _ h h')
Splits-unique (ends h e) (splits rec v q w r d e') = absurd (not_partial_and_record _ rec v h w r)
Splits-unique (breaks h e) (ends h' e') = absurd (not_partial_and_corrupt _ h' h)
Splits-unique (breaks h e) (breaks h' e') = e ∙ sym e'
Splits-unique (breaks h e) (splits rec v q w r d e') = absurd (not_corrupt_and_record _ rec v h w r)
Splits-unique (splits rec v q w r d e) (ends h' e') = absurd (not_partial_and_record _ rec v h' w r)
Splits-unique (splits rec v q w r d e) (breaks h' e') =
    absurd (not_corrupt_and_record _ rec v h' w r)
Splits-unique (splits rec v q w r d e) (splits rec' v' q' w' r' d' e') =
    let (front, back) = record_unique rec v rec' v' r r' (sym w ∙ w') in
    cc (e, e', front, Splits-unique d (subst (λ u. Splits u q') (sym back) d'))

-- The records one after the other.
abbrev pub concat : List (List ℕ) → List ℕ
concat [] = []
concat (r ∷ rs) = r ++ concat rs

-- No byte is lost or made up: the records and the rest are the bytes.
pub Splits-concat : {u : List ℕ} {p : Parts} → Splits u p → concat p.records ++ p.rest ≡ u
Splits-concat (ends h e) = rw e
Splits-concat (breaks h e) = rw e
Splits-concat (splits rec v q w r d e) =
    rw (e, w, append_assoc) (ap (λ x. rec ++ x) (Splits-concat d))

-- The split of bytes that begin with a record.
pub Splits-record :
    {u : List ℕ} {p : Parts} (rec v : List ℕ)
    → u ≡ rec ++ v
    → IsRecord rec
    → Splits u p
    → (q : Parts) × Splits v q × (p ≡ with_record rec q)
Splits-record rec v e r (ends h q) = absurd (not_partial_and_record _ rec v h e r)
Splits-record rec v e r (breaks h q) = absurd (not_corrupt_and_record _ rec v h e r)
Splits-record rec v e r (splits rec' v' q e' r' d w) =
    let (front, back) = record_unique rec' v' rec v r' r (sym e' ∙ e) in
    (q, subst (λ t. Splits t q) back d, w ∙ ap (λ x. with_record x q) front)

-- All bytes split: a record is taken off the front as long as there is one.
pub split_up : (n : ℕ) (u : List ℕ) → length u < n → (p : Parts) × Splits u p
split_up zero u h = absurd (omega arith)
split_up (suc n) u h = elim (front u) [
  | part partial ↦ (_, ends partial refl)
  | lost c ↦ (_, breaks c refl)
  | whole rec v e r ↦
      let (q, d) =
        split_up n v (omega (arith, ap length e, length-append rec v, record_nonempty rec r)) in
      (_, splits rec v q e r d refl)
]

-- More bytes at the end add records at the end.
pub Splits-append :
    {u : List ℕ} {p : Parts} (more : List ℕ) (q : Parts)
    → Splits u p
    → Splits (u ++ more) q
    → (rs : List (List ℕ)) × (q.records ≡ p.records ++ rs)
Splits-append more q (ends h e) d = (q.records, rw e refl)
Splits-append more q (breaks h e) d = (q.records, rw e refl)
Splits-append more q (splits rec v p e r d' w) d =
    let (q', later, is) =
      Splits-record rec (v ++ more) (ap (λ x. x ++ more) e ∙ append_assoc rec v more) r d in
    let (rs, same) = Splits-append more q' d' later in (rs, rw (is, w) (ap (λ x. rec ∷ x) same))

-- Bytes that break at a record of no words break there whatever follows.
pub Splits-broken :
    {u : List ℕ} {p : Parts} (more : List ℕ) (q : Parts)
    → Splits u p
    → Splits (u ++ more) q
    → (p.broken ≡ false) ⊎ ((p.broken ≡ true) × (q.broken ≡ true) × (q.records ≡ p.records))
Splits-broken more q (ends h e) d = inl (rw e refl)
Splits-broken more q (breaks h e) d =
    let same = Splits-unique d (breaks (IsCorrupt-append _ more h) refl) in
    inr (rw e refl, rw same refl, rw (e, same) refl)
Splits-broken more q (splits rec v p e r d' w) d =
    let (q', later, is) =
      Splits-record rec (v ++ more) (ap (λ x. x ++ more) e ∙ append_assoc rec v more) r d in
    elim (Splits-broken more q' d' later) [
      | inl unbroken ↦ inl (rw (w, unbroken) refl)
      | inr (broken, broken', same) ↦
          inr (rw (w, broken) refl, rw (is, broken') refl, rw (is, w, same) refl)
    ]

-- Every record takes bytes.
pub length-Splits : {u : List ℕ} {p : Parts} → Splits u p → length p.records ≤ length u
length-Splits (ends h e) = omega (arith, ap (λ (p : Parts). length p.records) e)
length-Splits (breaks h e) = omega (arith, ap (λ (p : Parts). length p.records) e)
length-Splits (splits rec v q e r d w) = omega (
  arith,
  ap length e,
  length-append rec v,
  record_nonempty rec r,
  length-Splits d,
  ap (λ (p : Parts). length p.records) w,
)
