-- ===== src/Stream/Failure.antt =====
-- The flag behind `failed()`, and the two ways in which a record is counted.
use trading_engine_hh.Base.{
  ℕ, ◌≡◌, refl, ◌⊎◌, inl, inr, Bool, true, false, Bool-cases, Option, none, some, List, ◌++◌,
}
use trading_engine_hh.Event.{Event}
use trading_engine_hh.Frame.{IsRecord, IsPartial, IsCorrupt}
use trading_engine_hh.Route.{IngestStats}
use trading_engine_hh.Frame.Contract.{not_corrupt_and_record, not_partial_and_corrupt}

-- A reader that has failed stands before a record of no words.
abbrev pub IsTruthful : Bool → List ℕ → Type 0
IsTruthful failed u = failed ≡ true → IsCorrupt u

pub not_failed_of_record :
    {failed : Bool} {u : List ℕ} (rec v : List ℕ)
    → IsTruthful failed u
    → u ≡ rec ++ v
    → IsRecord rec
    → failed ≡ false
not_failed_of_record {failed} {u} rec v t e r = elim (Bool-cases failed) [
  | inl set ↦ absurd (not_corrupt_and_record u rec v (t set) e r)
  | inr clear ↦ clear
]

pub not_failed_of_partial :
    {failed : Bool} (u : List ℕ) → IsTruthful failed u → IsPartial u → failed ≡ false
not_failed_of_partial {failed} u t p = elim (Bool-cases failed) [
  | inl set ↦ absurd (not_partial_and_corrupt u p (t set))
  | inr clear ↦ clear
]

-- A record is handed on or passed over.
pub Tallied-cases :
    (t : Option Event × IngestStats)
    → ((c : IngestStats) × (t ≡ (none, c))) ⊎ ((e : Event) × (c : IngestStats) × (t ≡ (some e, c)))
Tallied-cases (none, c) = inl (c, refl)
Tallied-cases (some e, c) = inr (e, c, refl)
