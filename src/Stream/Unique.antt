-- ===== src/Stream/Unique.antt =====
-- dbn_reader.hpp: the contract of `next()` as a function of the bytes and counters.
use trading_engine_hh.Base.{ℕ, ◌≡◌, sym, ap, ◌∙◌, Option, List, ◌++◌}
use mathlib.Core.Path.{subst, subst₂}
use trading_engine_hh.Event.{Event}
use trading_engine_hh.Frame.{IsRecord}
use trading_engine_hh.Frame.Contract.{
  record_unique, not_partial_and_record, not_corrupt_and_record, not_partial_and_corrupt,
}
use trading_engine_hh.Route.{IngestStats, route_record, tally}
use trading_engine_hh.Stream.{
  Answer, Delivers, at_end, at_corrupt, hand_on, pass_over, Yield, Yields, last, more,
}

-- The same bytes and counters give the same record, the same bytes after it, and the same count.
same_step :
    {u : List ℕ} (s : IngestStats) (rec v rec' v' : List ℕ) {o o' : Option Event}
    {t t' : IngestStats}
    → u ≡ rec ++ v
    → IsRecord rec
    → tally s (route_record rec) ≡ (o, t)
    → u ≡ rec' ++ v'
    → IsRecord rec'
    → tally s (route_record rec') ≡ (o', t')
    → (v ≡ v') × (o ≡ o') × (t ≡ t')
same_step s rec v rec' v' e r c e' r' c' =
    let (front, back) = record_unique rec v rec' v' r r' (sym e ∙ e') in
    let counts : tally s (route_record rec) ≡ tally s (route_record rec') =
      ap (λ x. tally s (route_record x)) front in
    (back, cc (c, c', counts), cc (c, c', counts))

-- Two answers owed for the same bytes and counters are equal.
pub Delivers-unique :
    {u : List ℕ} {s : IngestStats} {a b : Answer} → Delivers u s a → Delivers u s b → a ≡ b
Delivers-unique (at_end p e) (at_end p' e') = e ∙ sym e'
Delivers-unique (at_end p e) (at_corrupt c' e') = absurd (not_partial_and_corrupt _ p c')
Delivers-unique (at_end p e) (hand_on rec' v' x' s' u' r' t' e') =
    absurd (not_partial_and_record _ rec' v' p u' r')
Delivers-unique (at_end p e) (pass_over rec' v' s' u' r' t' d') =
    absurd (not_partial_and_record _ rec' v' p u' r')
Delivers-unique (at_corrupt c e) (at_end p' e') = absurd (not_partial_and_corrupt _ p' c)
Delivers-unique (at_corrupt c e) (at_corrupt c' e') = e ∙ sym e'
Delivers-unique (at_corrupt c e) (hand_on rec' v' x' s' u' r' t' e') =
    absurd (not_corrupt_and_record _ rec' v' c u' r')
Delivers-unique (at_corrupt c e) (pass_over rec' v' s' u' r' t' d') =
    absurd (not_corrupt_and_record _ rec' v' c u' r')
Delivers-unique (hand_on rec v x s u r t e) (at_end p' e') =
    absurd (not_partial_and_record _ rec v p' u r)
Delivers-unique (hand_on rec v x s u r t e) (at_corrupt c' e') =
    absurd (not_corrupt_and_record _ rec v c' u r)
Delivers-unique (hand_on rec v x s u r t e) (hand_on rec' v' x' s' u' r' t' e') = cc (
  e,
  e',
  (same_step _ rec v rec' v' u r t u' r' t').0,
  (same_step _ rec v rec' v' u r t u' r' t').1,
  (same_step _ rec v rec' v' u r t u' r' t').2,
)
Delivers-unique (hand_on rec v x s u r t e) (pass_over rec' v' s' u' r' t' d') =
    cc ((same_step _ rec v rec' v' u r t u' r' t').1)
Delivers-unique (pass_over rec v s u r t d) (at_end p' e') =
    absurd (not_partial_and_record _ rec v p' u r)
Delivers-unique (pass_over rec v s u r t d) (at_corrupt c' e') =
    absurd (not_corrupt_and_record _ rec v c' u r)
Delivers-unique (pass_over rec v s u r t d) (hand_on rec' v' x' s' u' r' t' e') =
    cc ((same_step _ rec v rec' v' u r t u' r' t').1)
Delivers-unique {b = b} (pass_over rec v s u r t d) (pass_over rec' v' s' u' r' t' d') =
    let (rest, event, stats) = same_step _ rec v rec' v' u r t u' r' t' in
    Delivers-unique d (subst₂ (λ w c. Delivers w c b) (sym rest) (sym stats) d')

pub Yields-unique :
    {u : List ℕ} {s : IngestStats} {y z : Yield} → Yields u s y → Yields u s z → y ≡ z
Yields-unique (last a d n e) (last a' d' n' e') = cc (e, e', Delivers-unique d d')
Yields-unique (last a d n e) (more a' x' z' d' n' m' e') = cc (n, n', Delivers-unique d d')
Yields-unique (more a x z d n m e) (last a' d' n' e') = cc (n, n', Delivers-unique d d')
Yields-unique (more a x z d n m e) (more a' x' z' d' n' m' e') = cc (
  e,
  e',
  n,
  n',
  Delivers-unique d d',
  Yields-unique m
      (subst (λ (b : Answer). Yields b.rest b.stats z') (sym (Delivers-unique d d')) m'),
)
