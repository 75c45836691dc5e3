-- ===== src/Reader/Repeat.antt =====
-- dbn_reader.hpp: calls of `next()` after `nullopt` (ADR 0018), over either reader.
use trading_engine_hh.Base.{ℕ, ◌<◌, ◌≡◌, refl, ap, ◌∙◌, Option, none, List, done, arith}
use mathlib.Core.Path.{subst}
use trading_engine_hh.Event.{Event}
use trading_engine_hh.Route.{IngestStats}
use trading_engine_hh.Stream.{Answer, Delivers, at_end, at_corrupt, hand_on, pass_over}
use trading_engine_hh.Stream.Unique.{Delivers-unique}
use trading_engine_hh.Reader.{EventReader, KeepsContract}

-- An answer without an event is owed again for what it leaves.
pub Delivers-again :
    {u : List ℕ} {s : IngestStats} {a : Answer}
    → Delivers u s a
    → a.event ≡ none
    → Delivers a.rest a.stats a
Delivers-again (at_end p e) n = rw e (at_end p refl)
Delivers-again (at_corrupt c e) n = rw e (at_corrupt c refl)
Delivers-again (hand_on rec v x c w r t e) n = cc
Delivers-again (pass_over rec v c w r t d) n = Delivers-again d n

module _ {R : Type 0} {IsReady : R → Type 0} (reader : EventReader R)
    (law : KeepsContract reader IsReady) where
  abbrev pub Repeats : ℕ → R → Type 0
  Repeats fuel r =
      (r' : R) × (reader.next fuel r ≡ done (none, r'))
      × (reader.stats r' ≡ reader.stats r)
      × (reader.failed r' ≡ reader.failed r)

  repeat_from :
      (r t : R) (e : Option Event) (later : ℕ)
      → IsReady t
      → law.effort t < later
      → e ≡ none
      → Delivers (law.rest r) (reader.stats r) (record {
        event = e;
        rest = law.rest t;
        stats = reader.stats t;
        failed = reader.failed t;
      })
      → Repeats later t
  repeat_from r t e later ready enough no_event owed =
      let (e', t', runs, owed', ready', less) = law.next_delivers t later ready enough in
      let same = Delivers-unique owed' (Delivers-again owed no_event) in
      (
        t',
        runs ∙ ap (λ x. done (x, t')) (ap (λ (a : Answer). a.event) same ∙ no_event),
        ap (λ (a : Answer). a.stats) same,
        ap (λ (a : Answer). a.failed) same,
      )

  -- A call that returned no event is followed only by such calls.
  pub next-Repeats :
      (r r' : R) (fuel later : ℕ)
      → IsReady r
      → law.effort r < fuel
      → law.effort r < later
      → reader.next fuel r ≡ done (none, r')
      → Repeats later r'
  next-Repeats r r' fuel later k enough enough' runs =
      let (e, t, runs', owed, ready, less) = law.next_delivers r fuel k enough in
      let no_event : e ≡ none = cc (runs, runs') in
      let same : t ≡ r' = cc (runs, runs') in
      subst (Repeats later) same (repeat_from r t e later ready (omega arith) no_event owed)
