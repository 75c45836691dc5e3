-- ===== src/Stream/Records.antt =====
-- The contract of the readers against the records of the bytes: which events, which counts, and when
-- `failed()`.
use trading_engine_hh.Base.{ℕ, ◌≡◌, refl, ap, ◌∙◌, Option, none, some, List, [], ◌∷◌, ◌++◌}
use trading_engine_hh.Event.{Event}
use trading_engine_hh.Frame.{IsRecord}
use trading_engine_hh.Frame.Split.{Parts, Splits, ends, breaks, splits}
use trading_engine_hh.Route.{IngestStats, route_record, tally}
use trading_engine_hh.Stream.Unique.{Yields-unique}
use trading_engine_hh.Stream.{at_end, at_corrupt, hand_on, pass_over, Yield, Yields, last, more}

-- The event that a routed record puts before those of the later records.
abbrev pub before : Option Event → List Event → List Event
before (some e) es = e ∷ es
before none es = es

-- The events of a list of records, and the counters after them.
abbrev pub events_of : IngestStats → List (List ℕ) → List Event
events_of s [] = []
events_of s (r ∷ rs) =
    before (tally s (route_record r)).0 (events_of (tally s (route_record r)).1 rs)

abbrev pub stats_of : IngestStats → List (List ℕ) → IngestStats
stats_of s [] = s
stats_of s (r ∷ rs) = stats_of (tally s (route_record r)).1 rs

-- What the records of some bytes owe a reader that starts with counters `s`.
abbrev pub yield_of : IngestStats → Parts → Yield
yield_of s p = record {
  events = events_of s p.records;
  stats = stats_of s p.records;
  failed = p.broken;
}

-- A record passed over belongs to the next call.
pub Yields-pass_over :
    {u : List ℕ} {s : IngestStats} {y : Yield} (rec v : List ℕ) (s' : IngestStats)
    → u ≡ rec ++ v
    → IsRecord rec
    → tally s (route_record rec) ≡ (none, s')
    → Yields v s' y
    → Yields u s y
Yields-pass_over rec v s' e r t (last a d n q) = last a (pass_over rec v s' e r t d) n q
Yields-pass_over rec v s' e r t (more a x z d n m q) = more a x z (pass_over rec v s' e r t d) n m q

-- One record in front of bytes that yield what their parts say, by how it was counted.
yield_record :
    {u : List ℕ} (s : IngestStats) (rec v : List ℕ) (q : Parts) (t : Option Event × IngestStats)
    → u ≡ rec ++ v
    → IsRecord rec
    → tally s (route_record rec) ≡ t
    → ((s' : IngestStats) → Yields v s' (yield_of s' q))
    → Yields u s (record {
      events = before t.0 (events_of t.1 q.records);
      stats = stats_of t.1 q.records;
      failed = q.broken;
    })
yield_record s rec v q (none, c) w r t later = Yields-pass_over rec v c w r t (later c)
yield_record s rec v q (some x, c) w r t later =
    more _ x (yield_of c q) (hand_on rec v x c w r t refl) refl (later c) refl

-- Bytes that split into parts yield what the parts say: an event for each record that is emitted, in
-- order, the counts of all records, and failure exactly if the bytes break at a record of no words.
pub Splits-Yields :
    {u : List ℕ} {p : Parts} (s : IngestStats) → Splits u p → Yields u s (yield_of s p)
Splits-Yields s (ends h e) = last _ (at_end h refl) refl (rw e refl)
Splits-Yields s (breaks h e) = last _ (at_corrupt h refl) refl (rw e refl)
Splits-Yields s (splits rec v q w r d e) =
    rw e (yield_record s rec v q (tally s (route_record rec)) w r refl (λ c. Splits-Yields c d))

-- Whatever is yielded is what the parts say.
pub Yields-eq :
    {u : List ℕ} {p : Parts} {s : IngestStats} {y : Yield}
    → Splits u p
    → Yields u s y
    → y ≡ yield_of s p
Yields-eq {s = s} d y = Yields-unique y (Splits-Yields s d)

before-append : (o : Option Event) (es fs : List Event) → before o (es ++ fs) ≡ before o es ++ fs
before-append none es fs = refl
before-append (some e) es fs = refl

-- The later records start from the counters that the earlier ones leave.
pub events_of-append :
    (s : IngestStats) (rs qs : List (List ℕ))
    → events_of s (rs ++ qs) ≡ events_of s rs ++ events_of (stats_of s rs) qs
events_of-append s [] qs = refl
events_of-append s (r ∷ rs) qs =
    ap (before (tally s (route_record r)).0) (events_of-append (tally s (route_record r)).1 rs qs)
    ∙ before-append (tally s (route_record r)).0 _ _
