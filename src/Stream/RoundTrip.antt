-- ===== src/Stream/RoundTrip.antt =====
-- dbn.hpp: records laid out in bytes, and the events they stand for.
use trading_engine_hh.Base.{
  ℕ, ◌%◌, ◌≡◌, refl, ap, ◌∙◌, Option, none, some, false, List, [], ◌∷◌, ◌++◌, get_or, append_assoc,
  All, Result, ok, err, arith,
}
use trading_engine_hh.Event.{Event}
use trading_engine_hh.Dbn.{WireMbo, ParseError, to_event, bytes_of_wire}
use trading_engine_hh.Dbn.Wire.{IsWire, length-bytes_of_wire, wire_of_bytes-bytes_of_wire}
use trading_engine_hh.Frame.{IsRecord, IsPartial}
use trading_engine_hh.Frame.Split.{Splits, ends, splits}
use trading_engine_hh.Route.Outcomes.{route_record-IsMbo}
use trading_engine_hh.Route.{IngestStats, routed_of, k_mbo_rtype, route_record, tally}
use trading_engine_hh.Stream.{Yield, Yields}
use trading_engine_hh.Stream.Records.{before, events_of, stats_of, Yields-eq}

-- A market-by-order record: 14 words, the type tag, and each field in the range of its type.
abbrev pub IsMboWire : WireMbo → Type 0
IsMboWire w = IsWire w × (w.length ≡ 14) × (w.rtype ≡ k_mbo_rtype)

abbrev pub bytes_of_wires : List WireMbo → List ℕ
bytes_of_wires [] = []
bytes_of_wires (w ∷ ws) = bytes_of_wire w ++ bytes_of_wires ws

-- The events that the records convert to, and how many convert and do not.
abbrev pub event_of : Result ParseError Event → Option Event
event_of (ok e) = some e
event_of (err x) = none

abbrev pub converted : List WireMbo → List Event
converted [] = []
converted (w ∷ ws) = before (event_of (to_event w)) (converted ws)

abbrev pub stats_after : IngestStats → List WireMbo → IngestStats
stats_after s [] = s
stats_after s (w ∷ ws) = stats_after (tally s (routed_of (to_event w))).1 ws

rtype-bytes_of_wire : (w : WireMbo) → get_or (bytes_of_wire w) 1 0 ≡ w.rtype % 256
unfolding bytes_of_wire
rtype-bytes_of_wire w = refl

route_record-bytes_of_wire :
    (w : WireMbo) → IsMboWire w → route_record (bytes_of_wire w) ≡ routed_of (to_event w)
route_record-bytes_of_wire w (v, l, t) =
    route_record-IsMbo (bytes_of_wire w)
      (omega (arith, rtype-bytes_of_wire w, t), length-bytes_of_wire w)
    ∙ ap (λ x. routed_of (to_event x)) (wire_of_bytes-bytes_of_wire w v)

bytes_of_wire-IsRecord : (w : WireMbo) → IsMboWire w → IsRecord (bytes_of_wire w)
unfolding bytes_of_wire
bytes_of_wire-IsRecord w (v, l, t) = (omega (arith, l), omega (arith, l))

abbrev pub records_of : List WireMbo → List (List ℕ)
records_of [] = []
records_of (w ∷ ws) = bytes_of_wire w ∷ records_of ws

pub bytes_of_wires-Splits :
    (ws : List WireMbo) (tail : List ℕ)
    → All IsMboWire ws
    → IsPartial tail
    → Splits
        (bytes_of_wires ws ++ tail)
        (record { records = records_of ws; broken = false; rest = tail })
bytes_of_wires-Splits [] tail h partial = ends partial refl
bytes_of_wires-Splits (w ∷ ws) tail h partial =
    splits (bytes_of_wire w) (bytes_of_wires ws ++ tail) _
      (append_assoc (bytes_of_wire w) (bytes_of_wires ws) tail) (bytes_of_wire-IsRecord w h.0)
      (bytes_of_wires-Splits ws tail h.1 partial) refl

-- `tally` hands on what was converted.
tally-routed_of :
    (s : IngestStats) (r : Result ParseError Event) → (tally s (routed_of r)).0 ≡ event_of r
unfolding tally
tally-routed_of s (ok e) = refl
tally-routed_of s (err x) = refl

events_of-records_of :
    (s : IngestStats) (ws : List WireMbo)
    → All IsMboWire ws
    → (events_of s (records_of ws) ≡ converted ws) × (stats_of s (records_of ws) ≡ stats_after s ws)
events_of-records_of s [] h = (refl, refl)
events_of-records_of s (w ∷ ws) h =
    let routed = route_record-bytes_of_wire w h.0 in
    let (events, stats) = events_of-records_of (tally s (routed_of (to_event w))).1 ws h.1 in
    (
      rw (routed, tally-routed_of, events) refl,
      ap (λ r. stats_of (tally s r).1 (records_of ws)) routed ∙ stats,
    )

-- The bytes of any market-by-order records, and perhaps a part of one more, yield an event for each
-- record that `to_event` converts, in order, a count for each record, and a clean end.
pub Yields-bytes_of_wires :
    (ws : List WireMbo) (tail : List ℕ) (s : IngestStats) {y : Yield}
    → All IsMboWire ws
    → IsPartial tail
    → Yields (bytes_of_wires ws ++ tail) s y
    → y ≡ record { events = converted ws; stats = stats_after s ws; failed = false }
Yields-bytes_of_wires ws tail s h partial y =
    let (events, stats) = events_of-records_of s ws h in
    Yields-eq (bytes_of_wires-Splits ws tail h partial) y ∙ λ i. record {
      events = events i;
      stats = stats i;
      failed = false;
    }
