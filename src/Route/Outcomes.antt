-- ===== src/Route/Outcomes.antt =====
-- dbn_reader.hpp: which record `route_record` emits, and as which event.
use trading_engine_hh.Base.{
  ℕ, ◌≡◌, refl, ◌⊎◌, inl, inr, true, false, not, ◌||◌, List, length, get_or, ◌==◌, ==_iff,
  Bool-cases, Result, ok, err,
}
use trading_engine_hh.Event.{Event, cast_action, cast_side}
use trading_engine_hh.Event.Validate.{IsNamedAction, IsNamedSide}
use trading_engine_hh.Dbn.{ParseError, bad_action, bad_side, wire_size, wire_of_bytes, to_event}
use trading_engine_hh.Dbn.Convert.{Trusted, Converts, to_event-Converts}
use trading_engine_hh.Route.{
  RouteOutcome, emit, skip_non_mbo, skip_malformed, routed_of, k_mbo_rtype, route_record,
}

-- A market-by-order frame: the type tag and the size of `WireMbo`.
abbrev pub IsMbo : List ℕ → Type 0
IsMbo rec = (get_or rec 1 0 ≡ k_mbo_rtype) × (length rec ≡ wire_size)

-- What an outcome says of the record.
abbrev pub RoutedAs : RouteOutcome → List ℕ → Event → Type 0
RoutedAs emit rec e = IsMbo rec × Trusted (wire_of_bytes rec) e
RoutedAs skip_non_mbo rec e = ¬ IsMbo rec
RoutedAs skip_malformed rec e =
    IsMbo rec
    × ((¬ IsNamedAction (cast_action (wire_of_bytes rec).action))
        ⊎ (¬ IsNamedSide (cast_side (wire_of_bytes rec).side)))

routed_of-RoutedAs :
    (rec : List ℕ) (r : Result ParseError Event)
    → IsMbo rec
    → Converts (wire_of_bytes rec) r
    → RoutedAs (routed_of r).outcome rec (routed_of r).event
routed_of-RoutedAs rec (ok e) m c = (m, c)
routed_of-RoutedAs rec (err bad_action) m c = (m, inl c)
routed_of-RoutedAs rec (err bad_side) m c = (m, inr c.1)

IsMbo-cases :
    (rec : List ℕ)
    → (IsMbo rec × ((not (get_or rec 1 0 == k_mbo_rtype) || not (length rec == wire_size)) ≡ false))
      ⊎ ((¬ IsMbo rec)
          × ((not (get_or rec 1 0 == k_mbo_rtype) || not (length rec == wire_size)) ≡ true))
IsMbo-cases rec = elim (Bool-cases (get_or rec 1 0 == k_mbo_rtype)) [
  | inr wrong ↦ inr (λ m. cc (wrong, (==_iff _ _).1 m.0), rw wrong)
  | inl tagged ↦ elim (Bool-cases (length rec == wire_size)) [
    | inr wrong ↦ inr (λ m. cc (wrong, (==_iff _ _).1 m.1), rw (tagged, wrong))
    | inl sized ↦ inl (((==_iff _ _).0 tagged, (==_iff _ _).0 sized), rw (tagged, sized))
  ]
]

-- On every record `route_record` emits only if it has the type tag and the size of a
-- market-by-order record, and then an event with the fields of the record and a named action and
-- side; it answers `skip_non_mbo` only without that tag or size, and `skip_malformed` only with
-- both and an action or a side that has no name.
pub route_record-RoutedAs :
    (rec : List ℕ) → RoutedAs (route_record rec).outcome rec (route_record rec).event
unfolding route_record
route_record-RoutedAs rec = elim (IsMbo-cases rec) [
  | inl (m, e) ↦ rw e (routed_of-RoutedAs rec _ m (to_event-Converts (wire_of_bytes rec)))
  | inr (m, e) ↦ rw e m
]

-- A market-by-order frame is routed by what it converts to.
pub route_record-IsMbo :
    (rec : List ℕ) → IsMbo rec → route_record rec ≡ routed_of (to_event (wire_of_bytes rec))
unfolding route_record
route_record-IsMbo rec m = elim (IsMbo-cases rec) [
  | inl (same, e) ↦ rw e refl
  | inr (wrong, e) ↦ absurd (wrong m)
]
