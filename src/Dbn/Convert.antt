-- ===== src/Dbn/Convert.antt =====
-- dbn.hpp: `to_event`, the boundary where wire bytes become a trusted event.
use trading_engine_hh.Base.{◌≡◌, refl, inl, inr, Result, ok, err, Bool-cases}
use trading_engine_hh.Event.{
  Event, action_char, side_char, cast_action, cast_side, is_valid_action, is_valid_side,
}
use trading_engine_hh.Event.Validate.{
  IsNamedAction, IsNamedSide, cast_action-IsNamed, cast_side-IsNamed, valid_of_named_action,
  valid_of_named_side, action_char-cast_action, side_char-cast_side,
}
use trading_engine_hh.Dbn.{WireMbo, ParseError, bad_action, bad_side, to_event}

-- The event says what the record says, and both enumerations are enumerators.
pub record Trusted (w : WireMbo) (e : Event) : Type 0 where
  pub ts_event : e.ts_event ≡ w.ts_event
  pub ts_recv : e.ts_recv ≡ w.ts_recv
  pub order_id : e.order_id ≡ w.order_id
  pub price : e.price ≡ w.price
  pub size : e.size ≡ w.size
  pub sequence : e.sequence ≡ w.sequence
  pub flags : e.flags ≡ w.flags
  pub action : action_char e.action ≡ w.action
  pub side : side_char e.side ≡ w.side
  pub named_action : IsNamedAction e.action
  pub named_side : IsNamedSide e.side

-- What `to_event` must answer: an event that can be trusted, or the reason that there is none, a
-- bad action being reported before a bad side.
abbrev pub Converts : WireMbo → Result ParseError Event → Type 0
Converts w (ok e) = Trusted w e
Converts w (err bad_action) = ¬ IsNamedAction (cast_action w.action)
Converts w (err bad_side) =
    IsNamedAction (cast_action w.action) × (¬ IsNamedSide (cast_side w.side))

-- On every wire record `to_event` returns an event only with the fields of the record and a named
-- action and side, `bad_action` only if the action has no name, and `bad_side` only if the action
-- has a name and the side has none.
pub to_event-Converts : (w : WireMbo) → Converts w (to_event w)
unfolding to_event
to_event-Converts w = elim (Bool-cases (is_valid_action w.action)) [
  | inr wrong ↦ rw wrong (λ n. cc (valid_of_named_action w.action n))
  | inl known ↦ elim (Bool-cases (is_valid_side w.side)) [
    | inr wrong ↦
        rw (known, wrong) (cast_action-IsNamed _ known, λ n. cc (valid_of_named_side w.side n))
    | inl sided ↦
        rw (known, sided)
          (record {
            ts_event = refl;
            ts_recv = refl;
            order_id = refl;
            price = refl;
            size = refl;
            sequence = refl;
            flags = refl;
            action = action_char-cast_action w.action;
            side = side_char-cast_side w.side;
            named_action = cast_action-IsNamed _ known;
            named_side = cast_side-IsNamed _ sided;
          })
  ]
]
