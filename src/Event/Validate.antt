-- ===== src/Event/Validate.antt =====
-- event.hpp: what `is_valid_action` and `is_valid_side` accept.
use trading_engine_hh.Base.{ℕ, ◌≡◌, ◌↔◌, true, arith}
use trading_engine_hh.Event.{
  Action, Side, action_char, side_char, cast_action, cast_side, is_valid_action, is_valid_side,
}

-- The value is one of the enumerators.
abbrev pub IsNamedAction : Action → Type 0
IsNamedAction (Action.unnamed c) = ⊥
IsNamedAction a = Unit {0}

abbrev pub IsNamedSide : Side → Type 0
IsNamedSide (Side.unnamed c) = ⊥
IsNamedSide s = Unit {0}

pub cast_action-IsNamed : (c : ℕ) → is_valid_action c ≡ true → IsNamedAction (cast_action c)
unfolding is_valid_action
cast_action-IsNamed c h = ground arith

pub cast_side-IsNamed : (c : ℕ) → is_valid_side c ≡ true → IsNamedSide (cast_side c)
unfolding is_valid_side
cast_side-IsNamed c h = ground arith

pub valid_of_named_action : (c : ℕ) → IsNamedAction (cast_action c) → is_valid_action c ≡ true
unfolding is_valid_action
valid_of_named_action c h = ground arith

pub valid_of_named_side : (c : ℕ) → IsNamedSide (cast_side c) → is_valid_side c ≡ true
unfolding is_valid_side
valid_of_named_side c h = ground arith

-- The cast keeps the byte, valid or not.
pub action_char-cast_action : (c : ℕ) → action_char (cast_action c) ≡ c
action_char-cast_action c = ground arith

pub side_char-cast_side : (c : ℕ) → side_char (cast_side c) ≡ c
side_char-cast_side c = ground arith

-- For every character, `is_valid_action` and `is_valid_side` hold exactly if the cast to the
-- enumeration gives an enumerator, and the underlying value of the cast is the character again.
validation_exact :
    (c : ℕ)
    → ((is_valid_action c ≡ true) ↔ IsNamedAction (cast_action c))
      × ((is_valid_side c ≡ true) ↔ IsNamedSide (cast_side c))
      × (action_char (cast_action c) ≡ c)
      × (side_char (cast_side c) ≡ c)
validation_exact c = (
  (cast_action-IsNamed c, valid_of_named_action c),
  (cast_side-IsNamed c, valid_of_named_side c),
  action_char-cast_action c,
  side_char-cast_side c,
)
