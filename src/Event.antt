-- ===== src/Event.antt =====
-- core/include/trading_sim/event.hpp: the engine's own market-by-order event and the check of the
-- two wire bytes that become enumerations.
pub mod Validate
use trading_engine_hh.Base.{ℕ, Bool, ◌||◌, ◌==◌, if◌then◌else◌}
use trading_engine_hh.Base.Int.{ℤ}

-- `enum class Action : char`. A scoped enumeration with a fixed underlying type also has the values
-- of that type which no enumerator names: a cast that is not checked gives one of those.
pub data Action : Type 0 where
  add cancel modify trade fill clear : Action
  unnamed : ℕ → Action

-- `enum class Side : char`.
pub data Side : Type 0 where
  bid ask none : Side
  unnamed : ℕ → Side

-- The value of an enumeration as its underlying `char`, held as the byte of its bit pattern.
abbrev pub action_char : Action → ℕ
action_char add = b'A'
action_char cancel = b'C'
action_char modify = b'M'
action_char trade = b'T'
action_char fill = b'F'
action_char clear = b'R'
action_char (Action.unnamed c) = c

abbrev pub side_char : Side → ℕ
side_char bid = b'B'
side_char ask = b'A'
side_char Side.none = b'N'
side_char (Side.unnamed c) = c

-- `static_cast<Action>(c)` and `static_cast<Side>(c)`: the value with that pattern, unchecked.
abbrev pub cast_action : ℕ → Action
cast_action c =
    if c == b'A'
    then add
    else if c == b'C'
    then cancel
    else if c == b'M'
    then modify
    else if c == b'T'
    then trade
    else if c == b'F'
    then fill
    else if c == b'R'
    then clear
    else Action.unnamed c

abbrev pub cast_side : ℕ → Side
cast_side c =
    if c == b'B'
    then bid
    else if c == b'A'
    then ask
    else if c == b'N'
    then Side.none
    else Side.unnamed c

-- The case labels of the two switches.
unfoldable pub is_valid_action : ℕ → Bool
is_valid_action c = c == b'A' || c == b'C' || c == b'M' || c == b'T' || c == b'F' || c == b'R'

unfoldable pub is_valid_side : ℕ → Bool
is_valid_side c = c == b'B' || c == b'A' || c == b'N'

-- Prices are integer nanodollars; the other fields are unsigned.
pub record Event : Type 0 where
  pub ts_event : ℕ
  pub ts_recv : ℕ
  pub order_id : ℕ
  pub price : ℤ
  pub size : ℕ
  pub sequence : ℕ
  pub action : Action
  pub side : Side
  pub flags : ℕ
