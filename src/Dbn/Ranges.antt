-- ===== src/Dbn/Ranges.antt =====
-- dbn.hpp and event.hpp: the ranges of the fields of a record read from bytes, and of its event.
use trading_engine_hh.Base.{ℕ, ◌+◌, ◌^◌, ◌≤◌, ◌<◌, ◌≡◌, List, length, All, arith}
use trading_engine_hh.Base.Int.{IsI64, signed64-IsI64, signed32-IsI32}
use trading_engine_hh.Base.Bytes.{IsByte, field_at}
use trading_engine_hh.Event.{Event}
use trading_engine_hh.Event.Validate.{IsNamedAction, IsNamedSide}
use trading_engine_hh.Dbn.{WireMbo, wire_size, wire_of_bytes}
use trading_engine_hh.Dbn.Wire.{IsWire, field_at-lt}
use trading_engine_hh.Dbn.Convert.{Trusted}

-- Each field of an event is in the range of its C++ type, and its enumerations are enumerators.
pub record IsEvent (e : Event) : Type 0 where
  pub ts_event : e.ts_event < 2 ^ 64
  pub ts_recv : e.ts_recv < 2 ^ 64
  pub order_id : e.order_id < 2 ^ 64
  pub price : IsI64 e.price
  pub size : e.size < 2 ^ 32
  pub sequence : e.sequence < 2 ^ 32
  pub flags : e.flags < 2 ^ 8
  pub action : IsNamedAction e.action
  pub side : IsNamedSide e.side

module _ (bs : List ℕ) (size : length bs ≡ wire_size) (bytes : All IsByte bs) where
  bound : (o n : ℕ) → o + n ≤ 56 → field_at o n bs < 256 ^ n
  bound = field_at-lt bs size bytes

  -- A record read from 56 bytes has its fields in the ranges of their types.
  pub wire_of_bytes-IsWire : IsWire (wire_of_bytes bs)
  wire_of_bytes-IsWire = record {
    length = omega (arith, bound 0 1);
    rtype = omega (arith, bound 1 1);
    publisher_id = omega (arith, bound 2 2);
    instrument_id = omega (arith, bound 4 4);
    ts_event = omega (arith, bound 8 8);
    order_id = omega (arith, bound 16 8);
    price = signed64-IsI64 (field_at 24 8 bs) (omega (arith, bound 24 8));
    size = omega (arith, bound 32 4);
    flags = omega (arith, bound 36 1);
    channel_id = omega (arith, bound 37 1);
    action = omega (arith, bound 38 1);
    side = omega (arith, bound 39 1);
    ts_recv = omega (arith, bound 40 8);
    ts_in_delta = signed32-IsI32 (field_at 48 4 bs) (omega (arith, bound 48 4));
    sequence = omega (arith, bound 52 4);
  }

-- A trusted event of a record in range is in range.
pub Trusted-IsEvent : {w : WireMbo} {e : Event} → IsWire w → Trusted w e → IsEvent e
Trusted-IsEvent {w} {e} v t = record {
  ts_event = omega (arith, t.ts_event, v.ts_event);
  ts_recv = omega (arith, t.ts_recv, v.ts_recv);
  order_id = omega (arith, t.order_id, v.order_id);
  price = rw t.price v.price;
  size = omega (arith, t.size, v.size);
  sequence = omega (arith, t.sequence, v.sequence);
  flags = omega (arith, t.flags, v.flags);
  action = t.named_action;
  side = t.named_side;
}
