-- ===== src/Dbn.antt =====
-- core/include/trading_sim/dbn.hpp: the 56-byte wire record and its conversion into an event.
pub mod Wire
pub mod Convert
pub mod Ranges
use trading_engine_hh.Base.{ℕ, ◌+◌, List, ◌++◌, not, if◌then◌else◌, Result, ok, err}
use trading_engine_hh.Base.Int.{ℤ, signed64, signed32, pattern64, pattern32}
use trading_engine_hh.Base.Bytes.{field_at, le_bytes}
use trading_engine_hh.Event.{Event, cast_action, cast_side, is_valid_action, is_valid_side}

-- `struct WireMbo`, its fields in wire order. A `char` is held as the byte of its bit pattern.
pub record WireMbo : Type 0 where
  pub length : ℕ
  pub rtype : ℕ
  pub publisher_id : ℕ
  pub instrument_id : ℕ
  pub ts_event : ℕ
  pub order_id : ℕ
  pub price : ℤ
  pub size : ℕ
  pub flags : ℕ
  pub channel_id : ℕ
  pub action : ℕ
  pub side : ℕ
  pub ts_recv : ℕ
  pub ts_in_delta : ℤ
  pub sequence : ℕ

-- `sizeof(WireMbo)`
abbrev pub wire_size : ℕ
wire_size = 56

-- What `memcpy(&w, bytes, sizeof(WireMbo))` leaves in `w` on a little-endian host: each field is
-- read at the offset that the header's `offsetof` assertions pin.
abbrev pub wire_of_bytes : List ℕ → WireMbo
wire_of_bytes bs = record {
  length = field_at 0 1 bs;
  rtype = field_at 1 1 bs;
  publisher_id = field_at 2 2 bs;
  instrument_id = field_at 4 4 bs;
  ts_event = field_at 8 8 bs;
  order_id = field_at 16 8 bs;
  price = signed64 (field_at 24 8 bs);
  size = field_at 32 4 bs;
  flags = field_at 36 1 bs;
  channel_id = field_at 37 1 bs;
  action = field_at 38 1 bs;
  side = field_at 39 1 bs;
  ts_recv = field_at 40 8 bs;
  ts_in_delta = signed32 (field_at 48 4 bs);
  sequence = field_at 52 4 bs;
}

-- The bytes of the object itself: its fields in declaration order, with no padding.
unfoldable pub bytes_of_wire : WireMbo → List ℕ
bytes_of_wire w =
    le_bytes 1 w.length
    ++ (le_bytes 1 w.rtype
        ++ (le_bytes 2 w.publisher_id
            ++ (le_bytes 4 w.instrument_id
                ++ (le_bytes 8 w.ts_event
                    ++ (le_bytes 8 w.order_id
                        ++ (le_bytes 8 (pattern64 w.price)
                            ++ (le_bytes 4 w.size
                                ++ (le_bytes 1 w.flags
                                    ++ (le_bytes 1 w.channel_id
                                        ++ (le_bytes 1 w.action
                                            ++ (le_bytes 1 w.side
                                                ++ (le_bytes 8 w.ts_recv
                                                    ++ (le_bytes 4 (pattern32 w.ts_in_delta)
                                                        ++ le_bytes 4 w.sequence)))))))))))))

pub data ParseError : Type 0 where
  bad_action bad_side : ParseError

unfoldable pub to_event : WireMbo → Result ParseError Event
to_event w =
    if not (is_valid_action w.action)
    then err bad_action
    else if not (is_valid_side w.side)
    then err bad_side
    else ok (record {
      ts_event = w.ts_event;
      ts_recv = w.ts_recv;
      order_id = w.order_id;
      price = w.price;
      size = w.size;
      sequence = w.sequence;
      action = cast_action w.action;
      side = cast_side w.side;
      flags = w.flags;
    })
