-- ===== src/Dbn/Wire.antt =====
-- dbn.hpp: `WireMbo` beside the 56 bytes of the record, as the `offsetof` assertions lay them out.
use trading_engine_hh.Base.{
  ℕ, ◌+◌, ◌^◌, ◌≤◌, ◌<◌, ◌≡◌, refl, sym, List, [], ◌++◌, append-nil, length, take, drop, All,
  length-take, length-drop, take-append-drop, drop-drop, drop_all, All-take, All-drop, arith,
}
use trading_engine_hh.Base.Int.{
  IsI64, IsI32, signed64-pattern64, signed32-pattern32, pattern64-signed64, pattern32-signed32,
  pattern64-lt, pattern32-lt, pattern64, pattern32,
}
use trading_engine_hh.Base.Bytes.{
  IsByte, le_bytes, field_at, le_value-le_bytes, le_bytes-le_value, le_value-lt,
}
use trading_engine_hh.Dbn.{WireMbo, wire_size, wire_of_bytes, bytes_of_wire}

-- Each field lies in the range of its C++ type.
pub record IsWire (w : WireMbo) : Type 0 where
  pub length : w.length < 2 ^ 8
  pub rtype : w.rtype < 2 ^ 8
  pub publisher_id : w.publisher_id < 2 ^ 16
  pub instrument_id : w.instrument_id < 2 ^ 32
  pub ts_event : w.ts_event < 2 ^ 64
  pub order_id : w.order_id < 2 ^ 64
  pub price : IsI64 w.price
  pub size : w.size < 2 ^ 32
  pub flags : w.flags < 2 ^ 8
  pub channel_id : w.channel_id < 2 ^ 8
  pub action : w.action < 2 ^ 8
  pub side : w.side < 2 ^ 8
  pub ts_recv : w.ts_recv < 2 ^ 64
  pub ts_in_delta : IsI32 w.ts_in_delta
  pub sequence : w.sequence < 2 ^ 32

-- The object occupies exactly `sizeof(WireMbo)` bytes.
pub length-bytes_of_wire : (w : WireMbo) → length (bytes_of_wire w) ≡ wire_size
unfolding bytes_of_wire
length-bytes_of_wire w = refl

-- If each field of a wire record is in the range of its type, reading the bytes of the record
-- gives the record.
pub wire_of_bytes-bytes_of_wire : (w : WireMbo) → IsWire w → wire_of_bytes (bytes_of_wire w) ≡ w
unfolding bytes_of_wire
wire_of_bytes-bytes_of_wire w v = λ i. record {
  length = le_value-le_bytes 1 w.length v.length i;
  rtype = le_value-le_bytes 1 w.rtype v.rtype i;
  publisher_id = le_value-le_bytes 2 w.publisher_id v.publisher_id i;
  instrument_id = le_value-le_bytes 4 w.instrument_id v.instrument_id i;
  ts_event = le_value-le_bytes 8 w.ts_event v.ts_event i;
  order_id = le_value-le_bytes 8 w.order_id v.order_id i;
  price = price i;
  size = le_value-le_bytes 4 w.size v.size i;
  flags = le_value-le_bytes 1 w.flags v.flags i;
  channel_id = le_value-le_bytes 1 w.channel_id v.channel_id i;
  action = le_value-le_bytes 1 w.action v.action i;
  side = le_value-le_bytes 1 w.side v.side i;
  ts_recv = le_value-le_bytes 8 w.ts_recv v.ts_recv i;
  ts_in_delta = ts_in_delta i;
  sequence = le_value-le_bytes 4 w.sequence v.sequence i;
}
  where
    price : (wire_of_bytes (bytes_of_wire w)).price ≡ w.price
    price =
        rw (le_value-le_bytes 8 (pattern64 w.price) (pattern64-lt w.price v.price))
          (signed64-pattern64 w.price v.price)

    ts_in_delta : (wire_of_bytes (bytes_of_wire w)).ts_in_delta ≡ w.ts_in_delta
    ts_in_delta =
        rw
          (le_value-le_bytes 4 (pattern32 w.ts_in_delta) (pattern32-lt w.ts_in_delta v.ts_in_delta))
          (signed32-pattern32 w.ts_in_delta v.ts_in_delta)

module _ (bs : List ℕ) (size : length bs ≡ wire_size) (bytes : All IsByte bs) where
  -- The field at `o`, of `n` bytes, in front of what follows it.
  attach :
      (o n x : ℕ) (rest : List ℕ)
      → o + n ≤ 56
      → x ≡ field_at o n bs
      → rest ≡ drop (o + n) bs
      → le_bytes n x ++ rest ≡ drop o bs
  attach o n x rest h e r =
      rw
        (
          e,
          r,
          ← drop-drop n o bs,
          le_bytes-le_value n (take n (drop o bs))
              (omega (arith, size, length-take n (drop o bs), length-drop o bs))
              (All-take IsByte n _ (All-drop IsByte o bs bytes)),
        )
        (take-append-drop n (drop o bs))

  pub field_at-lt : (o n : ℕ) → o + n ≤ 56 → field_at o n bs < 256 ^ n
  field_at-lt o n h =
      rw exact at
        (le_value-lt (take n (drop o bs)) (All-take IsByte n _ (All-drop IsByte o bs bytes)))
    where
      exact : length (take n (drop o bs)) ≡ n
      exact = omega (arith, size, length-take n (drop o bs), length-drop o bs)

  -- Any 56 bytes are the bytes of the wire record that is read from them.
  pub bytes_of_wire-wire_of_bytes : bytes_of_wire (wire_of_bytes bs) ≡ bs
  unfolding bytes_of_wire
  bytes_of_wire-wire_of_bytes = attach 0 1 _ _ (omega arith) refl (
      attach 1 1 _ _ (omega arith) refl (
        attach 2 2 _ _ (omega arith) refl (
          attach 4 4 _ _ (omega arith) refl (
            attach 8 8 _ _ (omega arith) refl (
              attach 16 8 _ _ (omega arith) refl (
                attach 24 8 _ _ (omega arith)
                  (pattern64-signed64 _ (field_at-lt 24 8 (omega arith)))
                  (attach 32 4 _ _ (omega arith) refl
                    (attach 36 1 _ _ (omega arith) refl later))))))))
    where
      w : WireMbo
      w = wire_of_bytes bs

      last : le_bytes 4 w.sequence ≡ drop 52 bs
      last = rw append-nil at (
          attach 52 4 w.sequence [] (omega arith) refl (sym (drop_all 56 bs (omega (arith, size)))))

      later :
          le_bytes 1 w.channel_id
            ++ (le_bytes 1 w.action
                ++ (le_bytes 1 w.side
                    ++ (le_bytes 8 w.ts_recv
                        ++ (le_bytes 4 (pattern32 w.ts_in_delta) ++ le_bytes 4 w.sequence))))
          ≡ drop 37 bs
      later = attach 37 1 _ _ (omega arith) refl (
          attach 38 1 _ _ (omega arith) refl (
            attach 39 1 _ _ (omega arith) refl (
              attach 40 8 _ _ (omega arith) refl (
                attach 48 4 _ _ (omega arith)
                  (pattern32-signed32 _ (field_at-lt 48 4 (omega arith))) last))))
