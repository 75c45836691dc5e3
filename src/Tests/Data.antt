-- ===== src/Tests/Data.antt =====
-- A small DBN file and a source over it.
use trading_engine_hh.Base.{ℕ, ◌<◌, ◌^◌, refl, true, List, [], ◌∷◌, ◌++◌, take, drop, All, arith}
use trading_engine_hh.Base.Int.{pos, negsuc}
use trading_engine_hh.Dbn.{WireMbo, bytes_of_wire}
use trading_engine_hh.Dbn.Wire.{IsWire}
use trading_engine_hh.Route.{k_mbo_rtype}
use trading_engine_hh.Stream.RoundTrip.{IsMboWire, bytes_of_wires}
use trading_engine_hh.Source.{ByteSource, IsOrderly, IStream, file_source}
use trading_engine_hh.Source.File.{ReadsFile, file_source-IsOrderly}
use trading_engine_hh.Ingest.Whole.{IsDbn}

-- An added bid at a negative price.
abbrev pub added : WireMbo
added = record {
  length = 14;
  rtype = k_mbo_rtype;
  publisher_id = 2;
  instrument_id = 7;
  ts_event = 1000;
  order_id = 42;
  price = negsuc 4;
  size = 10;
  flags = 130;
  channel_id = 1;
  action = b'A';
  side = b'B';
  ts_recv = 1001;
  ts_in_delta = pos 3;
  sequence = 9;
}

-- The same with an action that is not in the alphabet.
abbrev pub unknown : WireMbo
unknown = record added { action = b'X' }

abbrev pub wires : List WireMbo
wires = added ∷ unknown ∷ added ∷ []

acted-IsWire : (c : ℕ) → c < 2 ^ 8 → IsWire (record added { action = c })
acted-IsWire c h = record {
  length = omega arith;
  rtype = omega arith;
  publisher_id = omega arith;
  instrument_id = omega arith;
  ts_event = omega arith;
  order_id = omega arith;
  price = omega arith;
  size = omega arith;
  flags = omega arith;
  channel_id = omega arith;
  action = h;
  side = omega arith;
  ts_recv = omega arith;
  ts_in_delta = omega arith;
  sequence = omega arith;
}

pub added-IsWire : IsWire added
added-IsWire = acted-IsWire b'A' (omega arith)

pub wires-IsMboWire : All IsMboWire wires
wires-IsMboWire = (
  (added-IsWire, refl, refl),
  ((acted-IsWire b'X' (omega arith), refl, refl), ((added-IsWire, refl, refl), tt)),
)

-- `DBN`, version 1, four bytes of metadata.
abbrev pub header : List ℕ
header = b'D' ∷ b'B' ∷ b'N' ∷ 1 ∷ 4 ∷ 0 ∷ 0 ∷ 0 ∷ []

abbrev pub metadata : List ℕ
metadata = 11 ∷ 12 ∷ 13 ∷ 14 ∷ []

-- A record of another type, 8 bytes long.
abbrev pub other : List ℕ
other = 2 ∷ 23 ∷ 0 ∷ 0 ∷ 5 ∷ 0 ∷ 0 ∷ 0 ∷ []

-- Three records, and two bytes of a fourth.
abbrev pub file : List ℕ
file = header ++ (metadata ++ (bytes_of_wires wires ++ (14 ∷ 160 ∷ [])))

pub dbn : IsDbn header metadata
dbn = record { size = refl; magic = (refl, refl, refl); version = refl; metadata_size = refl }

-- A stream that reads the bytes that it is, in the way of `std::ifstream`.
abbrev pub io : IStream (List ℕ) (List ℕ)
io = record { open_binary = λ p. p; is_good = λ f. true; fill = λ f n. (take n f, drop n f) }

pub io-ReadsFile : ReadsFile io (λ f. f)
io-ReadsFile = record { stores = λ f n. refl; advances = λ f n. refl }

abbrev pub source : ByteSource (List ℕ)
source = file_source io

abbrev pub left : List ℕ → List ℕ
left f = f

pub source-IsOrderly : IsOrderly source left
source-IsOrderly = file_source-IsOrderly io left io-ReadsFile

-- A record to pass over, one that is emitted, and a part of one.
abbrev pub records : List ℕ
records = other ++ (bytes_of_wire added ++ (14 ∷ []))

-- A record of no words.
abbrev pub corrupt_bytes : List ℕ
corrupt_bytes = 0 ∷ 160 ∷ 3 ∷ []
