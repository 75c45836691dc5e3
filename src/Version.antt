-- ===== src/Version.antt =====
-- core/src/version.cpp and core/include/trading_sim/version.hpp.
use Prim.Native.String.{String}

abbrev pub version : String
version = "0.0.0"
