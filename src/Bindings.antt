-- ===== src/Bindings.antt =====
-- core/bindings/bindings.cpp: what the Python module offers. pybind11, which builds the module from it, is
-- not modelled.
use Prim.Native.String.{String, ◌++◌}
use trading_engine_hh.Base.{List, [], ◌∷◌}
use trading_engine_hh.Version.{version}

abbrev ping : String
ping = "pong from trading_sim core v" ++ version

-- `m.def(name, &call, doc)`.
record Binding : Type 0 where
  name : String
  call : Unit {0} → String
  doc : String

record PythonModule : Type 0 where
  name : String
  doc : String
  functions : List Binding

abbrev trading_sim : PythonModule
trading_sim = record {
  name = "trading_sim";
  doc = "trading_sim — C++ core bindings (skeleton)";
  functions =
      record {
        name = "ping";
        call = λ u. ping;
        doc = "Liveness check; returns a string produced by the C++ core.";
      }
      ∷ [];
}
