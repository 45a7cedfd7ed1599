-- ===== src/Tests/OfPrototypes.antt =====
-- An engine that is older than the typed rows (src/pyrewire/_ffi).
use pyre_wire.Prelude.{String, Bool, not, ◌==◌, string_eq}

abbrev older_engine : String → Bool
older_engine f = not (f == "wirelog_session_insert_typed")
