-- ===== src/Ffi/Prototypes.antt =====
-- The prototypes that the modules below src/pyrewire/_ffi give the engine's functions: what ctypes
-- knows of a function's result and arguments. Tables has the declarations of each module, Structures
-- the shapes behind the pointers, and Imports what importing the package does.
pub mod Structures
pub mod Tables
pub mod Imports
use pyre_wire.Prelude.{
  String, Bool, true, false, ◌&&◌, Option, none, some, List, [], ◌∷◌, ◌++◌, ◌==◌, string_eq,
  if◌then◌else◌,
}
use pyre_wire.Prelude.Dict.{Dict, lookup, insert}

-- A type of ctypes; a class that the package derives from one goes by its name.
pub data CType : Type 0 where
  simple structure function : String → CType
  pointer : CType → CType

-- `none` as a result is `None`, a void function; `none` as the arguments is an unset `argtypes`.
pub record Prototype : Type 0 where
  pub restype : Option CType
  pub argtypes : Option (List CType)

abbrev pub Table : Type 0
Table = Dict String Prototype

-- The assignments to one function's `restype` and `argtypes`; `like f r g` takes over those of `g`.
pub data Declaration : Type 0 where
  declare : String → Option CType → List CType → Declaration
  like : String → Option CType → String → Declaration
  result_only : String → Option CType → Declaration

unfoldable pub name_of : Declaration → String
name_of (declare f r args) = f
name_of (like f r g) = f
name_of (result_only f r) = f

-- The `argtypes` of a function; a function that nothing was assigned to has none.
unfoldable pub argtypes_of : Option Prototype → Option (List CType)
argtypes_of none = none
argtypes_of (some p) = p.argtypes

unfoldable pub prototype_of : Declaration → Table → Prototype
prototype_of (declare f r args) t = record { restype = r; argtypes = some args }
prototype_of (like f r g) t = record { restype = r; argtypes = argtypes_of (lookup g t) }
prototype_of (result_only f r) t = record { restype = r; argtypes = none }

unfoldable pub assign : Declaration → Table → Table
assign d t = insert (name_of d) (prototype_of d t) t

-- An import ends with the table, or with the `AttributeError` of a symbol that is not exported.
pub data Imported : Type 0 where
  registered : Table → Imported
  missing_symbol : String → Imported

-- The declarations in their order, on an engine that exports the given symbols.
unfoldable pub register : (String → Bool) → List Declaration → Table → Imported
register exports [] t = registered t
register exports (d ∷ ds) t =
    if exports (name_of d) then register exports ds (assign d t) else missing_symbol (name_of d)

-- `if hasattr(...):` around declarations.
unfoldable pub guarded : Bool → List Declaration → List Declaration
guarded true ds = ds
guarded false ds = []

-- Each of the declarations under a test for its own symbol.
unfoldable pub optional : (String → Bool) → List Declaration → List Declaration
unfolding guarded
optional exports [] = []
optional exports (d ∷ ds) = guarded (exports (name_of d)) (d ∷ []) ++ optional exports ds
