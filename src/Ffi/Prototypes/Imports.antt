-- ===== src/Ffi/Prototypes/Imports.antt =====
-- Importing the package on a given engine: which declarations are made, and what stops it.
use pyre_wire.Prelude.{String, Bool, true, ◌≡◌, inl, inr, refl, List, [], ◌∷◌, ◌++◌, Bool-cases}
use pyre_wire.Ffi.Prototypes.{Declaration, name_of, Table, assign, Imported, registered, register}
use pyre_wire.Ffi.Prototypes.Tables.{
  executor_declarations, parser_declarations, optimizer_declarations, ir_declarations,
  session_declarations, easy_declarations, io_declarations, package_declarations,
}

-- `import pyrewire`
unfoldable pub import_package : (String → Bool) → Imported
import_package exports = register exports (package_declarations exports) []

-- Every function of the list is exported.
abbrev pub Exports : (String → Bool) → List Declaration → Type 0
Exports exports [] = Unit
Exports exports (d ∷ ds) = (exports (name_of d) ≡ true) × Exports exports ds

-- The table that the declarations leave.
unfoldable pub assign_all : List Declaration → Table → Table
assign_all [] t = t
assign_all (d ∷ ds) t = assign_all ds (assign d t)

-- The declarations under no guard: what every engine must export.
abbrev pub required : List Declaration
required =
    executor_declarations
    ++ (parser_declarations
        ++ (optimizer_declarations
            ++ (ir_declarations
                ++ (session_declarations ++ (easy_declarations ++ io_declarations)))))

module _ (exports : String → Bool) where
  register-Exports :
      (ds : List Declaration) (t : Table)
      → Exports exports ds
      → register exports ds t ≡ registered (assign_all ds t)
  unfolding register assign_all
  register-Exports [] t all = refl
  register-Exports (d ∷ ds) t (here, rest) = rw here (register-Exports ds (assign d t) rest)

  Exports-register :
      (ds : List Declaration) (t : Table) {u : Table}
      → register exports ds t ≡ registered u
      → Exports exports ds
  unfolding register
  Exports-register [] t ran = tt
  Exports-register (d ∷ ds) t ran = elim (Bool-cases (exports (name_of d))) [
    | inl here ↦ (here, Exports-register ds (assign d t) (rw here at ran))
    | inr gone ↦ absurd (cc (gone, ran))
  ]

  pub import_package-registers :
      {t : Table}
      → import_package exports ≡ registered t
      → t ≡ assign_all (package_declarations exports) []
  unfolding import_package
  import_package-registers ran =
      cc (ran, register-Exports (package_declarations exports) [] (Exports-register _ [] ran))
