-- ===== src/IoAdapter.antt =====
-- src/pyrewire/io_adapter.py: the callbacks by which the engine reads a relation from an adapter of
-- the user's, and the registry that keeps the adapters alive.
pub mod Context
pub mod Messages
pub mod Reading
pub mod Stopping
pub mod Registry
use pyre_wire.Prelude.{
  ℕ, zero, suc, ◌+◌, ◌-◌, ◌*◌, min, String, Bool, true, false, not, ◌&&◌, Option, none, some, List,
  [], ◌∷◌, map, length, get_or, ltb, ◌==◌, nat_eq, string_eq, if◌then◌else◌,
}
use pyre_wire.Prelude.Int.{ℤ, pos, negsuc, int_eq}
use pyre_wire.Prelude.Dict.{Dict, lookup, insert, erase, contains}
use pyre_wire.Python.Result.{Exc, Result, ok, err, value_error, wirelog, io_error, is_exception}
use pyre_wire.Python.Words.{c_uint32}
use pyre_wire.Python.Value.{Number}
use pyre_wire.Ffi.Enums.{ColumnType, column_type, of_int}
use pyre_wire.Session.Rows.{write_row}

-- What the engine finds in `out_data` and `out_nrows`: an address, 0 for NULL, the cells there, and the
-- number of rows.
pub record Buffer : Type 0 where
  pub address : ℕ
  pub cells : ℕ → ℤ
  pub nrows : ℕ

-- How a callback ends: it returns a code, with what it has put in the out-parameters, if anything; or
-- it raises, and then it returns no code of its own and has put nothing there. What the engine gets
-- from a ctypes callback that raises is up to ctypes.
pub data Ending : Type 0 where
  returned : ℤ → Option Buffer → Ending
  raised : Exc → Ending

-- The loop over the rows: all are written, or one has another length, or a value is no int.
pub data Filled : Type 0 where
  filled : (ℕ → ℤ) → Filled
  ragged : Filled
  failed : Exc → Filled

-- `for i, row in enumerate(rows)`, from row `i` on.
unfoldable pub fill_rows : ℕ → ℕ → List (List Number) → (ℕ → ℤ) → Filled
fill_rows ncols i [] cells = filled cells
fill_rows ncols i (r ∷ rs) cells =
    if not (length r == ncols) then ragged else elim (write_row (i * ncols) r cells) [
      | ok cells' ↦ fill_rows ncols (i + 1) rs cells'
      | err e ↦ failed e
    ]

-- The end of `_read` after the loop.
unfoldable pub read_end : ℕ → ℕ → Filled → Ending
read_end address n (filled cells) =
    returned (pos 0) (some (record { address = address; cells = cells; nrows = c_uint32 n }))
read_end address n ragged = returned (negsuc 0) none
read_end address n (failed e) = raised e

-- `ctypes.sizeof(ctypes.c_int64)`
abbrev pub cell_size : ℕ
cell_size = 8

-- libc's `malloc`: an address, 0 where it fails, and what the memory holds.
abbrev pub Malloc : Type 0 → Type 0
Malloc W = ℕ → W → (ℕ × (ℕ → ℤ)) × W

-- Rows in a buffer of `malloc`, which the engine frees once it has it.
unfoldable pub read_allocated : {W : Type 0} → Malloc W → ℕ → List (List Number) → W → Ending × W
read_allocated malloc ncols rows w =
    let ((address, cells), w') = malloc (length rows * ncols * cell_size) w in
    (
      if address == 0
          then returned (negsuc 0) none
          else read_end address (length rows) (fill_rows ncols 0 rows cells),
      w',
    )

-- `_read`, with what the adapter's `read` returns or raises and the engine's number of columns.
unfoldable pub read_callback :
    {W : Type 0} → Malloc W → ℕ → Result (List (List Number)) → W → Ending × W
read_callback malloc ncols (err e) w = (returned (negsuc 0) none, w)
read_callback malloc ncols (ok []) w =
    (returned (pos 0) (some (record { address = 0; cells = λ i. pos 0; nrows = 0 })), w)
read_callback malloc ncols (ok (r ∷ rs)) w = read_allocated malloc ncols (r ∷ rs) w

-- Bytes in memory from an index on.
unfoldable pub put_bytes : List ℕ → ℕ → (ℕ → ℕ) → ℕ → ℕ
put_bytes [] k memory i = memory i
put_bytes (b ∷ bs) k memory i = if k == i then b else put_bytes bs (k + 1) memory i

abbrev pub take_bytes : ℕ → List ℕ → List ℕ
take_bytes zero bs = []
take_bytes (suc n) [] = []
take_bytes (suc n) (b ∷ bs) = b ∷ take_bytes n bs

-- `min(len(msg), max(0, int(errbuf_len) - 1))`; a subtraction on ℕ stops at 0.
abbrev pub message_size : List ℕ → ℕ → ℕ
message_size message size = min (length message) (size - 1)

-- `memmove(errbuf, msg[:n], n)` and then the NUL at `n`, in the memory of a buffer of that size; a NULL
-- buffer is one that is not there.
unfoldable pub write_message : List ℕ → Bool → ℕ → (ℕ → ℕ) → ℕ → ℕ
write_message message there size memory =
    let n = message_size message size in
    if not (n == 0) && there
    then put_bytes (0 ∷ []) n (put_bytes (take_bytes n message) 0 memory)
    else memory

-- `_validate`: what the user's method does, and the bytes of `str(exc)` of what it raises.
unfoldable pub validate_callback :
    Result (Unit {0}) → (Exc → Result (List ℕ)) → Bool → ℕ → (ℕ → ℕ) → Result ℤ × (ℕ → ℕ)
validate_callback (ok _) text there size memory = (ok (pos 0), memory)
validate_callback (err e) text there size memory = elim (text e) [
  | ok message ↦ (ok (negsuc 0), write_message message there size memory)
  | err f ↦ (if is_exception f then ok (negsuc 0) else err f, memory)
]

-- `ctx.col_type(col)`, of the code that the engine gives.
unfoldable pub context_col_type : ℤ → Result ColumnType
context_col_type = of_int column_type

-- `WIRELOG_IO_ABI_VERSION`
abbrev pub io_abi_version : ℕ
io_abi_version = 2

-- The ctypes functions that `_build_read_cfunc` and `_build_validate_cfunc` make for an object of the
-- user's; `noop` is that of an object with no method `validate`.
pub data Cfunc (I : Type 0) : Type 0 where
  read_of validate_of : I → Cfunc I
  noop : Cfunc I

unfoldable pub build_validate_cfunc : {I : Type 0} → Bool → I → Cfunc I
build_validate_cfunc true i = validate_of i
build_validate_cfunc false i = noop

-- `IOAdapterStruct`: pointers to `bytes`, which are given by their text, and to functions.
pub record AdapterStruct (I : Type 0) : Type 0 where
  pub abi_version : ℕ
  pub scheme : String
  pub description : String
  pub read : Cfunc I
  pub validate : Cfunc I
  pub user_data : Option ℕ

-- `_Registration`
pub record Registration (I : Type 0) : Type 0 where
  pub scheme_bytes : String
  pub description_bytes : String
  pub adapter_struct : AdapterStruct I
  pub read_cfunc : Cfunc I
  pub validate_cfunc : Cfunc I
  pub py_instance : I

-- The functions of the engine that keep adapters, and whether an object has the method `validate`.
pub record AdapterLib (I W : Type 0) : Type 0 where
  pub register : AdapterStruct I → W → ℤ × W
  pub unregister : String → W → ℤ × W
  pub has_validate : I → Bool

-- `_REGISTRY` and the engine.
pub record Adapters (I W : Type 0) : Type 0 where
  pub registry : Dict String (Registration I)
  pub world : W

module _ {I W : Type 0} (lib : AdapterLib I W) where
  -- What follows the engine's answer: a failure is a `WirelogIOError`.
  abbrev pub keep_if :
      Bool → String → Registration I → W → Adapters I W → Result (Unit {0}) × Adapters I W
  keep_if true scheme r w a = (ok tt, record { registry = insert scheme r a.registry; world = w })
  keep_if false scheme r w a = (err (wirelog io_error), record a { world = w })

  abbrev pub keep :
      String → Registration I → ℤ × W → Adapters I W → Result (Unit {0}) × Adapters I W
  keep scheme r (rc, w) a = keep_if (rc == pos 0) scheme r w a

  -- What the decorator builds for the class's object.
  unfoldable pub registration : String → String → I → Registration I
  registration scheme description i =
      let validate_fn = build_validate_cfunc (lib.has_validate i) i in
      record {
        scheme_bytes = scheme;
        description_bytes = description;
        adapter_struct = record {
          abi_version = io_abi_version;
          scheme = scheme;
          description = description;
          read = Cfunc.read_of i;
          validate = validate_fn;
          user_data = none;
        };
        read_cfunc = Cfunc.read_of i;
        validate_cfunc = validate_fn;
        py_instance = i;
      }

  -- The decorator, with what making the class's object does.
  unfoldable pub register_made :
      String → String → Result I → Adapters I W → Result (Unit {0}) × Adapters I W
  register_made scheme description (err e) a = (err e, a)
  register_made scheme description (ok i) a =
      let r = registration scheme description i in
      keep scheme r (lib.register r.adapter_struct a.world) a

  -- `register_adapter(scheme, description)` on a class.
  unfoldable pub register_adapter :
      String → String → Result I → Adapters I W → Result (Unit {0}) × Adapters I W
  register_adapter scheme description made a =
      if scheme == "" then (err value_error, a) else register_made scheme description made a

  abbrev pub drop_if : Bool → String → W → Adapters I W → Result (Unit {0}) × Adapters I W
  drop_if true scheme w a = (ok tt, record { registry = erase scheme a.registry; world = w })
  drop_if false scheme w a = (err (wirelog io_error), record a { world = w })

  abbrev pub drop : String → ℤ × W → Adapters I W → Result (Unit {0}) × Adapters I W
  drop scheme (rc, w) a = drop_if (rc == pos 0) scheme w a

  -- `unregister_adapter(scheme)`
  unfoldable pub unregister_adapter : String → Adapters I W → Result (Unit {0}) × Adapters I W
  unregister_adapter scheme a =
      if contains scheme a.registry
      then drop scheme (lib.unregister scheme a.world) a
      else (ok tt, a)

-- `registered_schemes()`
unfoldable pub registered_schemes : {I W : Type 0} → Adapters I W → List String
registered_schemes a = map (λ (scheme, r). scheme) a.registry
