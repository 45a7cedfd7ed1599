-- ===== src/EasySession.antt =====
-- src/pyrewire/session.py, the class `EasySession`: its fields, rows to and from the engine, single
-- inserts and removes, the calls with symbols, and what is read from the program parsed beside the
-- session.
pub mod Lifecycle
pub mod Cache
pub mod RoundTrip
pub mod Steps
use pyre_wire.Prelude.{
  ℕ, ◌<◌, String, Bool, true, false, Option, none, some, List, [], ◌∷◌, ◌++◌, map, length, ltb,
  if◌then◌else◌, string_eq,
}
use pyre_wire.Prelude.Int.{ℤ}
use pyre_wire.Prelude.Dict.{Dict, lookup, insert}
use pyre_wire.Python.Result.{
  Exc, Result, ok, err, value_error, type_error, wirelog, exec_error, is_exec_error, mode_error,
}
use pyre_wire.Python.Exec.{Exec, pure, raise, lift, modify, ◌>>=◌, ◌>>◌}
use pyre_wire.Python.Words.{c_int64, c_uint32, signed64}
use pyre_wire.Python.Value.{Value, int_of_bool}
use pyre_wire.Errors.{check}
use pyre_wire.Intern.{InternTable, InternFn, intern}
use pyre_wire.Program.{Program, ProgramLib, Schema, Column, schema, facts, decode_cell}
use pyre_wire.Session.Object.{Mode, Compound}
use pyre_wire.Callbacks.{Registry, CallbackHandle, Invocation}
use pyre_wire.Ffi.Types.{CompoundArgStruct, EasyOpenOptsStruct}

-- The functions `wirelog_easy_*` that these methods call, over the engine's state.
pub record EasyLib (W : Type 0) : Type 0 where
  pub intern_symbol : ℕ → String → W → ℤ × W
  pub insert_row : ℕ → String → List ℤ → ℕ → W → ℤ × W
  pub remove_row : ℕ → String → List ℤ → ℕ → W → ℤ × W
  pub insert_symbols : ℕ → String → List String → W → ℤ × W
  pub remove_symbols : ℕ → String → List String → W → ℤ × W
  pub open_opts : String → EasyOpenOptsStruct → W → (ℤ × ℕ) × W
  pub close : ℕ → W → W
  -- The callback argument is the `user_data` of the trampoline, or `none` for a NULL function.
  pub set_delta_cb : ℕ → Option ℕ → W → ℤ × W
  -- These two run the program: they also give the trampoline calls that they make.
  pub step : ℕ → W → (ℤ × List Invocation) × W
  pub snapshot : ℕ → String → ℕ → W → (ℤ × List Invocation) × W
  pub make_compound : ℕ → String → ℕ → List CompoundArgStruct → W → (ℤ × ℕ) × W
  pub program : ProgramLib W

-- An input that the engine may still read: the relation, and the cells or the symbols.
pub data Pending : Type 0 where
  row_input : String → List ℤ → Pending
  symbol_input : String → List String → Pending

-- The object, with what it shares with its caller: the compounds, the callback registry and the
-- engine.
pub record EasySession (W : Type 0) : Type 0 where
  pub handle : ℕ
  pub closed : Bool
  pub mode : Mode
  pub table : InternTable
  -- The keys of the session's compounds in the heap `objects`.
  pub compounds : List ℕ
  pub objects : ℕ → Compound
  pub next_object : ℕ
  pub schema_program : Option Program
  pub schema_cache : Dict String Schema
  pub delta_cb : Option CallbackHandle
  pub pending : List Pending
  pub registry : Registry
  pub world : W

module _ {W : Type 0} (fn : InternFn W) where
  unfoldable pub intern_value : String → Exec (InternTable × W) ℤ
  intern_value v s = let (r, t, w) = intern fn v s.0 s.1 in (r, (t, w))

  -- One value of `_row_to_int64`; the bits of a float travel as an int64.
  unfoldable pub encode_value : Value → Exec (InternTable × W) ℤ
  unfolding intern_value
  encode_value (Value.bool b) = pure (int_of_bool b)
  encode_value (Value.int n) = pure n
  encode_value (Value.float b) = pure (signed64 b)
  encode_value (Value.str s) = intern_value s
  encode_value (Value.object o) = raise type_error

  unfoldable pub row_to_int64 : List Value → Exec (InternTable × W) (List ℤ)
  row_to_int64 [] = pure []
  row_to_int64 (v ∷ vs) = do n ← encode_value v; ns ← row_to_int64 vs; pure (n ∷ ns)

  -- `for s in symbols: self._intern.intern(s)`
  unfoldable pub intern_all : List String → Exec (InternTable × W) (Unit {0})
  unfolding intern_value
  intern_all [] = pure tt
  intern_all (s ∷ ss) = do n ← intern_value s; intern_all ss

-- `out.append(...)` in front of what follows; the first exception is raised.
abbrev pub cons_value : Result Value → Result (List Value) → Result (List Value)
cons_value (ok v) (ok vs) = ok (v ∷ vs)
cons_value (ok v) (err e) = err e
cons_value (err e) r = err e

-- The cells of a row by the columns that there are; the cells past them are ints.
unfoldable pub decode_cells : InternTable → List Column → List ℤ → Result (List Value)
decode_cells t [] ns = ok (map (λ n. Value.int n) ns)
decode_cells t (c ∷ cs) [] = ok []
decode_cells t (c ∷ cs) (n ∷ ns) = cons_value (decode_cell (some t) c.type n) (decode_cells t cs ns)

-- What `_decode_row` makes of the result of `_schema_for`.
unfoldable pub decode_by : InternTable → Result Schema → List ℤ → Result (List Value)
decode_by t (ok s) ns = decode_cells t s.columns ns
decode_by t (err e) ns = if is_exec_error e then ok (map (λ n. Value.int n) ns) else err e

module _ {W : Type 0} (lib : EasyLib W) where
  -- `_intern_raw`
  abbrev pub intern_raw : ℕ → InternFn W
  intern_raw h v w = let (n, w') = lib.intern_symbol h v w in (ok n, w')

  -- A method that uses the intern table and the engine.
  abbrev with_table : {A : Type 0} → (ℕ → Exec (InternTable × W) A) → Exec (EasySession W) A
  with_table f s =
      let (r, tw) = f s.handle (s.table, s.world) in (r, record s { table = tw.0; world = tw.1 })

  unfoldable pub intern_string : String → Exec (EasySession W) ℤ
  unfolding intern_value
  intern_string v = with_table (λ h. intern_value (intern_raw h) v)

  abbrev pub call_easy : (ℕ → W → ℤ × W) → Exec (EasySession W) (Unit {0})
  call_easy f s = let (rc, w) = f s.handle s.world in (check rc, record s { world = w })

  -- The common body of `insert` and `remove`: the input is kept once the engine has accepted it.
  unfoldable pub row_iud :
      (ℕ → String → List ℤ → ℕ → W → ℤ × W) → String → List Value → Exec (EasySession W) (Unit {0})
  row_iud fn relation row = do
    ids ← with_table (λ h. row_to_int64 (intern_raw h) row)
    call_easy (λ h. fn h relation (map c_int64 ids) (c_uint32 (length ids)))
    modify
        (λ s. record s { pending = s.pending ++ Pending.row_input relation (map c_int64 ids) ∷ [] })

  unfoldable pub easy_insert : String → List Value → Exec (EasySession W) (Unit {0})
  easy_insert = row_iud lib.insert_row

  unfoldable pub easy_remove : String → List Value → Exec (EasySession W) (Unit {0})
  easy_remove = row_iud lib.remove_row

  easy_mode_from : Mode → Mode → Exec (EasySession W) (Unit {0})
  easy_mode_from Mode.unset want s = (ok tt, record s { mode = want })
  easy_mode_from Mode.incremental Mode.incremental s = (ok tt, s)
  easy_mode_from Mode.query Mode.query s = (ok tt, s)
  easy_mode_from _ _ s = (err (wirelog mode_error), s)

  -- `_require_mode(want)`
  unfoldable pub easy_require_mode : Mode → Exec (EasySession W) (Unit {0})
  unfolding easy_mode_from
  easy_require_mode want s = easy_mode_from s.mode want s

  abbrev pub sym_max : ℕ
  sym_max = 16

  limit_symbols : List String → Exec (EasySession W) (Unit {0})
  limit_symbols symbols = if ltb sym_max (length symbols) then raise value_error else pure tt

  -- `_sym_call`
  unfoldable pub sym_call :
      (ℕ → String → List String → W → ℤ × W)
      → String
      → List String
      → Exec (EasySession W) (Unit {0})
  unfolding limit_symbols
  sym_call fn relation symbols = do
    easy_require_mode Mode.incremental
    limit_symbols symbols
    call_easy (λ h. fn h relation symbols)
    modify (λ s. record s { pending = s.pending ++ Pending.symbol_input relation symbols ∷ [] })
    with_table (λ h. intern_all (intern_raw h) symbols)

  unfoldable pub insert_sym : String → List String → Exec (EasySession W) (Unit {0})
  insert_sym = sym_call lib.insert_symbols

  unfoldable pub remove_sym : String → List String → Exec (EasySession W) (Unit {0})
  remove_sym = sym_call lib.remove_symbols

  -- A schema that the parsed program gives is cached.
  cache_schema : String → Result (Option Schema) → Exec (EasySession W) Schema
  cache_schema relation (err e) s = (err e, s)
  cache_schema relation (ok none) s = (err (wirelog exec_error), s)
  cache_schema relation (ok (some sch)) s =
      (ok sch, record s { schema_cache = insert relation sch s.schema_cache })

  schema_from : String → Option Schema → Option Program → Exec (EasySession W) Schema
  unfolding cache_schema
  schema_from relation (some sch) p s = (ok sch, s)
  schema_from relation none none s = (err (wirelog exec_error), s)
  schema_from relation none (some p) s =
      cache_schema relation (schema lib.program p relation s.world) s

  -- `_schema_for(relation)`
  unfoldable pub schema_for : String → Exec (EasySession W) Schema
  unfolding schema_from
  schema_for relation s = schema_from relation (lookup relation s.schema_cache) s.schema_program s

  -- `_decode_row(relation, ids)`
  unfoldable pub easy_decode_row : String → List ℤ → Exec (EasySession W) (List Value)
  easy_decode_row relation ids s =
      let (r, s') = schema_for relation s in (decode_by s'.table r ids, s')

  or_no_rows : Result (List (List Value)) → Result (List (List Value))
  or_no_rows (ok rows) = ok rows
  or_no_rows (err e) = if is_exec_error e then ok [] else err e

  preview_from : String → Option Program → Exec (EasySession W) (List (List Value))
  unfolding or_no_rows
  preview_from relation none s = (ok [], s)
  preview_from relation (some p) s =
      let (r, w) = facts lib.program p relation (some s.table) s.world in
      (or_no_rows r, record s { world = w })

  -- `preview_inline_facts(relation)`
  unfoldable pub easy_preview : String → Exec (EasySession W) (List (List Value))
  unfolding preview_from
  easy_preview relation s = preview_from relation s.schema_program s

  -- `insert_with_dedupe(relation, row)`, with Python's test of a tuple in a set of tuples.
  unfoldable pub insert_with_dedupe :
      (List Value → List (List Value) → Result Bool)
      → String
      → List Value
      → Exec (EasySession W) Bool
  insert_with_dedupe is_in relation row = do
    existing ← easy_preview relation
    found ← lift (is_in row existing)
    if found then pure false else (do easy_insert relation row; pure true)
