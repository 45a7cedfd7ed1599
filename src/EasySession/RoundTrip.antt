-- ===== src/EasySession/RoundTrip.antt =====
-- Rows of an `EasySession` to the engine's ids and back (src/pyrewire/session.py).
use pyre_wire.Prelude.{
  ◌<◌, ◌≡◌, refl, sym, subst, ap, ap₂, ◌∙◌, String, true, false, some, List, [], ◌∷◌, All, map,
  arith, string_eq,
}
use pyre_wire.Prelude.Int.{ℤ, int_eq}
use pyre_wire.Prelude.Dict.{lookup}
use pyre_wire.Python.Result.{Result, ok, err, ok-injective}
use pyre_wire.Python.Exec.{Exec, continue, pure, ◌>>=◌}
use pyre_wire.Python.Words.{mask64-signed64, signed64-mask64, c_int64, IsInt64, word_mod}
use pyre_wire.Python.Value.{Value}
use pyre_wire.Ffi.Enums.{ColumnType}
use pyre_wire.Intern.{InternTable, lookup_id, found}
use pyre_wire.Intern.Mirror.{Interner, Mirrors, intern-Mirrors, forward-intern, intern-forward}
use pyre_wire.Program.{Column, decode_cell, decode_symbol}
use pyre_wire.EasySession.{encode_value, row_to_int64, decode_cells, cons_value, intern_value}

-- A value that a column of the type holds.
abbrev pub IsCellOf : ColumnType → Value → Type 0
IsCellOf ColumnType.string (Value.str s) = Unit
IsCellOf ColumnType.bool (Value.bool b) = Unit
IsCellOf ColumnType.float (Value.float b) = b < word_mod
IsCellOf ColumnType.int32 (Value.int n) = Unit
IsCellOf ColumnType.int64 (Value.int n) = Unit
IsCellOf ColumnType.uint32 (Value.int n) = Unit
IsCellOf ColumnType.uint64 (Value.int n) = Unit
IsCellOf _ _ = ⊥

-- A row as wide as the columns, with a value for each.
abbrev pub IsRowFor : List Column → List Value → Type 0
IsRowFor [] [] = Unit
IsRowFor (c ∷ cs) (v ∷ vs) = IsCellOf c.type v × IsRowFor cs vs
IsRowFor _ _ = ⊥

map-c_int64 : (ns : List ℤ) → All IsInt64 ns → map c_int64 ns ≡ ns
unfolding c_int64
map-c_int64 [] all = refl
map-c_int64 (n ∷ ns) (here, rest) =
    ap₂ (λ x xs. x ∷ xs) (signed64-mask64 n here) (map-c_int64 ns rest)

decode_cons :
    (t : InternTable) (c : Column) (n : ℤ) (v : Value) (cs : List Column) (ns : List ℤ)
    (vs : List Value)
    → decode_cell (some t) c.type n ≡ ok v
    → decode_cells t cs ns ≡ ok vs
    → decode_cells t (c ∷ cs) (n ∷ ns) ≡ ok (v ∷ vs)
unfolding decode_cells
decode_cons t c n v cs ns vs cell cells = ap₂ cons_value cell cells

module _ {W : Type 0} (engine : Interner W) where
  -- What an interning action keeps: the mirror, and every string that is cached.
  record Grows {A : Type 0} (m : Exec (InternTable × W) A) : Type 0 where
    mirrors :
        (t : InternTable) (w : W)
        → Mirrors engine t w
        → Mirrors engine (m (t, w)).1.0 (m (t, w)).1.1
    cached :
        (t : InternTable) (w : W) (u : String) (n : ℤ)
        → lookup u t.forward ≡ some n
        → lookup u (m (t, w)).1.0.forward ≡ some n

  encode_value-Grows : (v : Value) → Grows (encode_value engine.intern_fn v)
  unfolding encode_value intern_value
  encode_value-Grows (Value.str s) = record {
    mirrors = λ t w m. intern-Mirrors engine t w s m;
    cached = λ t w u n h. forward-intern engine t w u s h;
  }
  encode_value-Grows (Value.bool b) = record { mirrors = λ t w m. m; cached = λ t w u n h. h }
  encode_value-Grows (Value.int k) = record { mirrors = λ t w m. m; cached = λ t w u n h. h }
  encode_value-Grows (Value.float b) = record { mirrors = λ t w m. m; cached = λ t w u n h. h }
  encode_value-Grows (Value.object o) = record { mirrors = λ t w m. m; cached = λ t w u n h. h }

  >>=-Grows :
      {A B : Type 0} (m : Exec (InternTable × W) A) (f : A → Exec (InternTable × W) B)
      → Grows m
      → ((a : A) → Grows (f a))
      → Grows (m >>= f)
  >>=-Grows m f gm gf = record {
    mirrors = λ t w h. continue_mirrors (m (t, w)).0 f (m (t, w)).1 gf (gm.mirrors t w h);
    cached = λ t w u n h. continue_cached (m (t, w)).0 f (m (t, w)).1 u n gf (gm.cached t w u n h);
  }
    where
      continue_mirrors :
          {A B : Type 0} (r : Result A) (f : A → Exec (InternTable × W) B) (s : InternTable × W)
          → ((a : A) → Grows (f a))
          → Mirrors engine s.0 s.1
          → Mirrors engine (continue r f s).1.0 (continue r f s).1.1
      continue_mirrors (ok a) f s g h = (g a).mirrors s.0 s.1 h
      continue_mirrors (err e) f s g h = h

      continue_cached :
          {A B : Type 0} (r : Result A) (f : A → Exec (InternTable × W) B) (s : InternTable × W)
          (u : String) (n : ℤ)
          → ((a : A) → Grows (f a))
          → lookup u s.0.forward ≡ some n
          → lookup u (continue r f s).1.0.forward ≡ some n
      continue_cached (ok a) f s u n g h = (g a).cached s.0 s.1 u n h
      continue_cached (err e) f s u n g h = h

  pure-Grows : {A : Type 0} (a : A) → Grows (pure a)
  pure-Grows a = record { mirrors = λ t w h. h; cached = λ t w u n h. h }

  row_to_int64-Grows : (vs : List Value) → Grows (row_to_int64 engine.intern_fn vs)
  unfolding row_to_int64
  row_to_int64-Grows [] = pure-Grows []
  row_to_int64-Grows (v ∷ vs) =
      >>=-Grows (encode_value engine.intern_fn v) _ (encode_value-Grows v) (λ n.
        >>=-Grows (row_to_int64 engine.intern_fn vs) _ (row_to_int64-Grows vs)
          (λ ns. pure-Grows (n ∷ ns)))

  -- A later table, in which every string of the earlier one is still cached.
  Later : InternTable → InternTable → Type 0
  Later t t' = (u : String) (n : ℤ) → lookup u t.forward ≡ some n → lookup u t'.forward ≡ some n

  -- The cell of an encoded value, read with a later table.
  decode_cell_lem :
      (c : ColumnType) (v : Value) (s : InternTable × W) (n : ℤ) (t : InternTable) (w : W)
      → IsCellOf c v
      → (encode_value engine.intern_fn v s).0 ≡ ok n
      → Mirrors engine t w
      → Later (encode_value engine.intern_fn v s).1.0 t
      → decode_cell (some t) c n ≡ ok v
  unfolding decode_cell decode_symbol encode_value intern_value lookup_id found Later
  decode_cell_lem ColumnType.string (Value.str x) s n t w fits h m later =
      let reversed = (m.inverse x n).0 (later x n (intern-forward engine s.0 s.1 x h)) in
      rw reversed refl
  decode_cell_lem ColumnType.bool (Value.bool true) s n t w fits h m later = ground (arith, h)
  decode_cell_lem ColumnType.bool (Value.bool false) s n t w fits h m later = ground (arith, h)
  decode_cell_lem ColumnType.float (Value.float b) s n t w fits h m later =
      ground (arith, h, mask64-signed64 b fits)
  decode_cell_lem ColumnType.int32 (Value.int k) s n t w fits h m later = ground (arith, h)
  decode_cell_lem ColumnType.int64 (Value.int k) s n t w fits h m later = ground (arith, h)
  decode_cell_lem ColumnType.uint32 (Value.int k) s n t w fits h m later = ground (arith, h)
  decode_cell_lem ColumnType.uint64 (Value.int k) s n t w fits h m later = ground (arith, h)
  decode_cell_lem _ _ s n t w fits h m later = absurd fits

  continue_ok :
      {A B : Type 0} (r : Result A) (f : A → Exec (InternTable × W) B) (s : InternTable × W) {b : B}
      → (continue r f s).0 ≡ ok b
      → (a : A) × (r ≡ ok a) × ((f a s).0 ≡ ok b) × (continue r f s ≡ f a s)
  continue_ok (ok a) f s h = (a, refl, h, refl)
  continue_ok (err e) f s h = absurd (cc)

  row_lem :
      (cs : List Column) (vs : List Value) (s : InternTable × W) (ids : List ℤ) (t : InternTable)
      (w : W)
      → IsRowFor cs vs
      → (row_to_int64 engine.intern_fn vs s).0 ≡ ok ids
      → Mirrors engine t w
      → Later (row_to_int64 engine.intern_fn vs s).1.0 t
      → decode_cells t cs ids ≡ ok vs
  unfolding row_to_int64 decode_cells Later
  row_lem [] [] s ids t w fits h m later = rw (← ok-injective h) refl
  row_lem (c ∷ cs) (v ∷ vs) s ids t w fits h m later =
      let fn = engine.intern_fn in
      let s1 = (encode_value fn v s).1 in
      let s2 = (row_to_int64 fn vs s1).1 in
      let (n, first, h1, run1) = continue_ok (encode_value fn v s).0 _ s1 h in
      let (ns, rest, h2, run2) =
        continue_ok (row_to_int64 fn vs s1).0 (λ ns. pure (n ∷ ns)) s2 h1 in
      let end : s2.0 ≡ (row_to_int64 fn (v ∷ vs) s).1.0 = ap (λ x. x.1.0) (sym run2 ∙ sym run1) in
      let later2 : Later s2.0 t = subst (λ x. Later x t) (sym end) later in
      let later1 : Later s1.0 t =
        (λ u k cached. later2 u k ((row_to_int64-Grows vs).cached s1.0 s1.1 u k cached)) in
      let cell = decode_cell_lem c.type v s n t w fits.0 first m later1 in
      let cells = row_lem cs vs s1 ns t w fits.1 rest m later2 in
      subst (λ x. decode_cells t (c ∷ cs) x ≡ ok (v ∷ vs)) (ok-injective h2)
        (decode_cons t c n v cs ns vs cell cells)
  row_lem [] (v ∷ vs) s ids t w fits h m later = absurd fits
  row_lem (c ∷ cs) [] s ids t w fits h m later = absurd fits

  -- A row of one value of each column's type, encoded for an engine that gives a string one id that
  -- stays and no two strings the same, with a cache that agrees with the engine: if the encoding
  -- returns, and all that it returns is in the range of `int64_t`, then the cells that reach the
  -- engine, each through `c_int64`, are decoded to the very row with the cache that the encoding
  -- leaves.
  pub decode_cells-row_to_int64 :
      (cs : List Column) (vs : List Value) (t : InternTable) (w : W) (ids : List ℤ)
      → IsRowFor cs vs
      → Mirrors engine t w
      → (row_to_int64 engine.intern_fn vs (t, w)).0 ≡ ok ids
      → All IsInt64 ids
      → decode_cells (row_to_int64 engine.intern_fn vs (t, w)).1.0 cs (map c_int64 ids) ≡ ok vs
  unfolding Later
  decode_cells-row_to_int64 cs vs t w ids fits m h in_range =
      let t' = (row_to_int64 engine.intern_fn vs (t, w)).1.0 in
      ap (λ ns. decode_cells t' cs ns) (map-c_int64 ids in_range)
      ∙ row_lem cs vs (t, w) ids _ _ fits h ((row_to_int64-Grows vs).mirrors t w m)
          (λ u n cached. cached)
