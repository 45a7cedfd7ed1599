-- ===== src/Session/Updates/Arrays.antt =====
-- What the engine gets of an array of NumPy (src/pyrewire/session.py, `_batch_iud`).
use pyre_wire.Prelude.{
  ℕ, ◌<◌, ◌^◌, ◌≡◌, ◌≢◌, refl, sym, ap, ap₂, ◌∙◌, Bool, true, false, String, List, arith, ◌==◌,
  nat_eq, if◌then◌else◌,
}
use pyre_wire.Prelude.Int.{ℤ}
use pyre_wire.Python.Result.{ok, ok-injective}
use pyre_wire.Python.Words.{c_uint32}
use pyre_wire.Program.{rows_of}
use pyre_wire.Session.Object.{Session, SessionLib, Mode, checked}
use pyre_wire.Session.Updates.{
  FlatFn, NumPy, NdArray, as_int64, as_contiguous, send_array, array_iud, insert_array,
}
use pyre_wire.Session.Deltas.Delivery.{require_mode_same}

-- What NumPy documents of its functions: `entries` are the elements of a two-dimensional array, row by
-- row, as `int64`. Conversion and copying keep the shape and the elements, and a C-contiguous array of
-- `int64` has its elements in its memory in the order of the rows.
pub record NumPyLaws (np : NumPy) : Type 0 where
  pub entries : NdArray → List (List ℤ)
  pub astype-keeps :
      (x y : NdArray)
      → np.astype x ≡ ok y
      → (y.is_int64 ≡ true) × (y.shape ≡ x.shape) × (entries y ≡ entries x)
  pub contiguous-keeps :
      (x : NdArray)
      → let y = np.ascontiguousarray x in
        (y.is_contiguous ≡ true)
        × (y.is_int64 ≡ x.is_int64)
        × (y.shape ≡ x.shape)
        × (entries y ≡ entries x)
  pub rows_of-memory :
      (x : NdArray)
      → x.is_int64 ≡ true
      → x.is_contiguous ≡ true
      → rows_of x.memory x.shape.0 x.shape.1 ≡ entries x

module _ {np : NumPy} (laws : NumPyLaws np) where
  converted-keeps :
      (b : Bool) (x y : NdArray)
      → x.is_int64 ≡ b
      → (if b then ok x else np.astype x) ≡ ok y
      → (y.is_int64 ≡ true) × (y.shape ≡ x.shape) × (laws.entries y ≡ laws.entries x)
  converted-keeps true x y already h =
      let same : y ≡ x = sym (ok-injective h) in
      (ap (λ z. z.is_int64) same ∙ already, ap (λ z. z.shape) same, ap (λ z. laws.entries z) same)
  converted-keeps false x y other h = laws.astype-keeps x y h

  as_int64-keeps :
      (x y : NdArray)
      → as_int64 np x ≡ ok y
      → (y.is_int64 ≡ true) × (y.shape ≡ x.shape) × (laws.entries y ≡ laws.entries x)
  unfolding as_int64
  as_int64-keeps x y h = converted-keeps x.is_int64 x y refl h

  copied-keeps :
      (b : Bool) (x : NdArray)
      → x.is_contiguous ≡ b
      → let y = if b then x else np.ascontiguousarray x in
        (y.is_contiguous ≡ true)
        × (y.is_int64 ≡ x.is_int64)
        × (y.shape ≡ x.shape)
        × (laws.entries y ≡ laws.entries x)
  copied-keeps true x already = (already, refl, refl, refl)
  copied-keeps false x other = laws.contiguous-keeps x

  as_contiguous-keeps :
      (x : NdArray)
      → let y = as_contiguous np x in
        (y.is_contiguous ≡ true)
        × (y.is_int64 ≡ x.is_int64)
        × (y.shape ≡ x.shape)
        × (laws.entries y ≡ laws.entries x)
  unfolding as_contiguous
  as_contiguous-keeps x = copied-keeps x.is_contiguous x refl

module _ {W : Type 0} where
  send_array_lem :
      (fn : FlatFn W) (relation : String) (x : NdArray) (s : Session W)
      → x.shape.0 ≢ 0
      → x.shape.0 < 2 ^ 32
      → x.shape.1 < 2 ^ 32
      → send_array fn relation x s ≡ checked (fn s.handle relation x.memory x.shape.0 x.shape.1) s
  unfolding send_array c_uint32
  send_array_lem fn relation x s some_rows rows_fit cols_fit =
      let some_left : (x.shape.0 == 0) ≡ false = ground (arith, some_rows) in
      let rows_same : c_uint32 x.shape.0 ≡ x.shape.0 = omega (arith, rows_fit) in
      let cols_same : c_uint32 x.shape.1 ≡ x.shape.1 = omega (arith, cols_fit) in
      rw some_left (ap₂ (λ r c. checked (fn s.handle relation x.memory r c) s) rows_same cols_same)

  -- `insert_batch` in incremental mode of a two-dimensional array of NumPy, of any element type that
  -- NumPy converts to `int64` and any layout in memory, with at least one row and less than 2 ^ 32 rows
  -- and columns: the engine is called once, with the array's numbers of rows and columns and with
  -- memory from which the array's elements are read back row by row, each as `int64`; `check` is
  -- applied to its answer.
  pub insert_array-entries :
      (lib : SessionLib W) {np : NumPy} (laws : NumPyLaws np) (relation : String) (x y : NdArray)
      (s : Session W)
      → s.mode ≡ Mode.incremental
      → x.ndim ≡ 2
      → as_int64 np x ≡ ok y
      → x.shape.0 ≢ 0
      → x.shape.0 < 2 ^ 32
      → x.shape.1 < 2 ^ 32
      → (cells : ℕ → ℤ) × (rows_of cells x.shape.0 x.shape.1 ≡ laws.entries x)
        × (insert_array lib relation np x s
            ≡ checked (lib.insert s.handle relation cells x.shape.0 x.shape.1) s)
  unfolding insert_array array_iud
  insert_array-entries lib {np} laws relation x y s mode two converted some_rows rows_fit cols_fit =
      let z = as_contiguous np y in
      let (int64, shape, entries) = as_int64-keeps laws x y converted in
      let (contiguous, same_type, same_shape, same_entries) = as_contiguous-keeps laws y in
      let same : z.shape ≡ x.shape = same_shape ∙ shape in
      let is_two : (x.ndim == 2) ≡ true = ground (arith, two) in
      (
        z.memory,
        sym (ap (λ n. rows_of z.memory n.0 n.1) same)
            ∙ laws.rows_of-memory z (same_type ∙ int64) contiguous
            ∙ same_entries
            ∙ entries,
        rw (require_mode_same s Mode.incremental mode (λ e. cc), is_two, converted)
            (send_array_lem lib.insert relation z s (rw same some_rows) (rw same rows_fit)
                (rw same cols_fit)
              ∙ ap (λ n. checked (lib.insert s.handle relation z.memory n.0 n.1) s) same),
      )
